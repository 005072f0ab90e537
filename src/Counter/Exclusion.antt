-- ===== src/Counter/Exclusion.antt =====
-- p4-final/handin/counter.c built without PTH: the spinlock keeps threads apart, and no update is lost.
use sp.Base.{ℕ, ◌+◌, ◌-◌, ◌*◌, ◌%◌, ◌^◌, ◌<◌, ◌≡◌, refl, ◌⊎◌, inl, inr, Bool, true, false, arith}
use sp.Counter.{
  spin_build, Op, increment, decrement, Shared, Pc, idle, trying, entered, loaded, leaving,
  step_thread, counter_init, System, set_pc, step, Reach, start, later,
}

-- Between the return of `spinlock_acquire` and the store of `spinlock_release`.
abbrev pub critical : Pc → Bool
critical idle = false
critical (trying op) = false
critical _ = true

-- What a thread that has loaded the value relies on.
abbrev IsFresh : Shared → Pc → Type 0
IsFresh m (loaded op v) = m.val ≡ v
IsFresh m _ = Unit

-- The value that the stores so far should have left.
abbrev pub expected : ℕ → Shared → ℕ
expected value m = (value + m.incs + (2 ^ 32 - 1) * m.decs) % 2 ^ 32

record Inv (value : ℕ) (s : System) : Type 0 where
  unique : (i j : ℕ) → critical (s.pc i) ≡ true → critical (s.pc j) ≡ true → i ≡ j
  held : (i : ℕ) → critical (s.pc i) ≡ true → s.mem.flag ≡ 1
  owned : (s.mem.flag ≡ 0) ⊎ ((i : ℕ) × (critical (s.pc i) ≡ true))
  fresh : (i : ℕ) → IsFresh s.mem (s.pc i)
  right : s.mem.val ≡ expected value s.mem

Inv-init :
    (value : ℕ) (m : Shared)
    → value < 2 ^ 32
    → Inv value (record { mem = counter_init spin_build value m; pc = λ i. idle })
unfolding counter_init
Inv-init value m h = record {
  unique = λ i j p q. cc;
  held = λ i p. cc;
  owned = inl refl;
  fresh = λ i. tt;
  right = omega arith;
}

-- One thread's move, with its place before the move in a variable.
module _ (value : ℕ) (s : System) (inv : Inv value s) (i : ℕ) (next : Op) where
  abbrev after : Pc → System
  after p =
      let (m, p') = step_thread spin_build next s.mem p in record { mem = m; pc = set_pc s.pc i p' }

  move_unique :
      (p : Pc)
      → s.pc i ≡ p
      → (j k : ℕ) → critical ((after p).pc j) ≡ true
      → critical ((after p).pc k) ≡ true
      → j ≡ k
  unfolding step_thread
  move_unique idle e j k a b = ground (arith, inv.unique j k)
  move_unique (trying op) e j k a b = ground (arith, inv.unique j k, inv.held j, inv.held k)
  move_unique p e j k a b = ground (arith, inv.unique j k)

  move_held :
      (p : Pc) → s.pc i ≡ p → (j : ℕ) → critical ((after p).pc j) ≡ true → (after p).mem.flag ≡ 1
  unfolding step_thread
  move_held idle e j a = ground (arith, inv.held j)
  move_held (leaving op) e j a = ground (arith, inv.unique i j)
  move_held (loaded increment v) e j a = ground (arith, inv.held j, inv.held i)
  move_held (loaded decrement v) e j a = ground (arith, inv.held j, inv.held i)
  move_held p e j a = ground (arith, inv.held j, inv.held i)

  move_owned :
      (p : Pc)
      → s.pc i ≡ p
      → ((after p).mem.flag ≡ 0) ⊎ ((j : ℕ) × (critical ((after p).pc j) ≡ true))
  unfolding step_thread
  move_owned idle e = elim inv.owned [ inl free ↦ inl free | inr (j, c) ↦ inr (j, ground arith) ]
  move_owned (trying op) e = elim inv.owned [
    | inl free ↦ inr (i, ground arith)
    | inr (j, c) ↦ inr (j, ground (arith, inv.held j))
  ]
  move_owned (entered op) e = inr (i, ground arith)
  move_owned (loaded op v) e = inr (i, ground arith)
  move_owned (leaving op) e = inl refl

  move-IsFresh : (p : Pc) → s.pc i ≡ p → (j : ℕ) → IsFresh (after p).mem ((after p).pc j)
  unfolding step_thread
  move-IsFresh idle e j = ground (arith, inv.fresh j)
  move-IsFresh (trying op) e j = ground (arith, inv.fresh j)
  move-IsFresh (entered op) e j = ground (arith, inv.fresh j)
  move-IsFresh (loaded increment v) e j = ground (arith, inv.fresh j, inv.unique i j)
  move-IsFresh (loaded decrement v) e j = ground (arith, inv.fresh j, inv.unique i j)
  move-IsFresh (leaving op) e j = ground (arith, inv.fresh j)

  move_right : (p : Pc) → s.pc i ≡ p → (after p).mem.val ≡ expected value (after p).mem
  unfolding step_thread
  move_right idle e = inv.right
  move_right (trying op) e = ground (arith, inv.right)
  move_right (loaded increment v) e = ground (arith, inv.right, inv.fresh i)
  move_right (loaded decrement v) e = ground (arith, inv.right, inv.fresh i)
  move_right p e = inv.right

  step-Inv : Inv value (step spin_build i next s)
  unfolding step
  step-Inv = record {
    unique = move_unique (s.pc i) refl;
    held = move_held (s.pc i) refl;
    owned = move_owned (s.pc i) refl;
    fresh = move-IsFresh (s.pc i) refl;
    right = move_right (s.pc i) refl;
  }

Reach-Inv :
    {value : ℕ} {m : Shared} {s : System}
    → value < 2 ^ 32
    → Reach spin_build value m s
    → Inv value s
Reach-Inv {value} {m} h start = Inv-init value m h
Reach-Inv {value} h (later {s} i next r) = step-Inv value s (Reach-Inv h r) i next

-- Without PTH, in every state that threads in any number and interleaving reach from a 32-bit
-- initial value, two threads that are past acquiring and before releasing the spinlock are the same
-- thread.
pub mutual_exclusion :
    (value : ℕ) (m : Shared) (s : System)
    → value < 2 ^ 32
    → Reach spin_build value m s
    → (i j : ℕ) → critical (s.pc i) ≡ true
    → critical (s.pc j) ≡ true
    → i ≡ j
mutual_exclusion value m s h r = (Reach-Inv h r).unique

-- Without PTH, in every state that threads in any number and interleaving reach from a 32-bit
-- initial value, the counter is that value plus the number of increments stored so far, minus the
-- number of decrements, modulo 2^32.
pub no_lost_update :
    (value : ℕ) (m : Shared) (s : System)
    → value < 2 ^ 32
    → Reach spin_build value m s
    → s.mem.val ≡ expected value s.mem
no_lost_update value m s h r = (Reach-Inv h r).right

-- Without PTH, in every reachable state from a 32-bit initial value, a thread that tries to take
-- the spinlock gets it in its next step, or some thread is past acquiring and before releasing it.
pub no_deadlock :
    (value : ℕ) (m : Shared) (s : System)
    → value < 2 ^ 32
    → Reach spin_build value m s
    → (i : ℕ) (op next : Op) → s.pc i ≡ trying op
    → ((step spin_build i next s).pc i ≡ entered op) ⊎ ((j : ℕ) × (critical (s.pc j) ≡ true))
unfolding step step_thread
no_deadlock value m s h r i op next e = elim (Reach-Inv h r).owned [
  | inl free ↦ inl (ground arith)
  | inr held ↦ inr held
]
