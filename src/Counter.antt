-- ===== src/Counter.antt =====
-- p4-final/handin/counter.c and spin.c: a counter shared by threads, one access to shared memory at a
-- time. `Build` says whether PTH is defined. `val` is the bit pattern of an `int` of 32 bits, and
-- `incs` and `decs` count the stores of the two operations; no code reads them. A pthread mutex is
-- `plock`: 0 when free, and a thread that asks for it waits until it is.
pub mod Exclusion
pub mod Mixed
mod Examples
use sp.Base.{ℕ, suc, ◌+◌, ◌-◌, ◌%◌, ◌^◌, ◌==◌, if◌then◌else◌}

pub data Build : Type 0 where
  spin_build pth_build : Build

pub data Op : Type 0 where
  increment decrement : Op

pub record Shared : Type 0 where
  pub val : ℕ
  pub flag : ℕ
  pub plock : ℕ
  pub incs : ℕ
  pub decs : ℕ

-- Where a thread stands in `Counter_Increment` or `Counter_Decrement`, or outside both.
pub data Pc : Type 0 where
  idle : Pc
  trying entered leaving : Op → Pc
  loaded : Op → ℕ → Pc

pub data Lock : Type 0 where
  spinlock mutex : Lock

-- Only the code of `Counter_Increment` depends on PTH.
unfoldable pub lock_of : Build → Op → Lock
lock_of spin_build op = spinlock
lock_of pth_build increment = mutex
lock_of pth_build decrement = spinlock

-- The instruction `xchgl`: the old value, and the new one.
abbrev xchg : ℕ → ℕ → ℕ × ℕ
xchg addr newval = (addr, newval)

-- One round of the loop of `spinlock_acquire`.
spinlock_acquire : Shared → Op → Shared × Pc
spinlock_acquire m op =
    let (old, new) = xchg m.flag 1 in
    (record m { flag = new }, if old == 1 then trying op else entered op)

spinlock_release : Shared → Shared
spinlock_release m = record m { flag = 0 }

mutex_lock : Shared → Op → Shared × Pc
mutex_lock m op = if m.plock == 0 then (record m { plock = 1 }, entered op) else (m, trying op)

acquire : Lock → Shared → Op → Shared × Pc
unfolding spinlock_acquire mutex_lock
acquire spinlock m op = spinlock_acquire m op
acquire mutex m op = mutex_lock m op

release : Lock → Shared → Shared
unfolding spinlock_release
release spinlock m = spinlock_release m
release mutex m = record m { plock = 0 }

-- `++ (c->val)` and `-- (c->val)`, once the old value is loaded.
store_val : Op → ℕ → Shared → Shared
store_val increment v m = record m { val = (v + 1) % 2 ^ 32; incs = suc m.incs }
store_val decrement v m = record m { val = (v + (2 ^ 32 - 1)) % 2 ^ 32; decs = suc m.decs }

-- One step of one thread; an idle thread begins the operation `next`.
unfoldable pub step_thread : Build → Op → Shared → Pc → Shared × Pc
unfolding lock_of acquire release store_val
step_thread b next m idle = (m, trying next)
step_thread b next m (trying op) = acquire (lock_of b op) m op
step_thread b next m (entered op) = (m, loaded op m.val)
step_thread b next m (loaded op v) = (store_val op v m, leaving op)
step_thread b next m (leaving op) = (release (lock_of b op) m, idle)

-- `Counter_Init` on whatever the memory held; with PTH it leaves the spinlock as it is.
unfoldable pub counter_init : Build → ℕ → Shared → Shared
counter_init spin_build value m = record m { val = value; flag = 0; incs = 0; decs = 0 }
counter_init pth_build value m = record m { val = value; plock = 0; incs = 0; decs = 0 }

pub record System : Type 0 where
  pub mem : Shared
  pub pc : ℕ → Pc

abbrev pub set_pc : (ℕ → Pc) → ℕ → Pc → ℕ → Pc
set_pc pc i p j = if i == j then p else pc j

-- Thread `i` takes a step.
unfoldable pub step : Build → ℕ → Op → System → System
unfolding step_thread
step b i next s =
    let (m, p) = step_thread b next s.mem (s.pc i) in record { mem = m; pc = set_pc s.pc i p }

-- The states that some interleaving of any number of threads leads to.
pub data Reach (b : Build) (value : ℕ) (m : Shared) : System → Type 0 where
  start : Reach b value m (record { mem = counter_init b value m; pc = λ i. idle })
  later : {s : System} (i : ℕ) (next : Op) → Reach b value m s → Reach b value m (step b i next s)
