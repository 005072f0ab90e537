-- ===== src/Counter/Examples.antt =====
-- p4-final/handin/counter.c: a short run, and the theorems along it.
use sp.Base.{ℕ, ◌≡◌, ◌≢◌, refl, ◌⊎◌, true, arith}
use sp.Counter.{
  spin_build, pth_build, increment, decrement, Shared, idle, entered, counter_init, System, step,
  Reach, start, later,
}
use sp.Counter.Exclusion.{critical, expected, mutual_exclusion, no_lost_update, no_deadlock}
use sp.Counter.Mixed.{pth_loses_update}

abbrev garbage : Shared
garbage = record { val = 77; flag = 0; plock = 9; incs = 3; decs = 4 }

abbrev begun : System
begun = record { mem = counter_init spin_build 5 garbage; pc = λ i. idle }

-- Thread 0 has stored its increment and holds the lock; thread 1 spins.
abbrev contended : System
contended = step spin_build 0 increment (
    step spin_build 0 increment (
      step spin_build 1 decrement (
        step spin_build 1 decrement
          (step spin_build 0 increment (step spin_build 0 increment begun)))))

contended-Reach : Reach spin_build 5 garbage contended
contended-Reach = later 0 increment (
    later 0 increment
      (later 1 decrement (later 1 decrement (later 0 increment (later 0 increment start)))))

contended_value : contended.mem.val ≡ 6
unfolding step counter_init
contended_value = refl

mutual_exclusion_example : ◌≡◌ {A = ℕ} 0 0
unfolding step counter_init
mutual_exclusion_example =
    mutual_exclusion 5 garbage contended (omega arith) contended-Reach 0 0 refl refl

no_lost_update_example : contended.mem.val ≡ expected 5 contended.mem
no_lost_update_example = no_lost_update 5 garbage contended (omega arith) contended-Reach

no_deadlock_example :
    ((step spin_build 1 increment contended).pc 1 ≡ entered decrement)
    ⊎ ((j : ℕ) × (critical (contended.pc j) ≡ true))
unfolding step counter_init
no_deadlock_example =
    no_deadlock 5 garbage contended (omega arith) contended-Reach 1 decrement increment refl

pth_loses_update_example :
    (s : System) × Reach pth_build 5 garbage s
    × (s.pc 0 ≡ idle)
    × (s.pc 1 ≡ idle)
    × (s.mem.incs ≡ 1)
    × (s.mem.decs ≡ 1)
    × (s.mem.val ≡ 4)
    × (s.mem.val ≢ expected 5 s.mem)
pth_loses_update_example = pth_loses_update 5 garbage (omega arith) (omega arith)
