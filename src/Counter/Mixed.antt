-- ===== src/Counter/Mixed.antt =====
-- p4-final/handin/counter.c built with PTH: `Counter_Increment` takes the mutex and
-- `Counter_Decrement` the spinlock, so nothing keeps the two apart.
use sp.Base.{ℕ, ◌+◌, ◌-◌, ◌%◌, ◌^◌, ◌<◌, ◌≡◌, ◌≢◌, arith}
use sp.Counter.{
  pth_build, increment, decrement, Shared, idle, counter_init, System, step, step_thread, Reach,
  start, later,
}
use sp.Counter.Exclusion.{expected}

-- Thread 0 increments while thread 1 decrements, each between the load and the store of the other.
abbrev race : ℕ → Shared → System
race value m =
    let s0 : System = record { mem = counter_init pth_build value m; pc = λ i. idle } in
    let s1 = step pth_build 1 decrement (step pth_build 0 increment s0) in
    let s2 = step pth_build 1 decrement (step pth_build 0 increment s1) in
    let s3 = step pth_build 1 decrement (step pth_build 0 increment s2) in
    let s4 = step pth_build 1 decrement (step pth_build 0 increment s3) in
    step pth_build 1 decrement (step pth_build 0 increment s4)

race-Reach : (value : ℕ) (m : Shared) → Reach pth_build value m (race value m)
race-Reach value m = later 1 decrement (
    later 0 increment (
      later 1 decrement (
        later 0 increment (
          later 1 decrement (
            later 0 increment (
              later 1 decrement
                (later 0 increment (later 1 decrement (later 0 increment start)))))))))

-- With PTH, from every 32-bit initial value and every memory whose spinlock word is not 1, a state
-- is reached in which threads 0 and 1 are idle again after one stored increment and one stored
-- decrement, and the counter is one lower than at the start, not what the two stores should have
-- left.
pub pth_loses_update :
    (value : ℕ) (m : Shared)
    → value < 2 ^ 32
    → m.flag ≢ 1
    → (s : System) × Reach pth_build value m s
      × (s.pc 0 ≡ idle)
      × (s.pc 1 ≡ idle)
      × (s.mem.incs ≡ 1)
      × (s.mem.decs ≡ 1)
      × (s.mem.val ≡ (value + (2 ^ 32 - 1)) % 2 ^ 32)
      × (s.mem.val ≢ expected value s.mem)
unfolding step counter_init step_thread
pth_loses_update value m h free = (
  race value m,
  race-Reach value m,
  ground arith,
  ground arith,
  ground arith,
  ground arith,
  ground arith,
  ground arith,
)
