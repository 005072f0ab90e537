-- ===== src/Shell/Single/Child.antt =====
-- p2/single.c: a child process never returns into the shell.
use sp.Base.{
  ℕ, ◌≡◌, Bool, true, false, Option, if◌then◌else◌, ℤ, pos, negsuc, eqb_ℤ, CString, Bool-cases, inl,
  inr, ◌∷◌,
}
use sp.Shell.Process.{
  fork, History, Os, Result, returns, exits, replaced, crash, loops, Process, continue, execvp,
}
use sp.Shell.Parser.{Argv}
use sp.Shell.Single.{
  Pipe, run_built_in, run_child, spawn, exec_program, execute_atomic_command, run_pipeline,
  execute_single_job,
}

-- The run does not return.
pub data Ends {A : Type 0} : Result A → Type 0 where
  by_exit : (c : ℕ) (h : History) → Ends (exits c h)
  by_exec : (argv : Argv) (h : History) → Ends (replaced argv h)
  by_crash : Ends crash
  by_hang : (h : History) → Ends (loops h)

abbrev pub Leaves : {A : Type 0} → Process A → Type 0
Leaves m = (h : History) → Ends (m h)

continue-Ends :
    {A B : Type 0} (r : Result A) (f : A → Process B)
    → ((a : A) (h : History) → Ends (f a h))
    → Ends (continue r f)
continue-Ends (returns a h) f l = l a h
continue-Ends (exits c h) f l = by_exit c h
continue-Ends (replaced argv h) f l = by_exec argv h
continue-Ends crash f l = by_crash
continue-Ends (loops h) f l = by_hang h

continue-Ends_first :
    {A B : Type 0} (r : Result A) (f : A → Process B) → Ends r → Ends (continue r f)
continue-Ends_first r f (by_exit c h) = by_exit c h
continue-Ends_first r f (by_exec argv h) = by_exec argv h
continue-Ends_first r f by_crash = by_crash
continue-Ends_first r f (by_hang h) = by_hang h

if-Ends :
    {A : Type 0} (b : Bool) (m k : Process A) (h : History)
    → Ends (m h)
    → Ends (k h)
    → Ends ((if b then m else k) h)
if-Ends true m k h l r = l
if-Ends false m k h l r = r

-- Every `fork` answers as it does in the child.
abbrev pub InChild : Os → Type 0
InChild os = (h : History) → os.answer (fork ∷ h) ≡ pos 0

fork-Ends :
    (os : Os) (h : History) {A : Type 0} (m k : Process A)
    → os.answer (fork ∷ h) ≡ pos 0
    → Ends (m (fork ∷ h))
    → Ends ((if eqb_ℤ (os.answer (fork ∷ h)) (pos 0) then m else k) (fork ∷ h))
fork-Ends os h m k e l = rw e l

exec_program-Ends : (os : Os) (argv : Argv) (h : History) → Ends (exec_program os argv h)
exec_program-Ends os argv h = elim (Bool-cases (eqb_ℤ (os.answer (execvp argv ∷ h)) (negsuc 0))) [
  | inl failed ↦ rw failed (by_exit _ _)
  | inr gone ↦ rw gone (by_exec _ _)
]

module _ (os : Os) (in_child : InChild os) where
  run_built_in-Leaves : (name : CString) (argv : Argv) → Leaves (run_built_in os name argv)
  unfolding run_built_in
  run_built_in-Leaves name argv h = search (continue-Ends, fork-Ends, in_child, by_exit)

  run_child-Leaves :
      (cmd : CString) (argv : Argv) (fd : ℤ) (prev next : Option Pipe)
      → Leaves (run_child os cmd argv fd prev next)
  unfolding run_child
  run_child-Leaves cmd argv fd prev next h = search (continue-Ends, exec_program-Ends)

  spawn-Leaves :
      (cmd : CString) (argv : Argv) (fd : ℤ) (prev next : Option Pipe)
      → Leaves (spawn os cmd argv fd prev next)
  unfolding spawn
  spawn-Leaves cmd argv fd prev next h =
      rw (in_child h) (run_child-Leaves cmd argv fd prev next (fork ∷ h))

  execute_atomic_command-Leaves :
      (fd : ℤ) (cmd : CString) (prev next : Option Pipe)
      → Leaves (execute_atomic_command os fd cmd prev next)
  unfolding execute_atomic_command
  execute_atomic_command-Leaves fd cmd prev next h =
      search (continue-Ends, if-Ends, run_built_in-Leaves, spawn-Leaves) depth 8

  run_pipeline-Leaves : (fd : ℤ) (line : CString) → Leaves (run_pipeline os fd line)
  unfolding run_pipeline
  run_pipeline-Leaves fd line h = rw (in_child h) (by_exit _ _)

-- Where every `fork` answers with 0, as it does in a child, `executeSingleJob` does not return,
-- whatever the job and the calls before it: the process exits, is replaced, is undefined or uses up
-- its rounds.
pub execute_single_job-Leaves :
    (os : Os) (job : CString) → InChild os → (h : History) → Ends (execute_single_job os job h)
unfolding execute_single_job
execute_single_job-Leaves os job in_child h =
    search
      (
        continue-Ends,
        if-Ends,
        continue-Ends_first,
        run_pipeline-Leaves os in_child,
        execute_atomic_command-Leaves os in_child,
      )
      depth 12
