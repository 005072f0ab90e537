-- ===== src/Shell/Line.antt =====
-- p2/shell.c: a line of commands, and the main function.
pub mod Sequential
pub mod Parallel
pub mod Faults
use sp.Base.{
  ℕ, zero, suc, ◌+◌, ◌≡◌, refl, Bool, true, false, not, ◌||◌, Option, none, some, List, [], ◌∷◌,
  ◌++◌, ◌==◌, ltb, leb, if◌then◌else◌, length, ℤ, pos, negsuc, eqb_ℤ, ltb_ℤ, Outcome, ok, fault,
  load, store, Array, calloc, CString, has_byte,
}
use sp.Shell.Process.{
  Arg, null, wild, text, fork, wait_any, prompt, error_message, waitpid, write_out, History, Os,
  Result, returns, exits, replaced, crash, loops, Process, pure, continue, ◌>>=◌, ◌>>◌, call, run,
  exit_process, undefined, lift,
}
use sp.Shell.Parser.{
  Argv, blanks, char, cut, parse_single_command, parse_sequential_commands, parse_parallel_commands,
}
use sp.Shell.Basic.{get_command_mode, is_empty_line}
use sp.Shell.Single.{new_argv, copy, wait_for, execute_single_job}

-- The loop of the sequential mode. A job with no process id above 0 is run again.
unfoldable pub sequential_loop : ℕ → Os → Argv → ℕ → Process (Unit {0})
sequential_loop zero os argv i = loops
sequential_loop (suc n) os argv i = do
  arg ← lift (load argv i)
  elim arg [
    | null ↦ pure tt
    | wild ↦ undefined
    | text job ↦ (do
      (pid, job') ← execute_single_job os job
      argv' ← lift (store argv i (text job'))
      wait_for pid
      sequential_loop n os argv' (if ltb_ℤ (pos 0) pid then suc i else i))
  ]

-- The first loop of the parallel mode starts the jobs.
unfoldable pub start_loop : ℕ → Os → Argv → Array ℤ → ℕ → Process (Argv × Array ℤ)
start_loop zero os argv pids i = loops
start_loop (suc n) os argv pids i = do
  arg ← lift (load argv i)
  elim arg [
    | null ↦ pure (argv, pids)
    | wild ↦ undefined
    | text job ↦ (do
      (pid, job') ← execute_single_job os job
      argv' ← lift (store argv i (text job'))
      pids' ← lift (store pids i pid)
      start_loop n os argv' pids' (suc i))
  ]

-- The second one waits for them.
unfoldable pub wait_loop : ℕ → Argv → Array ℤ → ℕ → Process (Unit {0})
wait_loop zero argv pids i = loops
wait_loop (suc n) argv pids i = do
  arg ← lift (load argv i)
  elim arg [
    | null ↦ pure tt
    | wild ↦ undefined
    | text job ↦ (do
      pid ← lift (load pids i)
      wait_for pid
      wait_loop n argv pids (if ltb_ℤ (pos 0) pid then suc i else i))
  ]

-- The cells of a local array of process ids, which are written before they are read.
abbrev new_pids : Os → Array ℤ
new_pids os = calloc os.max_length (pos 0)

-- `executeCurrentLine`, with rounds for its loops.
unfoldable pub execute_current_line : ℕ → Os → CString → Process (Unit {0})
unfolding sequential_loop start_loop wait_loop
execute_current_line n os line = do
  copy os line
  argv0 ← new_argv os
  argv1 ← lift (parse_single_command line argv0)
  if leb (get_command_mode line) 1
      then (do argv ← lift (parse_sequential_commands line argv1); sequential_loop n os argv 0)
      else if get_command_mode line == 2
      then (do
        argv ← lift (parse_parallel_commands line argv1)
        (argv', pids) ← start_loop n os argv (new_pids os) 0
        wait_loop n argv' pids 0)
      else if get_command_mode line == 3
      then run error_message
      else exit_process 1

-- One line of a batch file.
batch_line : ℕ → Os → CString → Process (Unit {0})
batch_line n os line = do
  run (write_out line)
  if ltb os.max_length (length line)
      then run error_message
      else if is_empty_line line
      then pure tt
      else (do
        pid ← call os fork
        if eqb_ℤ pid (pos 0) then exit_process 0 else run wait_any
        execute_current_line n os (cut (char b'\n') line))

batch_loop : ℕ → Os → List CString → Process (Unit {0})
batch_loop n os [] = pure tt
batch_loop n os (line ∷ lines) = batch_line n os line >> batch_loop n os lines

-- What `fgets` leaves in the buffer: at the end of the input it stays as it is.
abbrev next_line : List CString → CString → CString × List CString
next_line [] buffer = (buffer, [])
next_line (line ∷ lines) buffer = (line, lines)

-- The loop of the interactive mode does not end by itself; it gets `k` rounds. `executeCurrentLine` cuts
-- its line at the first blank.
unfoldable pub interactive_loop : ℕ → ℕ → Os → List CString → CString → Process ℕ
interactive_loop zero n os lines buffer = loops
interactive_loop (suc k) n os lines buffer =
    let (read, lines') = next_line lines buffer in
    let line = cut (char b'\n') read in
    do run prompt; execute_current_line n os line; interactive_loop k n os lines' (cut blanks line)

-- `file` is what `fopen` and `fgets` give of a path, `typed` the lines of stdin, `buffer` what the new
-- array of the interactive mode holds; the result is the status.
unfoldable pub main :
    ℕ
    → ℕ
    → Os
    → (file : CString → Option (List CString)) → (typed : List CString) → (buffer : CString)
    → List CString
    → Process ℕ
unfolding batch_line batch_loop interactive_loop
main k n os file typed buffer [] = interactive_loop k n os typed buffer
main k n os file typed buffer (path ∷ []) = elim (file path) [
  | none ↦ run error_message >> pure 1
  | some lines ↦ batch_loop n os lines >> pure 0
]
main k n os file typed buffer (path ∷ other ∷ args) = run error_message >> pure 1
