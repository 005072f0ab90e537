-- ===== src/Shell/Single.antt =====
-- p2/single.c: a single command, and a job, which may have a redirection and pipes.
pub mod Child
pub mod Jobs
pub mod Pipes
use sp.Base.{
  ℕ, zero, suc, ◌+◌, ◌-◌, ◌≡◌, refl, Bool, true, false, not, ◌||◌, Option, none, some, List, [],
  ◌∷◌, ◌++◌, ◌==◌, ltb, leb, if◌then◌else◌, length, ℤ, pos, negsuc, eqb_ℤ, ltb_ℤ, Outcome, ok,
  fault, load, store, Array, CString, same_string, has_byte,
}
use sp.Shell.Process.{
  Arg, null, wild, text, Call, fork, pipe, getcwd, perror, error_message, waitpid, open_file, close,
  dup2, chdir, write_out, execvp, History, Os, Result, returns, exits, replaced, crash, loops,
  Process, pure, continue, ◌>>=◌, ◌>>◌, call, run, exit_process, undefined, lift,
}
use sp.Shell.Parser.{
  Argv, blanks, char, lead, skip, token, strtok, cut, parse_single_command, parse_file_direction,
  parse_pipe,
}
use sp.Shell.Basic.{quit, pwd, cd, string_of, is_built_in, command_name}

-- The two ends of a pipe: PIPE_RD_END and PIPE_WR_END.
abbrev pub Pipe : Type 0
Pipe = ℕ × ℕ

-- A new local array of MAX_LENGTH pointers.
abbrev pub new_argv : Os → Process Argv
new_argv os h = returns (λ i. if ltb i os.max_length then some (os.stack h i) else none) h

-- `strcpy` into a local array of MAX_LENGTH bytes.
abbrev pub copy : Os → CString → Process (Unit {0})
copy os s = if ltb (length s) os.max_length then pure tt else undefined

-- Whether a cell of the vector is a null pointer.
abbrev pub is_null : Arg → Bool
is_null null = true
is_null wild = false
is_null (text s) = false

abbrev pub null_at : Argv → ℕ → Process Bool
null_at argv i = lift (load argv i) >>= λ arg. pure (is_null arg)

-- `if (f () < 0) printErrorMsg ();`
abbrev complain_below_0 : ℤ → Process (Unit {0})
complain_below_0 r = if ltb_ℤ r (pos 0) then run error_message else pure tt

run_quit : Argv → Process (Unit {0})
run_quit argv = null_at argv 1 >>= λ alone. (if alone then exit_process 0 else run error_message)

print_directory : Os → Process (Unit {0})
print_directory os h = elim (os.cwd (getcwd ∷ h)) [
  | none ↦ returns tt (error_message ∷ getcwd ∷ h)
  | some path ↦ returns tt (write_out (char b'\n') ∷ write_out path ∷ getcwd ∷ h)
]

run_pwd : Os → Argv → Process (Unit {0})
unfolding print_directory
run_pwd os argv =
    null_at argv 1 >>= λ alone. (if alone then print_directory os else run error_message)

change_directory : Os → Argv → Process (Unit {0})
change_directory os argv = do
  alone ← null_at argv 2
  if alone
      then (do
        arg ← lift (load argv 1)
        path ← lift (string_of arg)
        r ← call os (chdir (some path))
        complain_below_0 r)
      else run error_message

run_cd : Os → Argv → Process (Unit {0})
unfolding change_directory
run_cd os argv = do
  alone ← null_at argv 1
  if alone then (call os (chdir os.home) >>= complain_below_0) else change_directory os argv

-- The built-in commands, and a child that ends at once.
unfoldable pub run_built_in : Os → CString → Argv → Process ℤ
unfolding run_quit run_pwd run_cd
run_built_in os name argv = do
  if same_string name quit then run_quit argv else pure tt
  if same_string name pwd then run_pwd os argv else pure tt
  if same_string name cd then run_cd os argv else pure tt
  pid ← call os fork
  if eqb_ℤ pid (pos 0) then exit_process 0 else pure pid

abbrev plug_in : Option Pipe → Process (Unit {0})
plug_in none = pure tt
plug_in (some (rd, wr)) = do run (close wr); run (dup2 rd 0); run (close rd)

-- Without a next pipe the output goes to `write_filedes`; a negative one but -1 does not occur.
abbrev plug_out : Option Pipe → ℤ → Process (Unit {0})
plug_out (some (rd, wr)) write_filedes = do run (close rd); run (dup2 wr 1); run (close wr)
plug_out none (pos fd) = run (dup2 fd 1)
plug_out none (negsuc n) = pure tt

-- `execvp` returns only where it fails.
abbrev exec_program : Os → Argv → Process ℤ
exec_program os argv h =
    if eqb_ℤ (os.answer (execvp argv ∷ h)) (negsuc 0)
    then exits 1 (error_message ∷ execvp argv ∷ h)
    else replaced argv (execvp argv ∷ h)

-- What the child does. It parses the command into the vector anew.
unfoldable pub run_child : Os → CString → Argv → ℤ → Option Pipe → Option Pipe → Process ℤ
run_child os cmd_line2 argv write_filedes prev next = do
  plug_in prev
  plug_out next write_filedes
  argv' ← lift (parse_single_command cmd_line2 argv)
  name ← lift (command_name argv')
  exec_program os argv'

unfoldable pub spawn : Os → CString → Argv → ℤ → Option Pipe → Option Pipe → Process ℤ
unfolding run_child
spawn os cmd_line2 argv write_filedes prev next = do
  pid ← call os fork
  if eqb_ℤ pid (pos 0)
      then run_child os cmd_line2 argv write_filedes prev next
      else if eqb_ℤ pid (negsuc 0)
      then run perror >> exit_process 1
      else pure pid

-- `executeAtomicCommand`; it returns the process id that it stores. `read_filedes` is not used.
unfoldable pub execute_atomic_command : Os → ℤ → CString → Option Pipe → Option Pipe → Process ℤ
unfolding spawn run_built_in command_name is_built_in
execute_atomic_command os write_filedes cmd_line prev next = do
  copy os cmd_line
  argv0 ← new_argv os
  argv ← lift (parse_single_command cmd_line argv0)
  name ← lift (command_name argv)
  if is_built_in name
      then run_built_in os name argv
      else spawn os cmd_line argv write_filedes prev next

-- The pipes of a job. Without one more the shell exits.
unfoldable pub make_pipes : Os → ℕ → Process (List Pipe)
make_pipes os zero = pure []
make_pipes os (suc n) = do
  r ← call os pipe
  if eqb_ℤ r (negsuc 0) then exit_process 0 else pure tt
  ends ← λ h. returns (os.pipe_ends h) h
  pipes ← make_pipes os n
  pure (ends ∷ pipes)

abbrev pub next_pipe : List Pipe → Option Pipe
next_pipe [] = none
next_pipe (p ∷ pipes) = some p

abbrev pub other_pipes : List Pipe → List Pipe
other_pipes [] = []
other_pipes (p ∷ pipes) = pipes

abbrev close_pipe : Option Pipe → Process (Unit {0})
close_pipe none = pure tt
close_pipe (some (rd, wr)) = do run (close rd); run (close wr)

abbrev pub wait_for : ℤ → Process (Unit {0})
wait_for pid = if ltb_ℤ (pos 0) pid then run (waitpid pid) else pure tt

-- The commands of a pipeline from `j` on, of which `n` are left. `pipes` are those behind them.
unfoldable pub run_commands : Os → ℤ → ℕ → Argv → ℕ → Option Pipe → List Pipe → Process (Unit {0})
run_commands os fd zero argv j prev pipes = pure tt
run_commands os fd (suc n) argv j prev pipes = do
  arg ← lift (load argv j)
  cmd ← lift (string_of arg)
  pid ← execute_atomic_command os fd cmd prev (next_pipe pipes)
  close_pipe prev
  wait_for pid
  run_commands os fd n argv (suc j) (next_pipe pipes) (other_pipes pipes)

-- The part of `executeSingleJob` for a job with pipes. A child that ends at once gives the process id.
unfoldable pub run_pipeline : Os → ℤ → CString → Process ℤ
unfolding make_pipes run_commands
run_pipeline os fd cmd_line = do
  pid ← call os fork
  if eqb_ℤ pid (pos 0) then exit_process 0 else pure tt
  argv0 ← new_argv os
  (count, argv) ← lift (parse_pipe cmd_line argv0)
  pipes ← make_pipes os (count - 1)
  run_commands os fd count argv 0 none pipes
  pure pid

-- The file that the output goes to, or -1. `strcpy` from a null pointer is undefined.
unfoldable pub open_redirection : Os → Arg → Process ℤ
open_redirection os null = pure (negsuc 0)
open_redirection os wild = undefined
open_redirection os (text s) = do
  copy os s
  elim (strtok (b' ' ∷ b'\t' ∷ []) s) [
    | none ↦ undefined
    | some (file, _) ↦ call os (open_file file)
  ]

-- What the buffer of a command reads as after its blanks are cut, where `delims` were cut before.
abbrev pub cut_first : CString → CString → CString
cut_first delims s = lead delims s ++ cut blanks (token delims (skip delims s))

-- `executeSingleJob`; it returns the process id that it stores, and what the job reads as afterwards.
unfoldable pub execute_single_job : Os → CString → Process (ℤ × CString)
unfolding open_redirection run_pipeline
execute_single_job os job = do
  argv0 ← new_argv os
  redir ← lift (parse_file_direction job argv0)
  plain ← null_at redir 2
  if plain then pure tt else run error_message
  target ← lift (load redir 1)
  redir_fd ← open_redirection os target
  fd ← pure (if eqb_ℤ redir_fd (negsuc 0) then pos 1 else redir_fd)
  if has_byte (cut (char b'>') job) b'|'
      then (do
        pid ← run_pipeline os fd (cut (char b'>') job)
        pure (pid, cut_first (char b'|') (cut (char b'>') job)))
      else (do
        arg ← lift (load redir 0)
        cmd ← lift (string_of arg)
        pid ← execute_atomic_command os fd cmd none none
        pure (pid, cut_first (char b'>') job))
