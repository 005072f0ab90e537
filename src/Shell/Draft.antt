-- ===== src/Shell/Draft.antt =====
-- p2/mysh.c: the first draft of the shell, a program of its own, which exits after one line.
-- `getCommandMode`, and the loops of its parsers, are those of basic.c and parser.c.
pub mod Runs
use sp.Base.{
  ℕ, zero, suc, Bool, true, false, Option, none, some, List, [], ◌∷◌, ◌++◌, ◌==◌, ltb,
  if◌then◌else◌, length, ℤ, pos, negsuc, eqb_ℤ, Outcome, load, CString,
}
use sp.Shell.Process.{
  Arg, null, wild, text, fork, perror, error_message, prompt, waitpid, sleep, write_out, execvp,
  History, Os, Result, returns, exits, replaced, loops, Process, pure, continue, ◌>>=◌, ◌>>◌, call,
  run, exit_process, undefined, lift,
}
use sp.Shell.Parser.{Argv, char, lead, skip, token, cut, parse_loop}
use sp.Shell.Basic.{get_command_mode}

abbrev pub argv_size : ℕ
argv_size = 512

-- A new local array of 512 pointers.
abbrev pub local_argv : Os → Process Argv
local_argv os h = returns (λ i. if ltb i argv_size then some (os.stack h i) else none) h

abbrev pub gaps : CString
gaps = b' ' ∷ b'\t' ∷ []

-- "waiting for child process to terminate : "
abbrev pub waiting : CString
waiting =
    b'w' ∷ b'a' ∷ b'i' ∷ b't' ∷ b'i' ∷ b'n' ∷ b'g' ∷ b' ' ∷ b'f' ∷ b'o' ∷ b'r' ∷ b' ' ∷ b'c' ∷ b'h'
    ∷ b'i' ∷ b'l' ∷ b'd' ∷ b' ' ∷ b'p' ∷ b'r' ∷ b'o' ∷ b'c' ∷ b'e' ∷ b's' ∷ b's' ∷ b' ' ∷ b't'
    ∷ b'o' ∷ b' ' ∷ b't' ∷ b'e' ∷ b'r' ∷ b'm' ∷ b'i' ∷ b'n' ∷ b'a' ∷ b't' ∷ b'e' ∷ b' ' ∷ b':'
    ∷ b' ' ∷ []

-- The parsers: the pieces between delimiters.
abbrev pub parse_draft : CString → CString → Argv → Outcome Argv
parse_draft delims s argv = parse_loop (suc (length s)) delims s argv 0

-- `execvp` returns only where it fails; then the child exits with status 0.
unfoldable pub exec_or_exit : Os → Argv → Process ℤ
exec_or_exit os argv h =
    if eqb_ℤ (os.answer (execvp argv ∷ sleep 5 ∷ h)) (negsuc 0)
    then exits 0 (execvp argv ∷ sleep 5 ∷ h)
    else replaced argv (execvp argv ∷ sleep 5 ∷ h)

-- `executeSingleCommand`; what it prints names the command as the parser left it.
unfoldable pub execute_single_command : Os → CString → Process ℤ
unfolding parse_loop exec_or_exit cut
execute_single_command os sgl_cmd = do
  argv0 ← local_argv os
  argv ← lift (parse_draft gaps sgl_cmd argv0)
  pid ← call os fork
  if eqb_ℤ pid (negsuc 0)
      then run perror >> exit_process 1
      else if eqb_ℤ pid (pos 0)
      then exec_or_exit os argv
      else (do run (write_out (waiting ++ cut gaps sgl_cmd ++ char b'\n')); call os (waitpid pid))

-- The loop over the commands of a sequential line; `decimal` is the `%d` of `fprintf`.
unfoldable pub commands_loop : (ℤ → CString) → ℕ → Os → Argv → ℕ → Process (Unit {0})
unfolding execute_single_command
commands_loop decimal zero os argv cmd_num = λ h. loops h
commands_loop decimal (suc n) os argv cmd_num = do
  arg ← lift (load argv cmd_num)
  elim arg [
    | null ↦ pure tt
    | wild ↦ undefined
    | text cmd ↦ (do
      child_pid ← execute_single_command os cmd
      run (write_out (decimal child_pid ++ char b'\n'))
      commands_loop decimal n os argv (suc cmd_num))
  ]

-- What the line reads as where its first piece was parsed too.
unfoldable pub cut_twice : CString → CString
cut_twice s = lead (char b';') s ++ cut gaps (token (char b';') (skip (char b';') s))

-- What is parsed at the end; nothing comes of it.
unfoldable pub parse_last : CString → Argv → Process (Unit {0})
unfolding parse_loop
parse_last s argv = do last ← lift (parse_draft gaps s argv); exit_process 0

-- The part of `main` for each mode.
unfoldable pub run_mode : (ℤ → CString) → ℕ → Os → CString → Argv → ℕ → Process (Unit {0})
unfolding commands_loop cut_twice parse_last cut
run_mode decimal n os cmd_line argv mode_code =
    if mode_code == 3
    then run error_message >> exit_process 1
    else (if mode_code == 1
        then (do
          parsed ← lift (parse_draft (char b';') cmd_line argv)
          commands_loop decimal n os parsed 0
          parse_last (cut_twice cmd_line) parsed)
        else (if mode_code == 2
            then (do
              parsed ← lift (parse_draft (char b'+') cmd_line argv)
              parse_last (cut (char b'+') cmd_line) parsed)
            else parse_last cmd_line argv))

-- `main`, on what `fgets` leaves in the buffer, with rounds for its inner loop.
unfoldable pub main : (ℤ → CString) → ℕ → Os → CString → Process (Unit {0})
unfolding run_mode get_command_mode
main decimal n os input = do
  argv ← local_argv os
  run prompt
  run_mode decimal n os (cut (char b'\n') input) argv (get_command_mode (cut (char b'\n') input))
