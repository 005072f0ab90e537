-- ===== src/Shell/Examples.antt =====
-- p2: the theorems at concrete inputs.
use sp.Base.{
  ℕ, ◌≡◌, refl, none, [], ◌∷◌, calloc, Room-calloc, arith, ℤ, pos, ◌++◌, Written, CString, has_byte,
  same_string,
}
use sp.Shell.Process.{prompt, null, fork, pipe, close, waitpid, Os, returns, crash}
use sp.Shell.Parser.{Argv, char, cut, parse_loop}
use sp.Shell.Parser.Tokens.{split, tokens}
use sp.Shell.Parser.Laws.{args_of, parse_tokens}
use sp.Shell.Basic.{is_built_in, is_empty_line, strspn}
use sp.Shell.Single.{execute_single_job, run_pipeline}
use sp.Shell.Single.Child.{Ends, execute_single_job-Leaves}
use sp.Shell.Single.Jobs.{Plain}
use sp.Shell.Single.Pipes.{run_pipeline_lem}
use sp.Shell.Line.{execute_current_line}
use sp.Shell.Line.Sequential.{execute_sequential}
use sp.Shell.Line.Parallel.{execute_parallel}
use sp.Shell.Draft.{main}
use sp.Shell.Draft.Runs.{done, draft_main_lem}
use sp.Shell.Line.Faults.{blank_line_crash}

-- Every call answers with the same number.
abbrev answering : ℤ → Os
answering r = record {
  max_length = 512;
  answer = λ h. r;
  pipe_ends = λ h. (3, 4);
  cwd = λ h. none;
  home = none;
  stack = λ h i. null;
}

abbrev cells : ℕ → Argv
cells n = calloc n null

-- "ls", and the lines "ls;ls", "ls+ls" and "ls|ls".
abbrev ls : CString
ls = b'l' ∷ b's' ∷ []

abbrev two_jobs : ℕ → CString
two_jobs d = b'l' ∷ b's' ∷ d ∷ b'l' ∷ b's' ∷ []

ls-Plain : Plain (answering (pos 7)) ls
unfolding split has_byte is_built_in same_string
ls-Plain = record {
  no_output = refl;
  no_pipe = refl;
  name = ls;
  args = [];
  words = refl;
  program = refl;
  fits = omega arith;
}

parse_tokens_example :
    Written
      (cells 6)
      0
      (args_of (tokens (char b';') (two_jobs b';')))
      (parse_loop 6 (char b';') (two_jobs b';') (cells 6) 0)
parse_tokens_example =
    parse_tokens (char b';') (two_jobs b';') (cells 6) 6 (Room-calloc 6 0 6 null (omega arith))
      (omega arith) (omega arith)

execute_single_job-Leaves_example : Ends (execute_single_job (answering (pos 0)) ls [])
execute_single_job-Leaves_example = execute_single_job-Leaves (answering (pos 0)) ls (λ h. refl) []

execute_sequential_example :
    execute_current_line 7 (answering (pos 7)) (two_jobs b';') []
    ≡ returns tt (waitpid (pos 7) ∷ fork ∷ waitpid (pos 7) ∷ fork ∷ [])
unfolding split has_byte
execute_sequential_example =
    execute_sequential 7 (answering (pos 7)) (two_jobs b';') [] (omega arith) (λ h. (6, refl)) refl
      (omega arith) (ls-Plain, (ls-Plain, tt)) (omega arith)

execute_parallel_example :
    execute_current_line 7 (answering (pos 7)) (two_jobs b'+') []
    ≡ returns tt (waitpid (pos 7) ∷ waitpid (pos 7) ∷ fork ∷ fork ∷ [])
unfolding split has_byte
execute_parallel_example =
    execute_parallel 7 (answering (pos 7)) (two_jobs b'+') [] (omega arith) (λ h. (6, refl)) refl
      refl (omega arith) (ls-Plain, (ls-Plain, tt)) (omega arith)

blank_line_crash_example : execute_current_line 5 (answering (pos 7)) (b' ' ∷ []) [] ≡ crash
unfolding is_empty_line strspn has_byte
blank_line_crash_example =
    blank_line_crash 4 (answering (pos 7)) b' ' [] [] (omega arith) refl (omega arith)

run_pipeline_lem_example :
    run_pipeline (answering (pos 7)) (pos 1) (two_jobs b'|') []
    ≡ returns
        (pos 7)
        (waitpid (pos 7) ∷ close 4 ∷ close 3 ∷ fork ∷ waitpid (pos 7) ∷ fork ∷ pipe ∷ fork ∷ [])
unfolding split has_byte
run_pipeline_lem_example =
    run_pipeline_lem (answering (pos 7)) (pos 1) (two_jobs b'|') [] (omega arith) (λ h. (6, refl))
      (λ h. refl) (omega arith) (ls-Plain, (ls-Plain, tt))

-- "ls;ls" and a newline, where `%d` prints nothing but a 7.
abbrev input : CString
input = two_jobs b';' ++ char b'\n'

abbrev seven : ℤ → CString
seven z = char b'7'

draft_main_lem_example :
    main seven 8 (answering (pos 7)) input []
    ≡ done seven (answering (pos 7)) (cut (char b'\n') input) (prompt ∷ [])
draft_main_lem_example =
    draft_main_lem seven 8 (answering (pos 7)) input [] (λ h. (6, refl)) (omega arith) (omega arith)
