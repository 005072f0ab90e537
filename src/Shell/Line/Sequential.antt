-- ===== src/Shell/Line/Sequential.antt =====
-- p2/shell.c: the sequential mode runs one job after the other.
use sp.Base.{
  ℕ, zero, suc, ◌+◌, ◌≤◌, ◌<◌, ◌≡◌, ◌∙◌, refl, sym, ap, true, false, Option, List, [], ◌∷◌, leb,
  length, arith, lt→ltb, pos, ok, store_lem, update, update_miss, CString, has_byte, Holds,
  Holds-agree, Room-Holds, All, inr,
}
use sp.Shell.Process.{text, fork, waitpid, History, Os, returns}
use sp.Shell.Parser.{Argv, char, blanks, parse_loop}
use sp.Shell.Parser.Tokens.{tokens, length-tokens}
use sp.Shell.Parser.Laws.{args_of, parse_tokens}
use sp.Shell.Basic.{get_command_mode, get_command_mode_lem}
use sp.Shell.Single.{cut_first}
use sp.Shell.Single.Jobs.{
  fresh, Room-fresh, parse_fresh, Plain, InParent, is_above_0, after_check, execute_single_job_lem,
}
use sp.Shell.Line.{sequential_loop, execute_current_line}

-- The calls of jobs that run one after the other: each is waited for before the next one is started.
abbrev pub ran : Os → List CString → History → History
ran os [] h = h
ran os (job ∷ jobs) h =
    ran os jobs (waitpid (os.answer (fork ∷ after_check os h)) ∷ fork ∷ after_check os h)

pub Holds-behind :
    {A : Type 0} (f : ℕ → Option A) (i : ℕ) (a : A) (xs : List A)
    → Holds f (suc i) xs
    → Holds (update f i a) (suc i) xs
Holds-behind f i a xs h =
    Holds-agree f (update f i a) (suc i) xs (λ j lo hi. update_miss f i j a (λ e. omega arith)) h

sequential_loop_lem :
    (n : ℕ) (os : Os) (argv : Argv) (i : ℕ) (jobs : List CString) (h : History)
    → 3 ≤ os.max_length
    → InParent os
    → All (Plain os) jobs
    → Holds argv i (args_of jobs)
    → length jobs < n
    → sequential_loop n os argv i h ≡ returns tt (ran os jobs h)
unfolding sequential_loop
sequential_loop_lem zero os argv i jobs h three forks plain cells lt = absurd (omega arith)
sequential_loop_lem (suc n) os argv i [] h three forks plain cells lt = rw (cells.0) refl
sequential_loop_lem (suc n) os argv i (job ∷ jobs) h three forks plain cells lt =
    let (p, forked) = forks (after_check os h) in
    rw
      (
        cells.0,
        execute_single_job_lem os job h p three plain.0 forked,
        store_lem argv i (text (cut_first (char b'>') job)) cells.0,
        is_above_0 p,
      )
      (sequential_loop_lem n os (update argv i (text (cut_first (char b'>') job))) (suc i) jobs
          (waitpid (pos (suc p)) ∷ fork ∷ after_check os h) three forks plain.1
          (Holds-behind argv i (text (cut_first (char b'>') job)) (args_of jobs) cells.1)
          (omega arith)
        ∙ ap (λ pid. returns tt (ran os jobs (waitpid pid ∷ fork ∷ after_check os h))) (sym forked))

-- A line that is parsed twice into one new vector: at blanks, and at the delimiter of its mode.
pub record Parsed (os : Os) (h : History) (d : ℕ) (line : CString) : Type 0 where
  pub first : Argv
  pub parses_first : parse_loop (suc (length line)) blanks line (fresh os h) 0 ≡ ok first
  pub second : Argv
  pub parses_second : parse_loop (suc (length line)) (char d) line first 0 ≡ ok second
  pub jobs : Holds second 0 (args_of (tokens (char d) line))

pub parse_line :
    (os : Os) (h : History) (d : ℕ) (line : CString)
    → length line < os.max_length
    → 2 ≤ os.max_length
    → Parsed os h d line
parse_line os h d line lt two =
    let w = parse_fresh os h blanks line lt two in
    let v =
      parse_tokens (char d) line w.final os.max_length
        (Room-Holds (fresh os h) w.final 0 os.max_length _
          (Room-fresh os h 0 os.max_length (omega arith)) w.holds (λ j le. w.outside j (inr le)))
        lt two in
    record {
      first = w.final;
      parses_first = w.returns;
      second = v.final;
      parses_second = v.returns;
      jobs = v.holds;
    }

-- The rounds that a line is given.
abbrev pub Enough : ℕ → CString → Type 0
Enough n line = length line + 1 < n

pub enough_lem : (n d : ℕ) (line : CString) → Enough n line → length (tokens (char d) line) < n
enough_lem n d line e = omega (arith, length-tokens (char d) line)

-- Where MAX_LENGTH is at least 3, every `fork` answers with a positive process id, the line is
-- shorter than MAX_LENGTH and has no `+`, its pieces between semicolons are single commands that
-- are no built-ins, without pipes and redirection, and there are more rounds than the bytes of the
-- line and one, `executeCurrentLine` returns, and its calls are, for each job in turn, the error
-- message where the third cell of a new vector is not null, a `fork`, and a `waitpid` for the
-- process id, before those of the next job.
pub execute_sequential :
    (n : ℕ) (os : Os) (line : CString) (h : History)
    → 3 ≤ os.max_length
    → InParent os
    → has_byte line b'+' ≡ false
    → length line < os.max_length
    → All (Plain os) (tokens (char b';') line)
    → Enough n line
    → execute_current_line n os line h ≡ returns tt (ran os (tokens (char b';') line) h)
unfolding execute_current_line
execute_sequential n os line h three forks no_plus lt plain enough =
    let p = parse_line os h b';' line lt (omega arith) in
    rw (lt→ltb (length line) os.max_length lt, p.parses_first, mode, p.parses_second)
      (sequential_loop_lem n os p.second 0 (tokens (char b';') line) h three forks plain p.jobs
        (enough_lem n b';' line enough))
  where
    mode : leb (get_command_mode line) 1 ≡ true
    mode = rw (get_command_mode_lem line, no_plus) (ground arith)
