-- ===== src/Shell/Line/Parallel.antt =====
-- p2/shell.c: the parallel mode starts all jobs, then waits for each.
use sp.Base.{
  ℕ, zero, suc, ◌≤◌, ◌<◌, ◌≡◌, ◌∙◌, refl, sym, ap, true, false, some, List, [], ◌∷◌, length, arith,
  lt→ltb, ℤ, pos, ltb_ℤ, store_lem, Array, update, update_hit, update_miss, CString, has_byte, Room,
  Room-update, Room-calloc, Holds, All,
}
use sp.Shell.Process.{Arg, text, fork, waitpid, History, Os, Process, returns}
use sp.Shell.Parser.{Argv, char}
use sp.Shell.Parser.Tokens.{tokens, length-tokens}
use sp.Shell.Parser.Laws.{args_of}
use sp.Shell.Basic.{get_command_mode_lem}
use sp.Shell.Single.{cut_first}
use sp.Shell.Single.Jobs.{Plain, after_check, execute_single_job_lem}
use sp.Shell.Line.{start_loop, wait_loop, new_pids, execute_current_line}
use sp.Shell.Single.Jobs.{InParent, is_above_0}
use sp.Shell.Line.Sequential.{Holds-behind, parse_line, Enough, enough_lem}

-- The calls that start the jobs, and the process ids that they get.
abbrev pub started : Os → List CString → History → History
started os [] h = h
started os (job ∷ jobs) h = started os jobs (fork ∷ after_check os h)

abbrev pub pids_of : Os → List CString → History → List ℤ
pids_of os [] h = []
pids_of os (job ∷ jobs) h =
    os.answer (fork ∷ after_check os h) ∷ pids_of os jobs (fork ∷ after_check os h)

abbrev pub waited : List ℤ → History → History
waited [] h = h
waited (pid ∷ pids) h = waited pids (waitpid pid ∷ h)

-- As many strings as there are process ids, all of which are above 0.
abbrev Matches : List CString → List ℤ → Type 0
Matches [] [] = Unit
Matches [] (pid ∷ pids) = ⊥
Matches (job ∷ jobs) [] = ⊥
Matches (job ∷ jobs) (pid ∷ pids) = (ltb_ℤ (pos 0) pid ≡ true) × Matches jobs pids

wait_loop_lem :
    (n : ℕ) (argv : Argv) (pids : Array ℤ) (i : ℕ) (jobs : List CString) (ps : List ℤ) (h : History)
    → Matches jobs ps
    → Holds argv i (args_of jobs)
    → Holds pids i ps
    → length jobs < n
    → wait_loop n argv pids i h ≡ returns tt (waited ps h)
unfolding wait_loop
wait_loop_lem zero argv pids i jobs ps h m c d lt = absurd (omega arith)
wait_loop_lem (suc n) argv pids i [] [] h m c d lt = rw (c.0) refl
wait_loop_lem (suc n) argv pids i [] (p ∷ ps) h m c d lt = elim m [ ]
wait_loop_lem (suc n) argv pids i (job ∷ jobs) [] h m c d lt = elim m [ ]
wait_loop_lem (suc n) argv pids i (job ∷ jobs) (p ∷ ps) h m c d lt =
    rw (c.0, d.0, m.0)
      (wait_loop_lem n argv pids (suc i) jobs ps (waitpid p ∷ h) m.1 c.1 d.1 (omega arith))

-- What the first loop leaves: the vector and the process ids from `i` on, and the rest as it was.
record Started (os : Os) (argv : Argv) (pids : Array ℤ) (i : ℕ) (jobs : List CString) (h : History)
    (r : Process (Argv × Array ℤ)) : Type 0 where
  argv' : Argv
  pids' : Array ℤ
  jobs' : List CString
  starts : r h ≡ returns (argv', pids') (started os jobs h)
  matches : Matches jobs' (pids_of os jobs h)
  as_many : length jobs' ≡ length jobs
  cells : Holds argv' i (args_of jobs')
  ids : Holds pids' i (pids_of os jobs h)
  before : (j : ℕ) → j < i → (argv' j ≡ argv j) × (pids' j ≡ pids j)

-- One job more in front, which got the process id `suc p`.
Started-cons :
    (n : ℕ) (os : Os) (argv : Argv) (pids : Array ℤ) (i : ℕ) (job : CString) (jobs : List CString)
    (h : History) (p : ℕ)
    → 3 ≤ os.max_length
    → Plain os job
    → os.answer (fork ∷ after_check os h) ≡ pos (suc p)
    → argv i ≡ some (text job)
    → (x : ℤ) × (pids i ≡ some x)
    → Started os
        (update argv i (text (cut_first (char b'>') job)))
        (update pids i (pos (suc p)))
        (suc i)
        jobs
        (fork ∷ after_check os h)
        (start_loop n os
          (update argv i (text (cut_first (char b'>') job)))
          (update pids i (pos (suc p)))
          (suc i))
    → Started os argv pids i (job ∷ jobs) h (start_loop (suc n) os argv pids i)
unfolding start_loop
Started-cons n os argv pids i job jobs h p three plain forked cell (x, room) s = record {
  argv' = s.argv';
  pids' = s.pids';
  jobs' = cut_first (char b'>') job ∷ s.jobs';
  starts =
      rw
        (
          cell,
          execute_single_job_lem os job h p three plain forked,
          store_lem argv i left cell,
          store_lem pids i (pos (suc p)) room,
        )
        s.starts;
  matches = (rw forked (is_above_0 p), s.matches);
  as_many = omega (arith, s.as_many);
  cells = ((s.before i (omega arith)).0 ∙ update_hit argv i left, s.cells);
  ids = (
    (s.before i (omega arith)).1 ∙ update_hit pids i (pos (suc p)) ∙ ap some (sym forked),
    s.ids,
  );
  before = λ j lt. (
    (s.before j (omega arith)).0 ∙ update_miss argv i j left (λ e. omega arith),
    (s.before j (omega arith)).1 ∙ update_miss pids i j (pos (suc p)) (λ e. omega arith),
  );
}
  where
    left : Arg
    left = text (cut_first (char b'>') job)

start_loop_lem :
    (n : ℕ) (os : Os) (argv : Argv) (pids : Array ℤ) (i : ℕ) (jobs : List CString) (h : History)
    → 3 ≤ os.max_length
    → InParent os
    → All (Plain os) jobs
    → Holds argv i (args_of jobs)
    → Room pids i (length jobs)
    → length jobs < n
    → Started os argv pids i jobs h (start_loop n os argv pids i)
unfolding start_loop
start_loop_lem zero os argv pids i jobs h three forks plain cells room lt = absurd (omega arith)
start_loop_lem (suc n) os argv pids i [] h three forks plain cells room lt = record {
  argv' = argv;
  pids' = pids;
  jobs' = [];
  starts = rw (cells.0) refl;
  matches = tt;
  as_many = refl;
  cells = cells;
  ids = tt;
  before = λ j lt. (refl, refl);
}
start_loop_lem (suc n) os argv pids i (job ∷ jobs) h three forks plain cells room lt =
    let (p, forked) = forks (after_check os h) in
    let left : Arg = text (cut_first (char b'>') job) in
    Started-cons n os argv pids i job jobs h p three plain.0 forked cells.0 room.0 (
      start_loop_lem n os (update argv i left) (update pids i (pos (suc p))) (suc i) jobs
        (fork ∷ after_check os h) three forks plain.1
        (Holds-behind argv i left (args_of jobs) cells.1)
        (Room-update pids (suc i) (length jobs) i (pos (suc p)) room.1) (omega arith))

-- Under the conditions of the sequential mode, but with a `+` in the line and no semicolon, and
-- jobs between the plus signs, `executeCurrentLine` returns; its calls first start all jobs in
-- order, each with the error message where the third cell of a new vector is not null and a `fork`,
-- and then wait for each process id in that order.
pub execute_parallel :
    (n : ℕ) (os : Os) (line : CString) (h : History)
    → 3 ≤ os.max_length
    → InParent os
    → has_byte line b'+' ≡ true
    → has_byte line b';' ≡ false
    → length line < os.max_length
    → All (Plain os) (tokens (char b'+') line)
    → Enough n line
    → execute_current_line n os line h
      ≡ returns tt
          (waited (pids_of os (tokens (char b'+') line) h) (started os (tokens (char b'+') line) h))
unfolding execute_current_line
execute_parallel n os line h three forks plus no_semicolon lt plain enough =
    let jobs = tokens (char b'+') line in
    let p = parse_line os h b'+' line lt (omega arith) in
    let s =
      start_loop_lem n os p.second (new_pids os) 0 jobs h three forks plain p.jobs
        (Room-calloc os.max_length 0 (length jobs) (pos 0)
          (omega (arith, length-tokens (char b'+') line)))
        (enough_lem n b'+' line enough) in
    rw
      (
        lt→ltb (length line) os.max_length lt,
        p.parses_first,
        get_command_mode_lem line,
        plus,
        no_semicolon,
        p.parses_second,
        s.starts,
      )
      (wait_loop_lem n s.argv' s.pids' 0 s.jobs' (pids_of os jobs h) (started os jobs h) s.matches
        s.cells s.ids (omega (arith, s.as_many, enough_lem n b'+' line enough)))
