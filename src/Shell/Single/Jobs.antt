-- ===== src/Shell/Single/Jobs.antt =====
-- p2/single.c: jobs without pipes and redirection, in the shell's own process.
use sp.Base.{
  ℕ, zero, suc, ◌+◌, ◌≤◌, ◌<◌, ◌≡◌, ◌∙◌, refl, ap, subst, Bool, true, false, Option, none, some,
  List, [], ◌∷◌, ltb, if◌then◌else◌, length, arith, lt→ltb, ℤ, pos, negsuc, eqb_ℤ, ltb_ℤ, CString,
  has_byte, Room, Written, Holds, inr,
}
use sp.Shell.Process.{
  null, text, fork, error_message, History, Os, returns, Process, pure, continue, ◌>>=◌, run,
}
use sp.Shell.Parser.{Argv, char, blanks, parse_loop}
use sp.Shell.Parser.Tokens.{split, tokens}
use sp.Shell.Parser.Laws.{args_of, parse_tokens}
use sp.Shell.Parser.Whole.{tokens_whole, cut_whole}
use sp.Shell.Basic.{is_built_in, string_of, command_name}
use sp.Shell.Single.{
  Pipe, is_null, cut_first, spawn, open_redirection, execute_atomic_command, execute_single_job,
}

-- A new local array.
abbrev pub fresh : Os → History → Argv
fresh os h i = if ltb i os.max_length then some (os.stack h i) else none

pub Room-fresh : (os : Os) (h : History) (i n : ℕ) → i + n ≤ os.max_length → Room (fresh os h) i n
Room-fresh os h i zero le = tt
Room-fresh os h i (suc n) le = (
  (os.stack h i, rw (lt→ltb i os.max_length (omega arith)) refl),
  Room-fresh os h (suc i) n (omega arith),
)

-- The vector of the tokens of a string that fits.
pub parse_fresh :
    (os : Os) (h : History) (delims s : CString)
    → length s < os.max_length
    → 2 ≤ os.max_length
    → Written
        (fresh os h)
        0
        (args_of (tokens delims s))
        (parse_loop (suc (length s)) delims s (fresh os h) 0)
parse_fresh os h delims s lt two =
    parse_tokens delims s (fresh os h) os.max_length (Room-fresh os h 0 os.max_length (omega arith))
      lt two

-- A job of one command that is no built-in, without pipes and redirection.
pub record Plain (os : Os) (job : CString) : Type 0 where
  pub no_output : has_byte job b'>' ≡ false
  pub no_pipe : has_byte job b'|' ≡ false
  pub name : CString
  pub args : List CString
  pub words : tokens blanks job ≡ name ∷ args
  pub program : is_built_in name ≡ false
  pub fits : length job < os.max_length

-- Every `fork` answers with a process id, as it does in the parent.
abbrev pub InParent : Os → Type 0
InParent os = (h : History) → (p : ℕ) × (os.answer (fork ∷ h) ≡ pos (suc p))

pub is_parent : (p : ℕ) → eqb_ℤ (pos (suc p)) (pos 0) ≡ false
is_parent p = ground arith

pub is_above_0 : (p : ℕ) → ltb_ℤ (pos 0) (pos (suc p)) ≡ true
is_above_0 p = ground arith

did_fork : (p : ℕ) → eqb_ℤ (pos (suc p)) (negsuc 0) ≡ false
did_fork p = ground arith

pub atomic-runs :
    (os : Os) (fd : ℤ) (job : CString) (prev next : Option Pipe) (h : History) (p : ℕ)
    → 2 ≤ os.max_length
    → Plain os job
    → os.answer (fork ∷ h) ≡ pos (suc p)
    → execute_atomic_command os fd job prev next h ≡ returns (pos (suc p)) (fork ∷ h)
unfolding execute_atomic_command command_name string_of spawn
atomic-runs os fd job prev next h p two plain forked =
    let w = parse_fresh os h blanks job plain.fits two in
    let cells : Holds w.final 0 (text plain.name ∷ args_of plain.args) =
      subst (λ ts. Holds w.final 0 (args_of ts)) plain.words w.holds in
    rw
      (
        lt→ltb (length job) os.max_length plain.fits,
        w.returns,
        cells.0,
        plain.program,
        forked,
        is_parent p,
        did_fork p,
      )
      refl

-- Where `file_redir_argv[2]` was not written, what it holds decides whether the error message is written.
abbrev pub after_check : Os → History → History
after_check os h = if is_null (os.stack h 2) then h else error_message ∷ h

pub complain_lem :
    {A : Type 0} (b : Bool) (h : History) (f : Unit {0} → Process A)
    → continue ((if b then pure tt else run error_message) h) f
      ≡ f tt (if b then h else error_message ∷ h)
complain_lem true h f = refl
complain_lem false h f = refl

-- A job that is one piece, up to the run of its command.
pub job-checks :
    (os : Os) (c : ℕ) (s : CString) (h : History)
    → 3 ≤ os.max_length
    → has_byte (c ∷ s) b'>' ≡ false
    → has_byte (c ∷ s) b'|' ≡ false
    → length (c ∷ s) < os.max_length
    → execute_single_job os (c ∷ s) h
      ≡ (execute_atomic_command os (pos 1) (c ∷ s) none none >>= λ pid.
            pure (pid, cut_first (char b'>') (c ∷ s)))
          (after_check os h)
unfolding execute_single_job string_of open_redirection
job-checks os c s h three no_output no_pipe fits =
    let w = parse_fresh os h (char b'>') (c ∷ s) fits (omega arith) in
    let ts = tokens_whole b'>' c s no_output in
    let cells : Holds w.final 0 (text (c ∷ s) ∷ null ∷ []) =
      subst (λ ts. Holds w.final 0 (args_of ts)) ts w.holds in
    let third : w.final 2 ≡ some (os.stack h 2) =
      w.outside 2 (inr (rw ts (omega arith))) ∙ rw (lt→ltb 2 os.max_length (omega arith)) refl in
    rw
      (
        w.returns,
        third,
        complain_lem (is_null (os.stack h 2)) h,
        cells.1.0,
        cut_whole b'>' (c ∷ s) no_output,
        no_pipe,
        cells.0,
      )
      refl

-- A plain job becomes one child; the caller gets its process id and the job, cut at its first `>`.
pub execute_single_job_lem :
    (os : Os) (job : CString) (h : History) (p : ℕ)
    → 3 ≤ os.max_length
    → Plain os job
    → os.answer (fork ∷ after_check os h) ≡ pos (suc p)
    → execute_single_job os job h
      ≡ returns (pos (suc p), cut_first (char b'>') job) (fork ∷ after_check os h)
execute_single_job_lem os [] h p three plain forked = absurd (no_words plain.words)
  where
    no_words : {name : CString} {args : List CString} → tokens blanks [] ≡ name ∷ args → ⊥
    no_words e = unfold split in cc e
execute_single_job_lem os (c ∷ s) h p three plain forked =
    job-checks os c s h three plain.no_output plain.no_pipe plain.fits
    ∙ ap (λ r. continue r (λ pid. pure (pid, cut_first (char b'>') (c ∷ s))))
        (atomic-runs os (pos 1) (c ∷ s) none none (after_check os h) p (omega arith) plain forked)
