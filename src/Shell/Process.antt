-- ===== src/Shell/Process.antt =====
-- p2: a process of the shell. It makes system calls; what a call returns is up to the operating system and
-- may depend on every call so far. `fork` returns in both processes: an answer of 0 is the child's.
use sp.Base.{ℕ, Option, List, ◌∷◌, ℤ, Outcome, ok, exit, fault, hang, CString, Array}

-- A cell of an argument vector: a null pointer, a string, or whatever an uninitialised cell holds.
pub data Arg : Type 0 where
  null wild : Arg
  text : CString → Arg

pub data Call : Type 0 where
  fork wait_any pipe getcwd perror error_message prompt : Call
  waitpid : ℤ → Call
  sleep : ℕ → Call
  open_file : CString → Call
  close : ℕ → Call
  dup2 : ℕ → ℕ → Call
  chdir : Option CString → Call
  write_out : CString → Call
  execvp : Array Arg → Call

-- The calls so far, the last one first.
abbrev pub History : Type 0
History = List Call

-- `answer` is what the last call of a history returns, `pipe_ends` the descriptors of a pipe, `cwd` what
-- `getcwd` finds, `home` the variable HOME, and `stack` what the cells of a new local array hold.
-- MAX_LENGTH, which no file of p2 defines, is a parameter too.
pub record Os : Type 0 where
  pub max_length : ℕ
  pub answer : History → ℤ
  pub pipe_ends : History → ℕ × ℕ
  pub cwd : History → Option CString
  pub home : Option CString
  pub stack : History → ℕ → Arg

-- What a run comes to: it returns, the process exits or is replaced by a program, it is undefined, or it
-- uses up its rounds.
pub data Result (A : Type 0) : Type 0 where
  returns : A → History → Result A
  exits : ℕ → History → Result A
  replaced : Array Arg → History → Result A
  crash : Result A
  loops : History → Result A

abbrev pub Process : Type 0 → Type 0
Process A = History → Result A

abbrev pub pure : {A : Type 0} → A → Process A
pure a h = returns a h

abbrev pub continue : {A B : Type 0} → Result A → (A → Process B) → Result B
continue (returns a h) f = f a h
continue (exits c h) f = exits c h
continue (replaced argv h) f = replaced argv h
continue crash f = crash
continue (loops h) f = loops h

infixl 5 ◌>>=◌ ◌>>◌
abbrev pub ◌>>=◌ : {A B : Type 0} → Process A → (A → Process B) → Process B
◌>>=◌ m f h = continue (m h) f

abbrev pub ◌>>◌ : {B : Type 0} → Process (Unit {0}) → Process B → Process B
◌>>◌ m k h = continue (m h) (λ _. k)

abbrev pub call : Os → Call → Process ℤ
call os c h = returns (os.answer (c ∷ h)) (c ∷ h)

-- A call whose answer the shell does not look at.
abbrev pub run : Call → Process (Unit {0})
run c h = returns tt (c ∷ h)

abbrev pub exit_process : {A : Type 0} → ℕ → Process A
exit_process c h = exits c h

abbrev pub undefined : {A : Type 0} → Process A
undefined h = crash

-- Code that makes no calls.
abbrev pub lift : {A : Type 0} → Outcome A → Process A
lift (ok a) h = returns a h
lift (exit c) h = exits c h
lift fault h = crash
lift hang h = loops h
