-- ===== src/Shell/Parser.antt =====
-- p2/parser.c. `strtok` keeps the rest of the string in a static variable, which is passed on here; it ends
-- a token in place.
pub mod Tokens
pub mod Laws
pub mod Whole
use sp.Base.{
  ℕ, zero, suc, ◌+◌, Bool, true, false, Option, none, some, List, [], ◌∷◌, ◌++◌, if◌then◌else◌,
  length, Outcome, ok, hang, ◌>>=◌, Array, store, CString, has_byte,
}
use sp.Shell.Process.{Arg, null, text}

abbrev pub Argv : Type 0
Argv = Array Arg

abbrev pub blanks : CString
blanks = b' ' ∷ b'\t' ∷ b'\n' ∷ []

abbrev pub char : ℕ → CString
char c = c ∷ []

-- The delimiters at the front of a string, and what follows them.
unfoldable pub lead : CString → CString → CString
lead delims [] = []
lead delims (c ∷ s) = if has_byte delims c then c ∷ lead delims s else []

unfoldable pub skip : CString → CString → CString
skip delims [] = []
skip delims (c ∷ s) = if has_byte delims c then skip delims s else c ∷ s

-- The bytes up to the next delimiter, and the string behind that.
unfoldable pub token : CString → CString → CString
token delims [] = []
token delims (c ∷ s) = if has_byte delims c then [] else c ∷ token delims s

unfoldable pub rest : CString → CString → CString
rest delims [] = []
rest delims (c ∷ s) = if has_byte delims c then s else rest delims s

-- The library's `strtok`: the next token and the rest, or null.
unfoldable pub strtok : CString → CString → Option (CString × CString)
unfolding skip token rest
strtok delims s = elim (skip delims s) [
  | [] ↦ none
  | c ∷ t ↦ some (token delims (c ∷ t), rest delims (c ∷ t))
]

-- What the buffer reads as, from its start, after the first call of `strtok`.
unfoldable pub cut : CString → CString → CString
unfolding lead skip token
cut delims s = lead delims s ++ token delims (skip delims s)

-- The loop that fills an argument vector, with a round for each byte and one more.
unfoldable pub parse_loop : ℕ → CString → CString → Argv → ℕ → Outcome Argv
unfolding strtok
parse_loop zero delims s argv i = hang
parse_loop (suc n) delims s argv i = elim (strtok delims s) [
  | none ↦ store argv i null
  | some (t, s') ↦ store argv i (text t) >>= λ argv'. parse_loop n delims s' argv' (suc i)
]

abbrev pub parse_sequential_commands : CString → Argv → Outcome Argv
parse_sequential_commands s argv = parse_loop (suc (length s)) (char b';') s argv 0

abbrev pub parse_parallel_commands : CString → Argv → Outcome Argv
parse_parallel_commands s argv = parse_loop (suc (length s)) (char b'+') s argv 0

abbrev pub parse_single_command : CString → Argv → Outcome Argv
parse_single_command s argv = parse_loop (suc (length s)) blanks s argv 0

abbrev pub parse_file_direction : CString → Argv → Outcome Argv
parse_file_direction s argv = parse_loop (suc (length s)) (char b'>') s argv 0

-- `count` is `pipe_num + 1`.
unfoldable pub pipe_loop : ℕ → CString → Argv → ℕ → ℕ → Outcome (ℕ × Argv)
unfolding strtok
pipe_loop zero s argv i count = hang
pipe_loop (suc n) s argv i count = elim (strtok (char b'|') s) [
  | none ↦ store argv i null >>= λ argv'. ok (count, argv')
  | some (t, s') ↦ store argv i (text t) >>= λ argv'. pipe_loop n s' argv' (suc i) (count + 1)
]

-- The number of commands, which is one more than the number of pipes that `parsePipe` returns.
unfoldable pub parse_pipe : CString → Argv → Outcome (ℕ × Argv)
unfolding pipe_loop
parse_pipe s argv = pipe_loop (suc (length s)) s argv 0 0
