-- ===== src/Shell/Parser/Laws.antt =====
-- p2/parser.c: the argument vectors hold the tokens of the line and a null pointer.
use sp.Base.{
  ℕ, zero, suc, ◌+◌, ◌≤◌, ◌<◌, ◌≡◌, ◌∙◌, refl, ap, subst, Option, none, some, List, [], ◌∷◌, length,
  arith, CString, Outcome, ok, fault, ◌>>=◌, store, update, store_lem, Room, Room-update, Written,
  Written-cons, Written-nil, Holds,
}
use sp.Shell.Process.{Arg, null, text}
use sp.Shell.Parser.{Argv, char, strtok, parse_loop, pipe_loop, parse_pipe}
use sp.Shell.Parser.Tokens.{tokens, Next, finished, next, strtok_lem, length-tokens}

-- An argument vector of these strings.
abbrev pub args_of : List CString → List Arg
args_of [] = null ∷ []
args_of (t ∷ ts) = text t ∷ args_of ts

abbrev Fills : (ℕ → CString → Argv → ℕ → Outcome Argv) → ℕ → CString → Type 0
Fills loop n delims =
    (s : CString) (argv : Argv) (i : ℕ)
    → length s < n
    → Room argv i (suc (length (tokens delims s)))
    → Written argv i (args_of (tokens delims s)) (loop n s argv i)

-- One round, where `strtok` returns `o` and the later rounds do as they should.
parse_round :
    (n : ℕ) (delims s : CString) (argv : Argv) (i : ℕ) (o : Option (CString × CString))
    → Next delims s o
    → Fills (λ n. parse_loop n delims) n delims
    → length s < suc n
    → Room argv i (suc (length (tokens delims s)))
    → Written argv i (args_of (tokens delims s)) (elim o [
      | none ↦ store argv i null
      | some (t, s') ↦ store argv i (text t) >>= λ argv'. parse_loop n delims s' argv' (suc i)
    ])
parse_round n delims s argv i o (finished e) ih lt room =
    let ((x, there), _) = room in
    rw (e, store_lem argv i null there) (Written-cons argv i null [] _ (Written-nil _ _))
parse_round n delims s argv i o (next t s' e f) ih lt room =
    let ((x, there), left) = subst (λ ts. Room argv i (suc (length ts))) e room in
    rw (e, store_lem argv i (text t) there)
      (Written-cons argv i (text t) _ _ (
        ih s' (update argv i (text t)) (suc i) (omega arith)
          (Room-update argv (suc i) (suc (length (tokens delims s'))) i (text t) left)))

pub parse_loop_lem : (n : ℕ) (delims : CString) → Fills (λ n. parse_loop n delims) n delims
unfolding parse_loop
parse_loop_lem zero delims s argv i lt room = absurd (omega arith)
parse_loop_lem (suc n) delims s argv i lt room =
    parse_round n delims s argv i (strtok delims s) (strtok_lem delims s) (parse_loop_lem n delims)
      lt room

abbrev counted : ℕ → Argv → Outcome (ℕ × Argv)
counted count argv = ok (count, argv)

-- `parsePipe` fills its vector as the other parsers do, and counts the commands.
pipe_round :
    (n : ℕ) (s : CString) (argv : Argv) (i count : ℕ) (o : Option (CString × CString))
    → Next (char b'|') s o
    → ((s' : CString) (argv' : Argv) (i' count' : ℕ)
        → pipe_loop n s' argv' i' count' ≡ (
            parse_loop n (char b'|') s' argv' i'
            >>= counted (count' + length (tokens (char b'|') s'))))
    → elim o [
      | none ↦ store argv i null >>= counted (count)
      | some (t, s') ↦ store argv i (text t) >>= λ a. pipe_loop n s' a (suc i) (count + 1)
    ]
      ≡ (elim o [
        | none ↦ store argv i null
        | some (t, s') ↦ store argv i (text t) >>= λ a. parse_loop n (char b'|') s' a (suc i)
      ]
          >>= counted (count + length (tokens (char b'|') s)))
pipe_round n s argv i count o (finished e) ih =
    rw e (ap (λ c. store argv i null >>= counted (c)) (omega arith))
pipe_round n s argv i count o (next t s' e f) ih = rw e (stored (argv i))
  where
    more :
        (argv' : Argv)
        → pipe_loop n s' argv' (suc i) (count + 1) ≡ (
            parse_loop n (char b'|') s' argv' (suc i)
            >>= counted (count + suc (length (tokens (char b'|') s'))))
    more argv' =
        ih s' argv' (suc i) (count + 1)
        ∙ ap (λ c. parse_loop n (char b'|') s' argv' (suc i) >>= counted (c)) (omega arith)

    stored :
        (cell : Option Arg)
        → (elim cell [ none ↦ fault | some _ ↦ ok (update argv i (text t)) ] >>= λ a.
            pipe_loop n s' a (suc i) (count + 1))
          ≡ (elim cell [ none ↦ fault | some _ ↦ ok (update argv i (text t)) ]
              >>= (λ a. parse_loop n (char b'|') s' a (suc i))
              >>= counted (count + suc (length (tokens (char b'|') s'))))
    stored none = refl
    stored (some x) = more (update argv i (text t))

pub pipe_loop_lem :
    (n : ℕ) (s : CString) (argv : Argv) (i count : ℕ)
    → pipe_loop n s argv i count
      ≡ (parse_loop n (char b'|') s argv i >>= counted (count + length (tokens (char b'|') s)))
unfolding parse_loop pipe_loop
pipe_loop_lem zero s argv i count = refl
pipe_loop_lem (suc n) s argv i count =
    pipe_round n s argv i count (strtok (char b'|') s) (strtok_lem (char b'|') s)
      (λ s' a i' c. pipe_loop_lem n s' a i' c)

Room-shorter : (argv : Argv) (i m n : ℕ) → m ≤ n → Room argv i n → Room argv i m
Room-shorter argv i zero n le r = tt
Room-shorter argv i (suc m) zero le r = absurd (omega arith)
Room-shorter argv i (suc m) (suc n) le r = (r.0, Room-shorter argv (suc i) m n (omega arith) r.1)

-- In a vector with at least two cells and more cells than the string has bytes, the loop of the
-- parsers ends, and it writes the pieces between the delimiters that are not empty, in order, and a
-- null pointer, all inside the vector, and nothing else.
pub parse_tokens :
    (delims s : CString) (argv : Argv) (cap : ℕ)
    → Room argv 0 cap
    → length s < cap
    → 2 ≤ cap
    → Written argv 0 (args_of (tokens delims s)) (parse_loop (suc (length s)) delims s argv 0)
parse_tokens delims s argv cap room lt two =
    parse_loop_lem (suc (length s)) delims s argv 0 (omega arith) (
      Room-shorter argv 0 (suc (length (tokens delims s))) cap
        (omega (arith, length-tokens delims s)) room)

-- In a vector with at least two cells and more cells than the string has bytes, `parsePipe` ends,
-- counts the pieces between the bars that are not empty, less one, and the vector holds them in
-- order, and a null pointer.
pub parse_pipe_lem :
    (s : CString) (argv : Argv) (cap : ℕ)
    → Room argv 0 cap
    → length s < cap
    → 2 ≤ cap
    → (argv' : Argv) × (parse_pipe s argv ≡ ok (length (tokens (char b'|') s), argv'))
      × Holds argv' 0 (args_of (tokens (char b'|') s))
unfolding parse_pipe
parse_pipe_lem s argv cap room lt two =
    let w = parse_tokens (char b'|') s argv cap room lt two in
    (
      w.final,
      pipe_loop_lem (suc (length s)) s argv 0 0
          ∙ rw w.returns (ap (λ c. counted c w.final) (omega arith)),
      w.holds,
    )
