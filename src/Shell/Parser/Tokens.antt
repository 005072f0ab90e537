-- ===== src/Shell/Parser/Tokens.antt =====
-- p2/parser.c: what `strtok` finds, against the pieces between the delimiters.
use sp.Base.{
  ℕ, suc, ◌+◌, ◌*◌, ◌≤◌, ◌<◌, ◌≡◌, ◌∙◌, refl, sym, ap, false, Option, none, some, List, [], ◌∷◌,
  if◌then◌else◌, length, keep, arith, CString, has_byte, is_nonempty, List-cases, Bool-cases, inl,
  inr,
}
use sp.Shell.Parser.{skip, token, rest, strtok}

abbrev pub to_first : ℕ → List CString → List CString
to_first c [] = []
to_first c (p ∷ ps) = (c ∷ p) ∷ ps

-- The pieces between the delimiters, empty ones included.
unfoldable pub split : CString → CString → List CString
split delims [] = [] ∷ []
split delims (c ∷ s) =
    if has_byte delims c then [] ∷ split delims s else to_first c (split delims s)

-- The pieces that are not empty.
abbrev pub tokens : CString → CString → List CString
tokens delims s = keep is_nonempty (split delims s)

-- The first piece is the token, and the others make the tokens of the rest.
split_first :
    (delims s : CString)
    → (ps : List CString) × (split delims s ≡ token delims s ∷ ps)
      × (keep is_nonempty ps ≡ tokens delims (rest delims s))
unfolding split token rest
split_first delims [] = ([], refl, refl)
split_first delims (c ∷ s) = elim (Bool-cases (has_byte delims c)) [
  | inl end ↦ (split delims s, rw end refl, rw end refl)
  | inr more ↦ let (ps, e, f) = split_first delims s in (ps, rw (more, e) refl, rw more f)
]

tokens-skip : (delims s : CString) → tokens delims (skip delims s) ≡ tokens delims s
unfolding split skip
tokens-skip delims [] = refl
tokens-skip delims (c ∷ s) = ground (arith, tokens-skip delims s)

length-rest : (delims s : CString) → length (rest delims s) ≤ length s
unfolding rest
length-rest delims [] = omega arith
length-rest delims (c ∷ s) = ground (arith, length-rest delims s)

length-skip : (delims s : CString) → length (skip delims s) ≤ length s
unfolding skip
length-skip delims [] = omega arith
length-skip delims (c ∷ s) = ground (arith, length-skip delims s)

skip-Starts :
    (delims s : CString) (c : ℕ) (t : CString) → skip delims s ≡ c ∷ t → has_byte delims c ≡ false
unfolding skip
skip-Starts delims [] c t e = cc
skip-Starts delims (d ∷ s) c t e = ground (arith, skip-Starts delims s c t)

-- What `strtok` returns: null where there is no token, or else the first one, and the string of the others.
pub data Next (delims s : CString) : Option (CString × CString) → Type 0 where
  finished : tokens delims s ≡ [] → Next delims s none
  next :
      (t s' : CString)
      → tokens delims s ≡ t ∷ tokens delims s'
      → length s' < length s
      → Next delims s (some (t, s'))

strtok_token :
    (delims s : CString) (c : ℕ) (t : CString)
    → skip delims s ≡ c ∷ t
    → tokens delims s ≡ token delims (c ∷ t) ∷ tokens delims (rest delims (c ∷ t))
unfolding token
strtok_token delims s c t e =
    let (ps, first, others) = split_first delims (c ∷ t) in
    let starts = skip-Starts delims s c t e in
    sym (tokens-skip delims s)
    ∙ ap (tokens delims) e
    ∙ ap (keep is_nonempty) first
    ∙ ground (arith, starts, others)

strtok_length :
    (delims s : CString) (c : ℕ) (t : CString)
    → skip delims s ≡ c ∷ t
    → length (rest delims (c ∷ t)) < length s
unfolding rest
strtok_length delims s c t e =
    ground
      (arith, skip-Starts delims s c t e, ap length e, length-skip delims s, length-rest delims t)

pub strtok_lem : (delims s : CString) → Next delims s (strtok delims s)
unfolding strtok
strtok_lem delims s = elim (List-cases (skip delims s)) [
  | inl none_left ↦
      rw (none_left, strtok)
        (finished
          (sym (tokens-skip delims s) ∙ ap (tokens delims) none_left ∙ unfold split in refl))
  | inr (c, t, e) ↦
      rw (e, strtok)
        (next (token delims (c ∷ t)) (rest delims (c ∷ t)) (strtok_token delims s c t e)
          (strtok_length delims s c t e))
]

-- Each token takes a byte, and a delimiter parts it from the next one.
split_bound :
    (delims s : CString)
    → (p : CString) × (ps : List CString) × (split delims s ≡ p ∷ ps)
      × (length p + length (keep is_nonempty ps) * 2 ≤ length s)
unfolding split
split_bound delims [] = ([], [], refl, omega arith)
split_bound delims (c ∷ s) =
    let (p, ps, e, f) = split_bound delims s in
    elim (Bool-cases (has_byte delims c)) [
      | inl end ↦ ([], split delims s, rw end refl, rw e (bound p ps f))
      | inr more ↦ (c ∷ p, ps, rw (more, e) refl, omega (arith, f))
    ]
  where
    bound :
        (p : CString) (ps : List CString)
        → length p + length (keep is_nonempty ps) * 2 ≤ length s
        → 0 + length (keep is_nonempty (p ∷ ps)) * 2 ≤ suc (length s)
    bound [] ps f = omega (arith, f)
    bound (x ∷ p) ps f = omega (arith, f)

pub length-tokens : (delims s : CString) → length (tokens delims s) * 2 ≤ length s + 1
length-tokens delims s = let (p, ps, e, f) = split_bound delims s in rw e (bound p ps f)
  where
    bound :
        (p : CString) (ps : List CString)
        → length p + length (keep is_nonempty ps) * 2 ≤ length s
        → length (keep is_nonempty (p ∷ ps)) * 2 ≤ length s + 1
    bound [] ps f = omega (arith, f)
    bound (x ∷ p) ps f = omega (arith, f)
