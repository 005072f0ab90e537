-- ===== src/Search/Count/Optimal.antt =====
-- p1/search.c: the count is the largest number of matches that do not overlap.
use sp.Base.{
  ℕ, zero, suc, ◌+◌, ◌-◌, ◌≤◌, ◌<◌, ◌≡◌, ◌≢◌, ◌∙◌, refl, sym, ap, subst, inl, inr, Bool, true,
  false, none, some, [], ◌∷◌, arith, ok-injective, dec_lt, Bool-cases, Option-cases, length, drop,
  take, ◌%◌, ◌^◌, ltb, lt→ltb, Outcome, ok, hang, pos, length-drop,
}
use sp.Base.{is_prefix, strstr}
use sp.Search.Count.{Bytes, count_loop, c_string, readable, get_key_word_count}
use sp.Search.Merge.{FileProperty}

-- The loop without its `int`: `rest` is what follows the matches so far.
unfoldable match_loop : ℕ → Bytes → Bytes → ℕ → Outcome ℕ
match_loop zero rest key cnt = hang
match_loop (suc n) rest key cnt = elim (strstr rest key) [
  | none ↦ ok cnt
  | some found ↦ match_loop n (drop (length key) found) key (cnt + 1)
]

-- The keyword stands at `n` places in the string, each past the end of the one before.
pub data Placed (key : Bytes) : ℕ → Bytes → Type 0 where
  none_placed : {s : Bytes} → Placed key 0 s
  placed :
      {n : ℕ} {s : Bytes} (i : ℕ)
      → is_prefix key (drop i s) ≡ true
      → Placed key n (drop (i + length key) s)
      → Placed key (suc n) s

drop-nil : (i : ℕ) → ◌≡◌ {A = Bytes} (drop i []) []
drop-nil zero = refl
drop-nil (suc i) = refl

drop-drop : (i j : ℕ) (s : Bytes) → drop j (drop i s) ≡ drop (i + j) s
drop-drop zero j s = ap (λ n. drop n s) (omega arith)
drop-drop (suc i) j [] = drop-nil j ∙ sym (drop-nil (suc i + j))
drop-drop (suc i) j (c ∷ s) =
    let shift : suc (i + j) ≡ suc i + j = omega arith in
    drop-drop i j s ∙ ap (λ n. drop n (c ∷ s)) shift

Placed-drop : {key : Bytes} (i : ℕ) {n : ℕ} (s : Bytes) → Placed key n (drop i s) → Placed key n s
Placed-drop i s none_placed = none_placed
Placed-drop {key} i s (placed j h p) =
    placed (i + j) (subst (λ t. is_prefix key t ≡ true) (drop-drop i j s) h)
      (subst (Placed key _) (drop-drop i (j + length key) s ∙ ap (λ n. drop n s) (omega arith)) p)

-- Nothing matches before the place `i`.
abbrev NoneBefore : Bytes → Bytes → ℕ → Type 0
NoneBefore key s i = (j : ℕ) → j < i → is_prefix key (drop j s) ≡ false

-- `strstr` finds the first match, or there is none.
strstr-some :
    (s key f : Bytes)
    → strstr s key ≡ some f
    → (i : ℕ) × (f ≡ drop i s) × (is_prefix key (drop i s) ≡ true) × NoneBefore key s i
unfolding strstr
strstr-some [] key f e = (0, ground arith, ground arith, λ j h. absurd (omega arith))
strstr-some (c ∷ s) key f e = elim (Bool-cases (is_prefix key (c ∷ s))) [
  | inl hit ↦ (0, ground arith, hit, λ j h. absurd (omega arith))
  | inr miss ↦
      let (i, at, match, before) = strstr-some s key f (ground arith) in
      (suc i, at, match, first miss i before)
]
  where
    first :
        is_prefix key (c ∷ s) ≡ false
        → (i : ℕ) → NoneBefore key s i
        → NoneBefore key (c ∷ s) (suc i)
    first miss i before zero h = miss
    first miss i before (suc j) h = before j (omega arith)

strstr-none : (s key : Bytes) → strstr s key ≡ none → (j : ℕ) → is_prefix key (drop j s) ≡ false
unfolding strstr
strstr-none [] key e zero = ground arith
strstr-none [] key e (suc j) = ground arith
strstr-none (c ∷ s) key e zero = ground arith
strstr-none (c ∷ s) key e (suc j) = strstr-none s key (ground arith) j

no_places :
    (key : Bytes) (m : ℕ) (s : Bytes)
    → ((j : ℕ) → is_prefix key (drop j s) ≡ false)
    → Placed key m s
    → m ≡ 0
no_places key m s all none_placed = refl
no_places key m s all (placed j h p) = absurd (cc (all j))

-- The places after the first of a choice fit behind the first match.
after_first :
    (key : Bytes) (m i : ℕ) (s : Bytes)
    → NoneBefore key s i
    → Placed key m s
    → Placed key (m - 1) (drop (i + length key) s)
after_first key m i s before none_placed = none_placed
after_first key m i s before (placed {n} j h p) = elim (dec_lt j i) [
  | yes early ↦ absurd (cc (before j early))
  | no late ↦
      let gap : i + length key + (j - i) ≡ j + length key = omega arith in
      subst (λ k. Placed key k (drop (i + length key) s)) (omega arith)
        (Placed-drop (j - i) (drop (i + length key) s) (
          subst (Placed key n) (sym (drop-drop (i + length key) (j - i) s ∙ ap (λ k. drop k s) gap))
            p))
]

module _ (n : ℕ) (rest key : Bytes) (cnt : ℕ) where
  match_loop_stop : strstr rest key ≡ none → match_loop (suc n) rest key cnt ≡ ok cnt
  unfolding match_loop
  match_loop_stop e = rw (e, match_loop)

  match_loop_next :
      (f : Bytes)
      → strstr rest key ≡ some f
      → match_loop (suc n) rest key cnt ≡ match_loop n (drop (length key) f) key (cnt + 1)
  unfolding match_loop
  match_loop_next f e = rw (e, match_loop)

-- A run of the loop that ends has counted at least as many matches as any choice of places.
match_loop_max :
    (n : ℕ) (rest key : Bytes) (cnt r m : ℕ)
    → match_loop n rest key cnt ≡ ok r
    → Placed key m rest
    → cnt + m ≤ r
unfolding match_loop
match_loop_max zero rest key cnt r m e p = cc
match_loop_max (suc n) rest key cnt r m e p = elim (Option-cases (strstr rest key)) [
  | inl stop ↦ omega (
    arith,
    no_places key m rest (strstr-none rest key stop) p,
    ok-injective (sym (match_loop_stop n rest key cnt stop) ∙ e),
  )
  | inr (f, more) ↦
      let (i, at, match, before) = strstr-some rest key f more in
      let here : drop (i + length key) rest ≡ drop (length key) f =
        sym (drop-drop i (length key) rest) ∙ ap (drop (length key)) (sym at) in
      omega (
        arith,
        match_loop_max n (drop (length key) f) key (cnt + 1) r (m - 1)
            (sym (match_loop_next n rest key cnt f more) ∙ e)
            (subst (Placed key (m - 1)) here (after_first key m i rest before p)),
      )
]

-- It has counted a choice of places.
match_loop-Placed :
    (n : ℕ) (rest key : Bytes) (cnt r : ℕ)
    → match_loop n rest key cnt ≡ ok r
    → (cnt ≤ r) × Placed key (r - cnt) rest
unfolding match_loop
match_loop-Placed zero rest key cnt r e = cc
match_loop-Placed (suc n) rest key cnt r e = elim (Option-cases (strstr rest key)) [
  | inl stop ↦
      let same = ok-injective (sym (match_loop_stop n rest key cnt stop) ∙ e) in
      (omega arith, subst (λ k. Placed key k rest) (omega arith) none_placed)
  | inr (f, more) ↦
      let (i, at, match, before) = strstr-some rest key f more in
      let (le, p) =
        match_loop-Placed n (drop (length key) f) key (cnt + 1) r
          (sym (match_loop_next n rest key cnt f more) ∙ e) in
      let here : drop (length key) f ≡ drop (i + length key) rest =
        ap (drop (length key)) at ∙ drop-drop i (length key) rest in
      (
        omega arith,
        subst (λ k. Placed key k rest) (omega arith)
            (placed i match (subst (Placed key (r - (cnt + 1))) here p)),
      )
]

is_prefix-length : (key t : Bytes) → is_prefix key t ≡ true → length key ≤ length t
unfolding is_prefix
is_prefix-length [] t h = omega arith
is_prefix-length (k ∷ key) [] h = cc
is_prefix-length (k ∷ key) (c ∷ t) h = ground (arith, is_prefix-length key t)

not_empty : (key : Bytes) → key ≢ [] → 0 < length key
not_empty [] ne = absurd (ne refl)
not_empty (k ∷ key) ne = omega arith

-- With a keyword that is not empty each round leaves less of the file.
match_loop_ends :
    (n : ℕ) (rest key : Bytes) (cnt : ℕ)
    → key ≢ []
    → length rest < n
    → (r : ℕ) × (match_loop n rest key cnt ≡ ok r)
unfolding match_loop
match_loop_ends zero rest key cnt ne h = absurd (omega arith)
match_loop_ends (suc n) rest key cnt ne h = elim (Option-cases (strstr rest key)) [
  | inl stop ↦ (cnt, match_loop_stop n rest key cnt stop)
  | inr (f, more) ↦
      let (i, at, match, before) = strstr-some rest key f more in
      let (r, e) = match_loop_ends n (drop (length key) f) key (cnt + 1) ne (
        omega (
          arith,
          length-drop (length key) f,
          ap length at,
          length-drop i rest,
          is_prefix-length key (drop i rest) match,
          not_empty key ne,
        )) in
      (r, match_loop_next n rest key cnt f more ∙ e)
]

length-c_string : (s : Bytes) → length (c_string s) ≤ length s
unfolding c_string
length-c_string [] = omega arith
length-c_string (c ∷ s) = ground (arith, length-c_string s)

-- `r` is the largest number of matches of the keyword that do not overlap.
pub record Largest (key s : Bytes) (r : ℕ) : Type 0 where
  pub reached : Placed key r s
  pub bound : (m : ℕ) → Placed key m s → m ≤ r

match_loop-Largest :
    (n : ℕ) (s key : Bytes)
    → key ≢ []
    → length s < n
    → (r : ℕ) × (match_loop n s key 0 ≡ ok r) × Largest key s r
match_loop-Largest n s key ne h =
    let (r, e) = match_loop_ends n s key 0 ne h in
    (
      r,
      e,
      record {
        reached = subst (λ k. Placed key k s) (omega arith) (match_loop-Placed n s key 0 r e).1;
        bound = λ m p. omega (arith, match_loop_max n s key 0 r m e p);
      },
    )

-- A rest of a string stands where its length says.
drop-place : (p : ℕ) (s : Bytes) → drop p s ≡ drop (length s - length (drop p s)) s
drop-place zero s =
    let none_left : 0 ≡ length s - length s = omega arith in ap (λ i. drop i s) none_left
drop-place (suc p) [] = refl
drop-place (suc p) (c ∷ s) =
    let shift : suc (length s - length (drop p s)) ≡ suc (length s) - length (drop p s) =
      omega (arith, length-drop p s) in
    drop-place p s ∙ ap (λ i. drop i (c ∷ s)) shift

module _ (n : ℕ) (s key : Bytes) (loc cnt : ℕ) where
  count_loop_stop : strstr (drop loc s) key ≡ none → count_loop (suc n) s key loc cnt ≡ ok cnt
  unfolding count_loop
  count_loop_stop e = rw (e, count_loop)

  count_loop_next :
      (f : Bytes) (next : ℕ)
      → strstr (drop loc s) key ≡ some f
      → (length s - length f + length key) % 2 ^ 32 ≡ next
      → ltb next (2 ^ 31) ≡ true
      → count_loop (suc n) s key loc cnt ≡ count_loop n s key next (cnt + 1)
  unfolding count_loop
  count_loop_next f next e at small =
      rw (e, count_loop) (rw (at, small) (ap (λ i. count_loop n s key i (cnt + 1)) at))

-- Where all places of a string are `int`s the two loops agree.
count_loop-match_loop :
    (n : ℕ) (s key : Bytes) (loc cnt : ℕ)
    → length s < 2 ^ 31
    → count_loop n s key loc cnt ≡ match_loop n (drop loc s) key cnt
unfolding match_loop count_loop
count_loop-match_loop zero s key loc cnt small = refl
count_loop-match_loop (suc n) s key loc cnt small = elim (Option-cases (strstr (drop loc s) key)) [
  | inl stop ↦
      count_loop_stop n s key loc cnt stop ∙ sym (match_loop_stop n (drop loc s) key cnt stop)
  | inr (f, more) ↦
      let (i, at, match, before) = strstr-some (drop loc s) key f more in
      let place : f ≡ drop (loc + i) s = at ∙ drop-drop loc i s in
      let fits = is_prefix-length key (drop i (drop loc s)) match in
      let short : length f ≤ length s = omega (arith, ap length place, length-drop (loc + i) s) in
      let room : length key ≤ length f = omega (arith, ap length at, fits) in
      let next = length s - length f + length key in
      let whole : next % 2 ^ 32 ≡ next = omega (arith, short, room, small) in
      let is_int : ltb next (2 ^ 31) ≡ true =
        lt→ltb next (2 ^ 31) (omega (arith, short, room, small)) in
      let here : drop next s ≡ drop (length key) f =
        sym (drop-drop (length s - length f) (length key) s)
        ∙ ap (drop (length key)) (
            ap (λ t. drop (length s - length t) s) place
            ∙ sym (drop-place (loc + i) s)
            ∙ sym place) in
      count_loop_next n s key loc cnt f next more whole is_int
      ∙ count_loop-match_loop n s key next (cnt + 1) small
      ∙ ap (λ t. match_loop n t key (cnt + 1)) here
      ∙ sym (match_loop_next n (drop loc s) key cnt f more)
]

take-length : (s : Bytes) → take (length s) s ≡ s
take-length [] = refl
take-length (c ∷ s) = ap (λ t. c ∷ t) (take-length s)

-- Where every `calloc` succeeds, the file can be read and has less than 2^31 bytes, and the keyword
-- is not empty, `getKeyWordCount` ends, and stores the largest number of matches of the keyword,
-- before the first zero byte, that do not overlap.
pub get_key_word_count_lem :
    (has_room : ℕ → Bool) (bytes : Bytes) (file : FileProperty) (key : Bytes)
    → ((n : ℕ) → has_room n ≡ true)
    → length bytes < 2 ^ 31
    → key ≢ []
    → (r : ℕ) × (get_key_word_count has_room (readable bytes) file key
        ≡ ok (record file { cnt_key_word = pos r }))
      × Largest key (c_string bytes) r
unfolding get_key_word_count
get_key_word_count_lem has_room bytes file key room small ne =
    let text = c_string bytes in
    let (r, e, best) =
      match_loop-Largest (length bytes + 1) text key ne (omega (arith, length-c_string bytes)) in
    let counted : count_loop (length bytes + 1) text key 0 0 ≡ ok r =
      count_loop-match_loop (length bytes + 1) text key 0 0 (omega (arith, length-c_string bytes))
      ∙ e in
    let size : length bytes % 2 ^ 32 ≡ length bytes = omega (arith, small) in
    let block : ltb (length bytes + 1) (2 ^ 32) ≡ true =
      lt→ltb (length bytes + 1) (2 ^ 32) (omega (arith, small)) in
    (r, rw (size, room ((length bytes + 1) % 2 ^ 32), block, take-length bytes, counted) refl, best)
