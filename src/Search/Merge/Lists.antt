-- ===== src/Search/Merge/Lists.antt =====
-- Merging on lists: the reference that p1/search.c's `mergeSegments` is compared with.
use sp.Base.{
  ◌+◌, ◌≡◌, refl, inl, inr, true, false, List, [], ◌∷◌, ◌++◌, arith, Bool-cases, ℤ, pos, ◌≤ℤ◌,
  leb_ℤ, eqb_ℤ, length, keep, All,
}
use mathlib.Core.List.{append-nil}
use sp.Search.Merge.{FileProperty}

-- Merges two lists, the larger count first, and the left list first on a tie.
unfoldable pub merge : List FileProperty → List FileProperty → List FileProperty
merge [] ys = ys
merge (x ∷ xs) [] = x ∷ xs
merge (x ∷ xs) (y ∷ ys) = elim (leb_ℤ y.cnt_key_word x.cnt_key_word) [
  | true ↦ x ∷ merge xs (y ∷ ys)
  | false ↦ y ∷ merge (x ∷ xs) ys
]

-- Counts fall along the list.
abbrev pub IsDescending : List FileProperty → Type 0
IsDescending [] = Unit
IsDescending (x ∷ xs) = All (λ y. y.cnt_key_word ≤ℤ x.cnt_key_word) xs × IsDescending xs

-- The files with the count `c`, in order.
abbrev pub with_count : ℤ → List FileProperty → List FileProperty
with_count c = keep (λ x. eqb_ℤ x.cnt_key_word c)

-- No count is negative.
abbrev pub Counted : FileProperty → Type 0
Counted x = pos 0 ≤ℤ x.cnt_key_word

pub merge_left :
    (x y : FileProperty) (xs ys : List FileProperty)
    → leb_ℤ y.cnt_key_word x.cnt_key_word ≡ true
    → merge (x ∷ xs) (y ∷ ys) ≡ x ∷ merge xs (y ∷ ys)
unfolding merge
merge_left x y xs ys h = ground arith

pub merge_right :
    (x y : FileProperty) (xs ys : List FileProperty)
    → leb_ℤ y.cnt_key_word x.cnt_key_word ≡ false
    → merge (x ∷ xs) (y ∷ ys) ≡ y ∷ merge (x ∷ xs) ys
unfolding merge
merge_right x y xs ys h = ground arith

pub merge-nil : (xs : List FileProperty) → merge xs [] ≡ xs
unfolding merge
merge-nil [] = refl
merge-nil (x ∷ xs) = refl

pub merge-All {κ} :
    (P : FileProperty → Type κ) (xs ys : List FileProperty)
    → All P xs
    → All P ys
    → All P (merge xs ys)
unfolding merge
merge-All P [] ys a b = b
merge-All P (x ∷ xs) [] a b = a
merge-All P (x ∷ xs) (y ∷ ys) a b = elim (Bool-cases (leb_ℤ y.cnt_key_word x.cnt_key_word)) [
  | inl h ↦ rw (merge_left x y xs ys h) (a.0, merge-All P xs (y ∷ ys) a.1 b)
  | inr h ↦ rw (merge_right x y xs ys h) (b.0, merge-All P (x ∷ xs) ys a b.1)
]

All-below :
    (x y : FileProperty) (xs : List FileProperty)
    → x.cnt_key_word ≤ℤ y.cnt_key_word
    → All (λ z. z.cnt_key_word ≤ℤ x.cnt_key_word) xs
    → All (λ z. z.cnt_key_word ≤ℤ y.cnt_key_word) xs
All-below x y [] h a = tt
All-below x y (z ∷ xs) h a = (omega arith, All-below x y xs h a.1)

leb_ℤ-le : (a b : ℤ) → leb_ℤ a b ≡ true → a ≤ℤ b
leb_ℤ-le a b h = ground arith

leb_ℤ-ge : (a b : ℤ) → leb_ℤ a b ≡ false → b ≤ℤ a
leb_ℤ-ge a b h = ground arith

pub merge-IsDescending :
    (xs ys : List FileProperty) → IsDescending xs → IsDescending ys → IsDescending (merge xs ys)
unfolding merge
merge-IsDescending [] ys a b = b
merge-IsDescending (x ∷ xs) [] a b = a
merge-IsDescending (x ∷ xs) (y ∷ ys) a b = elim (Bool-cases (leb_ℤ y.cnt_key_word x.cnt_key_word)) [
  | inl h ↦
      let y≤x = leb_ℤ-le y.cnt_key_word x.cnt_key_word h in
      rw (merge_left x y xs ys h) (
        merge-All _ xs (y ∷ ys) a.0 (y≤x, All-below y x ys y≤x b.0),
        merge-IsDescending xs (y ∷ ys) a.1 b,
      )
  | inr h ↦
      let x≤y = leb_ℤ-ge y.cnt_key_word x.cnt_key_word h in
      rw (merge_right x y xs ys h) (
        merge-All _ (x ∷ xs) ys (x≤y, All-below x y xs x≤y a.0) b.0,
        merge-IsDescending (x ∷ xs) ys a b.1,
      )
]

pub length-merge : (xs ys : List FileProperty) → length (merge xs ys) ≡ length xs + length ys
unfolding merge
length-merge [] ys = omega arith
length-merge (x ∷ xs) [] = omega arith
length-merge (x ∷ xs) (y ∷ ys) = elim (Bool-cases (leb_ℤ y.cnt_key_word x.cnt_key_word)) [
  | inl h ↦ rw (merge_left x y xs ys h) (omega (arith, length-merge xs (y ∷ ys)))
  | inr h ↦ rw (merge_right x y xs ys h) (omega (arith, length-merge (x ∷ xs) ys))
]

-- All counts lie below `c`, so no file has the count `c`.
with_count_below :
    (c : ℤ) (y x : FileProperty) (xs : List FileProperty)
    → eqb_ℤ y.cnt_key_word c ≡ true
    → leb_ℤ y.cnt_key_word x.cnt_key_word ≡ false
    → All (λ z. z.cnt_key_word ≤ℤ x.cnt_key_word) xs
    → with_count c xs ≡ []
with_count_below c y x [] e h a = refl
with_count_below c y x (z ∷ xs) e h a = ground (arith, with_count_below c y x xs e h a.1)

-- Files with the same count keep their order: those of the left list come first.
pub with_count-merge :
    (c : ℤ) (xs ys : List FileProperty)
    → IsDescending xs
    → IsDescending ys
    → with_count c (merge xs ys) ≡ with_count c xs ++ with_count c ys
unfolding merge
with_count-merge c [] ys a b = refl
with_count-merge c (x ∷ xs) [] a b = rw append-nil
with_count-merge c (x ∷ xs) (y ∷ ys) a b = elim (Bool-cases (leb_ℤ y.cnt_key_word x.cnt_key_word)) [
  | inl h ↦ rw (merge_left x y xs ys h) (left (with_count-merge c xs (y ∷ ys) a.1 b))
  | inr h ↦ rw (merge_right x y xs ys h) (right h (with_count-merge c (x ∷ xs) ys a b.1))
]
  where
    left :
        with_count c (merge xs (y ∷ ys)) ≡ with_count c xs ++ with_count c (y ∷ ys)
        → with_count c (x ∷ merge xs (y ∷ ys)) ≡ with_count c (x ∷ xs) ++ with_count c (y ∷ ys)
    left ih = ground arith

    right :
        leb_ℤ y.cnt_key_word x.cnt_key_word ≡ false
        → with_count c (merge (x ∷ xs) ys) ≡ with_count c (x ∷ xs) ++ with_count c ys
        → with_count c (y ∷ merge (x ∷ xs) ys) ≡ with_count c (x ∷ xs) ++ with_count c (y ∷ ys)
    right h ih = ground (
      arith,
      with_count_below c y x (x ∷ xs),
      append-nil (with_count c (x ∷ xs)),
      append-nil (with_count c xs),
    )
