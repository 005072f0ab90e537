-- ===== src/Search/Merge/Sort.antt =====
-- p1/search.c: what `mergeSort` promises of the array that it sorts.
use sp.Base.{
  ℕ, zero, suc, ◌+◌, ◌-◌, ◌/◌, ◌≤◌, ◌<◌, ◌≡◌, ◌∙◌, refl, sym, subst, ◌⊎◌, inl, inr, Bool, true,
  false, ltb, List, [], ◌∷◌, ◌++◌, arith, Bool-cases, ℤ, pos, eqb_ℤ, length, length-append, take,
  drop, length-take, length-drop, take-append-drop, keep-append, All, Outcome, ok, ◌>>=◌, Holds,
  Holds-append, Holds-split, Holds-agree, Written, ltb→lt,
}
use sp.Search.Merge.{FileProperty, Files, last_index, merge_segments, merge_sort}
use sp.Search.Merge.Lists.{
  merge, IsDescending, with_count, Counted, merge-All, merge-IsDescending, length-merge,
  with_count-merge,
}
use sp.Search.Merge.Loops.{merge_segments_lem}

-- `zs` is `xs` with the larger counts first, files with one count staying in order. The last two
-- fields follow from the others, and are kept for the induction.
pub record SortedFrom (xs zs : List FileProperty) : Type 0 where
  pub descending : IsDescending zs
  pub stable : (c : ℤ) → with_count c zs ≡ with_count c xs
  pub counted : All Counted zs
  pub same_length : length zs ≡ length xs

-- The run sorts the files `xs` that stand from `left` on, and stores nothing else.
abbrev pub Sorts : Files → ℕ → List FileProperty → Outcome Files → Type 0
Sorts files left xs r = (zs : List FileProperty) × SortedFrom xs zs × Written files left zs r

All-split {ℓ κ} :
    {A : Type ℓ} (P : A → Type κ) (xs ys : List A) → All P (xs ++ ys) → All P xs × All P ys
All-split P [] ys h = (tt, h)
All-split P (x ∷ xs) ys h = let (a, b) = All-split P xs ys h.1 in ((h.0, a), b)

merge-SortedFrom :
    (xs ys zs ws : List FileProperty)
    → SortedFrom xs zs
    → SortedFrom ys ws
    → SortedFrom (xs ++ ys) (merge zs ws)
merge-SortedFrom xs ys zs ws a b = record {
  descending = merge-IsDescending zs ws a.descending b.descending;
  stable = λ c.
      rw (with_count-merge c zs ws a.descending b.descending, a.stable c, b.stable c)
        (sym (keep-append (λ x. eqb_ℤ x.cnt_key_word c) xs ys));
  counted = merge-All Counted zs ws a.counted b.counted;
  same_length =
      omega (arith, length-merge zs ws, a.same_length, b.same_length, length-append xs ys);
}

one_file :
    (files : Files) (left : ℕ) (xs : List FileProperty)
    → length xs ≡ 1
    → All Counted xs
    → Holds files left xs
    → Sorts files left xs (ok files)
one_file files left [] e c h = absurd (omega arith)
one_file files left (x ∷ []) e c h = (
  x ∷ [],
  record { descending = (tt, tt); stable = λ c. refl; counted = c; same_length = refl },
  record { final = files; returns = refl; holds = h; outside = λ j p. refl },
)
one_file files left (x ∷ y ∷ xs) e c h = absurd (omega arith)

module _ (has_room : ℕ → Bool) (room : (n : ℕ) → has_room n ≡ true) where
  -- The two recursive calls and the merge, one after the other.
  sort_parts :
      (n : ℕ) (files : Files) (left q right : ℕ) (xs ys : List FileProperty)
      → left + length xs ≡ q + 1
      → q + 1 + length ys ≡ right + 1
      → left ≤ q
      → Holds files left (xs ++ ys)
      → (a : Sorts files left xs (merge_sort has_room n files left (pos q)))
      → Sorts a.2.final (q + 1) ys (merge_sort has_room n a.2.final (q + 1) (pos right))
      → Sorts files left (xs ++ ys) (do
        files' ← merge_sort has_room n files left (pos q)
        files'' ← merge_sort has_room n files' (q + 1) (pos right)
        merge_segments has_room files'' left q right)
  sort_parts n files left q right xs ys e1 e2 le h (zs, sa, a) (ws, sb, b) = (
    merge zs ws,
    merge-SortedFrom xs ys zs ws sa sb,
    rw (a.returns, ◌>>=◌)
        (rw (b.returns, ◌>>=◌)
          (record {
            final = m.final;
            returns = m.returns;
            holds = m.holds;
            outside =
                λ j p. m.outside j p ∙ b.outside j (around j p).0 ∙ a.outside j (around j p).1;
          })),
  )
    where
      around :
          (j : ℕ)
          → (j < left) ⊎ (left + length (merge zs ws) ≤ j)
          → ((j < q + 1) ⊎ (q + 1 + length ws ≤ j)) × ((j < left) ⊎ (left + length zs ≤ j))
      around j p = omega (arith, sa.same_length, sb.same_length, length-merge zs ws)

      m : Written b.final left (merge zs ws) (merge_segments has_room b.final left q right)
      m =
          merge_segments_lem has_room room b.final left q right zs ws
            (omega (arith, sa.same_length)) (omega (arith, sb.same_length)) le sa.counted sb.counted
            (Holds-append b.final left zs ws
              (Holds-agree a.final b.final left zs
                (λ j p q. b.outside j (inl (omega (arith, sa.same_length)))) a.holds)
              (subst (λ i. Holds b.final i ws) (omega (arith, sa.same_length)) b.holds))

  -- `mergeSort` with `n` levels of recursion sorts every segment that is not too long.
  abbrev SortsWithin : ℕ → Type 0
  SortsWithin n =
      (files : Files) (left right : ℕ) (xs : List FileProperty)
      → right < n + left
      → left ≤ right
      → left + length xs ≡ right + 1
      → All Counted xs
      → Holds files left xs
      → Sorts files left xs (merge_sort has_room n files left (pos right))

  merge_sort_stop :
      (n : ℕ) (files : Files) (left right : ℕ)
      → ltb left right ≡ false
      → merge_sort has_room (suc n) files left (pos right) ≡ ok files
  unfolding merge_sort
  merge_sort_stop n files left right h = ground arith

  merge_sort_halves :
      (n : ℕ) (files : Files) (left right q : ℕ)
      → q ≡ (left + right) / 2
      → ltb left right ≡ true
      → merge_sort has_room (suc n) files left (pos right) ≡ (do
        files' ← merge_sort has_room n files left (pos q)
        files'' ← merge_sort has_room n files' (q + 1) (pos right)
        merge_segments has_room files'' left q right)
  unfolding merge_sort
  merge_sort_halves n files left right q e h = rw e (ground arith)

  -- Both halves of a segment with more than one file are smaller, and not empty.
  sort_halves :
      (n : ℕ)
      → SortsWithin n
      → (files : Files) (left right q : ℕ) (xs : List FileProperty) → q ≡ (left + right) / 2
      → right < suc n + left
      → left < right
      → left + length xs ≡ right + 1
      → All Counted xs
      → Holds files left xs
      → Sorts files left xs (do
        files' ← merge_sort has_room n files left (pos q)
        files'' ← merge_sort has_room n files' (q + 1) (pos right)
        merge_segments has_room files'' left q right)
  sort_halves n ih files left right q xs eq f lt e c h =
      subst
        (λ zs. Sorts files left zs (do
          files' ← merge_sort has_room n files left (pos q)
          files'' ← merge_sort has_room n files' (q + 1) (pos right)
          merge_segments has_room files'' left q right))
        whole
        (sort_parts n files left q right (take m xs) (drop m xs) (omega (arith, size))
          (omega (arith, rest)) (omega arith) (subst (Holds files left) (sym whole) h) first
          (ih first.2.final (q + 1) right (drop m xs) (omega arith) (omega arith)
            (omega (arith, rest)) counted.1
            (Holds-agree files first.2.final (q + 1) (drop m xs)
              (λ j p r. first.2.outside j (inr (omega (arith, first.1.same_length, size))))
              (subst (λ i. Holds files i (drop m xs)) (omega (arith, size)) held.1))))
    where
      m : ℕ
      m = q + 1 - left

      whole : take m xs ++ drop m xs ≡ xs
      whole = take-append-drop m xs

      size : length (take m xs) ≡ m
      size = length-take m xs (omega arith)

      rest : length (drop m xs) ≡ length xs - m
      rest = length-drop m xs

      counted : All Counted (take m xs) × All Counted (drop m xs)
      counted = All-split Counted (take m xs) (drop m xs) (subst (All Counted) (sym whole) c)

      held : Holds files left (take m xs) × Holds files (left + length (take m xs)) (drop m xs)
      held = Holds-split files left (take m xs) (drop m xs) (subst (Holds files left) (sym whole) h)

      first : Sorts files left (take m xs) (merge_sort has_room n files left (pos q))
      first =
          ih files left q (take m xs) (omega arith) (omega arith) (omega (arith, size)) counted.0
            held.0

  -- Enough fuel is the length of the segment.
  pub merge_sort_lem : (n : ℕ) → SortsWithin n
  merge_sort_lem zero files left right xs f le e c h = absurd (omega arith)
  merge_sort_lem (suc n) files left right xs f le e c h = elim (Bool-cases (ltb left right)) [
    | inr stop ↦
        rw (merge_sort_stop n files left right stop) (one_file files left xs (ground arith) c h)
    | inl more ↦ rw (merge_sort_halves n files left right ((left + right) / 2) refl more) (
        sort_halves n (merge_sort_lem n) files left right _ xs refl f (ltb→lt left right more) e c
          h)
  ]

  -- Where every `calloc` succeeds and no count is negative, `mergeSort` on a whole array, also an
  -- empty one, ends with the larger counts first and the files of one count in their old order,
  -- none lost or added, and stores nothing outside the array.
  pub merge_sort-Sorts :
      (files : Files) (xs : List FileProperty)
      → All Counted xs
      → Holds files 0 xs
      → Sorts files 0 xs (merge_sort has_room (suc (length xs)) files 0 (last_index (length xs)))
  unfolding merge_sort
  merge_sort-Sorts files [] c h = (
    [],
    record { descending = tt; stable = λ c. refl; counted = tt; same_length = refl },
    record { final = files; returns = refl; holds = tt; outside = λ j p. refl },
  )
  merge_sort-Sorts files (x ∷ xs) c h =
      merge_sort_lem (suc (suc (length xs))) files 0 (length xs) (x ∷ xs) (omega arith)
        (omega arith) (omega arith) c h
