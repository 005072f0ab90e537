-- ===== src/Search/Merge/Loops.antt =====
-- p1/search.c: the loops of `mergeSegments` on arrays compute the merge of two lists.
use sp.Base.{
  ℕ, zero, suc, ◌+◌, ◌-◌, ◌≤◌, ◌≡◌, ◌∙◌, refl, subst, inl, inr, Bool, true, false, List, [], ◌∷◌,
  ◌++◌, arith, Bool-cases, negsuc, leb_ℤ, length, length-append, All, ok, ◌>>=◌, calloc, update,
  Holds, Holds-append, Holds-split, Holds-agree, Holds-Room, Room, Room-update, Room-calloc,
  Written, Written-nil, Written-cons, store_lem, some,
}
use sp.Search.Merge.{
  FileProperty, Files, zero_file, copy_loop, set_sentinel, merge_loop, merge_segments,
}
use sp.Search.Merge.Lists.{merge, merge_left, merge_right, merge-nil, Counted}

copy_loop_lem :
    (src : Files) (p : ℕ) (dst : Files) (i : ℕ) (xs : List FileProperty)
    → Holds src p xs
    → Room dst i (length xs)
    → Written dst i xs (copy_loop (length xs) src p dst i)
unfolding copy_loop
copy_loop_lem src p dst i [] h room = Written-nil dst i
copy_loop_lem src p dst i (x ∷ xs) (hx, h) ((z, e), room) =
    rw (hx, copy_loop)
      (rw (store_lem dst i x e) (
        Written-cons dst i x xs _ (
          copy_loop_lem src (suc p) (update dst i x) (suc i) xs h
            (Room-update dst (suc i) (length xs) i x room))))

module _ (n : ℕ) (L R : Files) (i j k : ℕ) (files : Files) (l r z : FileProperty)
    (at_i : L i ≡ some l) (at_j : R j ≡ some r) (at_k : files k ≡ some z) where
  merge_loop_left :
      leb_ℤ r.cnt_key_word l.cnt_key_word ≡ true
      → merge_loop (suc n) L R i j k files ≡ merge_loop n L R (suc i) j (suc k) (update files k l)
  unfolding merge_loop
  merge_loop_left h = ground arith

  merge_loop_right :
      leb_ℤ r.cnt_key_word l.cnt_key_word ≡ false
      → merge_loop (suc n) L R i j k files ≡ merge_loop n L R i (suc j) (suc k) (update files k r)
  unfolding merge_loop
  merge_loop_right h = ground arith

-- A file that ends a local array of `mergeSegments`.
abbrev IsSentinel : FileProperty → Type 0
IsSentinel s = s.cnt_key_word ≡ negsuc 0

merge_loop_lem :
    (n : ℕ) (xs ys : List FileProperty) (L R : Files) (i j k : ℕ) (files : Files)
    (s t : FileProperty)
    → n ≡ length xs + length ys
    → IsSentinel s
    → IsSentinel t
    → All Counted xs
    → All Counted ys
    → Holds L i (xs ++ s ∷ [])
    → Holds R j (ys ++ t ∷ [])
    → Room files k n
    → Written files k (merge xs ys) (merge_loop n L R i j k files)
unfolding merge merge_loop
merge_loop_lem zero [] [] L R i j k files s t e hs ht cx cy hl hr room = Written-nil files k
merge_loop_lem zero [] (y ∷ ys) L R i j k files s t e hs ht cx cy hl hr room = absurd (omega arith)
merge_loop_lem zero (x ∷ xs) ys L R i j k files s t e hs ht cx cy hl hr room = absurd (omega arith)
merge_loop_lem (suc n) [] [] L R i j k files s t e hs ht cx cy hl hr room = absurd (omega arith)
merge_loop_lem (suc n) [] (y ∷ ys) L R i j k files s t e hs ht cx cy hl hr ((z, hz), room) =
    rw (merge_loop_right n L R i j k files s y z hl.0 hr.0 hz (ground arith)) (
      Written-cons files k y ys _ (
        merge_loop_lem n [] ys L R i (suc j) (suc k) (update files k y) s t (omega arith) hs ht cx
          cy.1 hl hr.1 (Room-update files (suc k) n k y room)))
merge_loop_lem (suc n) (x ∷ xs) [] L R i j k files s t e hs ht cx cy hl hr ((z, hz), room) =
    rw (merge_loop_left n L R i j k files x t z hl.0 hr.0 hz (ground arith)) (
      Written-cons files k x xs _ (
        subst
          (λ zs.
            Written (update files k x) (suc k) zs
              (merge_loop n L R (suc i) j (suc k) (update files k x)))
          (merge-nil xs)
          (merge_loop_lem n xs [] L R (suc i) j (suc k) (update files k x) s t (omega arith) hs ht
            cx.1 cy hl.1 hr (Room-update files (suc k) n k x room))))
merge_loop_lem (suc n) (x ∷ xs) (y ∷ ys) L R i j k files s t e hs ht cx cy hl hr ((z, hz), room) =
    elim (Bool-cases (leb_ℤ y.cnt_key_word x.cnt_key_word)) [
      | inl h ↦
          rw (merge_left x y xs ys h, merge_loop_left n L R i j k files x y z hl.0 hr.0 hz h)
            (Written-cons files k x (merge xs (y ∷ ys)) _ (
              merge_loop_lem n xs (y ∷ ys) L R (suc i) j (suc k) (update files k x) s t
                (omega arith) hs ht cx.1 cy hl.1 hr (Room-update files (suc k) n k x room)))
      | inr h ↦
          rw (merge_right x y xs ys h, merge_loop_right n L R i j k files x y z hl.0 hr.0 hz h)
            (Written-cons files k y (merge (x ∷ xs) ys) _ (
              merge_loop_lem n (x ∷ xs) ys L R i (suc j) (suc k) (update files k y) s t
                (omega arith) hs ht cx cy.1 hl hr.1 (Room-update files (suc k) n k y room)))
    ]

-- A local array of `mergeSegments`: the copied files, then the sentinel.
record Local (files : Files) (p : ℕ) (xs : List FileProperty) : Type 0 where
  copied : Files
  local : Files
  last : FileProperty
  copies : copy_loop (length xs) files p (calloc (length xs + 1) zero_file) 0 ≡ ok copied
  ends : set_sentinel copied (length xs) ≡ ok local
  holds : Holds local 0 (xs ++ last ∷ [])
  is_sentinel : IsSentinel last

set_sentinel_lem :
    (a : Files) (i : ℕ) (x : FileProperty)
    → a i ≡ some x
    → set_sentinel a i ≡ ok (update a i (record x { cnt_key_word = negsuc 0 }))
unfolding set_sentinel
set_sentinel_lem a i x e = ground arith

make-Local : (files : Files) (p : ℕ) (xs : List FileProperty) → Holds files p xs → Local files p xs
make-Local files p xs h = record {
  copied = w.final;
  local = update w.final n last;
  last = last;
  copies = w.returns;
  ends = set_sentinel_lem w.final n zero_file untouched;
  holds =
      Holds-append (update w.final n last) 0 xs (last ∷ [])
        (Holds-agree w.final (update w.final n last) 0 xs (λ j p q. ground arith) w.holds)
        (ground arith, tt);
  is_sentinel = refl;
}
  where
    n : ℕ
    n = length xs

    last : FileProperty
    last = record zero_file { cnt_key_word = negsuc 0 }

    w : Written (calloc (n + 1) zero_file) 0 xs (copy_loop n files p (calloc (n + 1) zero_file) 0)
    w = copy_loop_lem files p _ 0 xs h (Room-calloc (n + 1) 0 n zero_file (omega arith))

    untouched : w.final n ≡ some zero_file
    untouched = w.outside n (inr (omega arith)) ∙ ground arith

module _ (has_room : ℕ → Bool) (room : (n : ℕ) → has_room n ≡ true) where
  -- `mergeSegments` on two neighbouring segments leaves their merge in place of them.
  pub merge_segments_lem :
      (files : Files) (left mid right : ℕ) (xs ys : List FileProperty)
      → left + length xs ≡ mid + 1
      → mid + 1 + length ys ≡ right + 1
      → left ≤ mid
      → All Counted xs
      → All Counted ys
      → Holds files left (xs ++ ys)
      → Written files left (merge xs ys) (merge_segments has_room files left mid right)
  unfolding merge_segments
  merge_segments_lem files left mid right xs ys e1 e2 le cx cy h =
      rw (n1, n2, room (length xs + 1), room (length ys + 1), lft.copies, ◌>>=◌)
        (rw (lft.ends, ◌>>=◌) (rw (rgt.copies, ◌>>=◌) (rw (rgt.ends, ◌>>=◌) merged)))
    where
      n1 : mid - left + 1 ≡ length xs
      n1 = omega arith

      n2 : right - mid ≡ length ys
      n2 = omega arith

      parts : Holds files left xs × Holds files (left + length xs) ys
      parts = Holds-split files left xs ys h

      lft : Local files left xs
      lft = make-Local files left xs parts.0

      rgt : Local files (mid + 1) ys
      rgt = make-Local files (mid + 1) ys (subst (λ n. Holds files n ys) e1 parts.1)

      merged :
          Written files left
            (merge xs ys)
            (merge_loop (right + 1 - left) lft.local rgt.local 0 0 left files)
      merged =
          merge_loop_lem (right + 1 - left) xs ys lft.local rgt.local 0 0 left files lft.last
            rgt.last (omega arith) lft.is_sentinel rgt.is_sentinel cx cy lft.holds rgt.holds
            (subst (Room files left) (omega (arith, length-append xs ys))
              (Holds-Room files left (xs ++ ys) h))
