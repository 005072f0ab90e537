-- ===== src/Search/Merge.antt =====
-- p1/search.c, `mergeSegments` and `mergeSort`. An array of the C heap is a function from indices to
-- the elements that it has; `has_room n` says whether a `calloc` of `n` elements succeeds. The local
-- arrays L and R are freed on return, so they do not outlive the run. Indices do not reach 2^31.
pub mod Lists
pub mod Loops
pub mod Sort
use sp.Base.{
  ℕ, zero, suc, ◌+◌, ◌-◌, ◌/◌, ◌≡◌, Bool, true, false, ◌&&◌, Option, none, List, [], ◌∷◌, ltb, ℤ,
  pos, negsuc, leb_ℤ, Outcome, ok, hang, ◌>>=◌, ◌>>◌, require, Array, load, store, calloc,
}

pub record FileProperty : Type 0 where
  pub name : Option (List ℕ)
  pub cnt_key_word : ℤ

abbrev pub Files : Type 0
Files = Array FileProperty

-- What `calloc` fills an element with: a null name, and no match.
abbrev pub zero_file : FileProperty
zero_file = record { name = none; cnt_key_word = pos 0 }

-- `for (i = 0; i < n1; i++) L[i] = files[left+i];`, the two indices moving together.
unfoldable pub copy_loop : ℕ → Files → ℕ → Files → ℕ → Outcome Files
copy_loop zero src p dst i = ok dst
copy_loop (suc n) src p dst i = do
  x ← load src p
  dst' ← store dst i x
  copy_loop n src (suc p) dst' (suc i)

-- `L[n1].cnt_key_word = -1;`
unfoldable pub set_sentinel : Files → ℕ → Outcome Files
set_sentinel a i = do x ← load a i; store a i (record x { cnt_key_word = negsuc 0 })

-- The loop over `k`, by the number of rounds left.
unfoldable pub merge_loop : ℕ → Files → Files → ℕ → ℕ → ℕ → Files → Outcome Files
merge_loop zero L R i j k files = ok files
merge_loop (suc n) L R i j k files = do
  l ← load L i
  r ← load R j
  elim (leb_ℤ r.cnt_key_word l.cnt_key_word) [
    | true ↦ store files k l >>= merge_loop n L R (suc i) j (suc k)
    | false ↦ store files k r >>= merge_loop n L R i (suc j) (suc k)
  ]

-- `input_number - 1`
abbrev pub last_index : ℕ → ℤ
last_index zero = negsuc 0
last_index (suc n) = pos n

module _ (has_room : ℕ → Bool) where
  unfoldable pub merge_segments : Files → ℕ → ℕ → ℕ → Outcome Files
  merge_segments files left mid right =
      let n1 = mid - left + 1 in
      let n2 = right - mid in
      do
        require (has_room (n1 + 1) && has_room (n2 + 1)) 1
        L ← copy_loop n1 files left (calloc (n1 + 1) zero_file) 0
        L' ← set_sentinel L n1
        R ← copy_loop n2 files (mid + 1) (calloc (n2 + 1) zero_file) 0
        R' ← set_sentinel R n2
        merge_loop (right + 1 - left) L' R' 0 0 left files

  -- `right` is -1 for an empty array. The fuel bounds the depth of the recursion.
  unfoldable pub merge_sort : ℕ → Files → ℕ → ℤ → Outcome Files
  merge_sort zero files left right = hang
  merge_sort (suc n) files left (negsuc right) = ok files
  merge_sort (suc n) files left (pos right) =
      let q = (left + right) / 2 in
      elim (ltb left right) [
        | false ↦ ok files
        | true ↦ (do
          files' ← merge_sort n files left (pos q)
          files'' ← merge_sort n files' (q + 1) (pos right)
          merge_segments files'' left q right)
      ]
