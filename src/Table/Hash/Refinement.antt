-- ===== src/Table/Hash/Refinement.antt =====
-- p4-final/handin/hash.c: the table is a map from keys to stacks of elements. An insertion pushes, a
-- deletion pops, a lookup reads the top, and no operation touches another key.
use sp.Base.{
  ℕ, ◌%◌, ◌<◌, ◌≡◌, ◌≢◌, ◌∙◌, refl, sym, subst, none, some, List, [], ◌∷◌, arith, ◌==◌, All, ok,
  update, if◌then◌else◌, ℕ_discrete,
}
use sp.Table.Linked.{Ptr, Heap}
use sp.Table.Linked.Chain.{Entry, Avoids, IsList, Linked-agree, lookup_entry, remove_entry}
use sp.Table.Linked.Delete.{remove_entry-Avoids}
use sp.Table.Hash.{Hash, hash_key}

-- The abstract table.
abbrev pub Stacks : Type 0
Stacks = ℕ → List Ptr

abbrev pub push : ℕ → Ptr → Stacks → Stacks
push key element m k = if key == k then element ∷ m k else m k

abbrev pub tail : List Ptr → List Ptr
tail [] = []
tail (x ∷ xs) = xs

abbrev pub pop : ℕ → Stacks → Stacks
pop key m k = if key == k then tail (m k) else m k

abbrev pub top : List Ptr → Ptr
top [] = none
top (x ∷ xs) = x

-- The elements of the entries with a key, newest first.
abbrev pub stack : ℕ → List Entry → List Ptr
stack k [] = []
stack k (e ∷ es) = if e.key == k then e.element ∷ stack k es else stack k es

-- No node of one list is a node of the other.
abbrev pub Apart : List Entry → List Entry → Type 0
Apart xs ys = All (λ e. Avoids e.addr ys) xs

abbrev pub AtHome : ℕ → ℕ → List Entry → Type 0
AtHome size b = All (λ e. e.key % size ≡ b)

-- The buckets are lists in one heap, which share no node, and each key is in its own bucket.
pub record IsTable (h : Heap) (t : Hash) (bs : ℕ → List Entry) : Type 0 where
  pub not_empty : 0 < t.size
  pub bucket : (b : ℕ) → b < t.size → (head : Ptr) × (t.heads b ≡ some head) × IsList h head (bs b)
  pub apart : (b c : ℕ) → b ≢ c → Apart (bs b) (bs c)
  pub home : (b : ℕ) → AtHome t.size b (bs b)

-- The table in the heap stands for the map from keys to stacks.
pub record Represents (h : Heap) (t : Hash) (m : Stacks) : Type 0 where
  pub buckets : ℕ → List Entry
  pub table : IsTable h t buckets
  pub stacks : (k : ℕ) → stack k (buckets (k % t.size)) ≡ m k

abbrev pub set_bucket : (ℕ → List Entry) → ℕ → List Entry → ℕ → List Entry
set_bucket bs b es c = if b == c then es else bs c

pub stack-lookup : (k : ℕ) (es : List Entry) → lookup_entry k es ≡ top (stack k es)
stack-lookup k [] = refl
stack-lookup k (e ∷ es) = ground (arith, stack-lookup k es)

pub stack-remove :
    (k key : ℕ) (es : List Entry)
    → stack k (remove_entry key es) ≡ (if key == k then tail (stack k es) else stack k es)
stack-remove k key [] = ground arith
stack-remove k key (e ∷ es) = ground (arith, stack-remove k key es)

pub hash_key_lem : (t : Hash) (key : ℕ) → 0 < t.size → hash_key t key ≡ ok (key % t.size)
unfolding hash_key
hash_key_lem t key h = ground arith

pub set_bucket_hit :
    (bs : ℕ → List Entry) (b c : ℕ) (es : List Entry) → b ≡ c → es ≡ set_bucket bs b es c
set_bucket_hit bs b c es e = ground arith

pub set_bucket_miss :
    (bs : ℕ → List Entry) (b c : ℕ) (es : List Entry) → b ≢ c → bs c ≡ set_bucket bs b es c
set_bucket_miss bs b c es ne = ground arith

-- A list in one heap is a list in another that agrees on its nodes.
IsList-agree :
    (h' h : Heap) (head : Ptr) (es : List Entry)
    → All (λ e. h' e.addr ≡ h e.addr) es
    → IsList h head es
    → IsList h' head es
IsList-agree h' h head es same l = record {
  starts = l.starts;
  linked = Linked-agree h' h es same l.linked;
  distinct = l.distinct;
}

-- One bucket of a table is replaced by a list whose nodes are its own.
module _ (h h' : Heap) (t : Hash) (bs : ℕ → List Entry) (tab : IsTable h t bs) (b : ℕ)
    (es : List Entry) (head : Ptr) (list : IsList h' head es) (home : AtHome t.size b es)
    (same : (c : ℕ) → b ≢ c → All (λ e. h' e.addr ≡ h e.addr) (bs c))
    (left : (c : ℕ) → b ≢ c → Apart es (bs c)) (right : (c : ℕ) → b ≢ c → Apart (bs c) es) where
  IsTable-bucket :
      (c : ℕ)
      → c < t.size
      → (x : Ptr) × (update t.heads b head c ≡ some x) × IsList h' x (set_bucket bs b es c)
  IsTable-bucket c lt = elim (ℕ_discrete b c) [
    | yes e ↦ (head, ground arith, subst (IsList h' head) (set_bucket_hit bs b c es e) list)
    | no ne ↦
        let (x, there, l) = tab.bucket c lt in
        (
          x,
          ground arith,
          subst (IsList h' x) (set_bucket_miss bs b c es ne)
              (IsList-agree h' h x (bs c) (same c ne) l),
        )
  ]

  IsTable-Apart : (c d : ℕ) → c ≢ d → Apart (set_bucket bs b es c) (set_bucket bs b es d)
  IsTable-Apart c d ne = elim (ℕ_discrete b c) [
    | yes e ↦
        let other : b ≢ d = λ q. ne (sym e ∙ q) in
        subst (λ xs. Apart xs (set_bucket bs b es d)) (set_bucket_hit bs b c es e)
          (subst (Apart es) (set_bucket_miss bs b d es other) (left d other))
    | no ec ↦
        subst (λ xs. Apart xs (set_bucket bs b es d)) (set_bucket_miss bs b c es ec)
          (elim (ℕ_discrete b d) [
            | yes e ↦ subst (Apart (bs c)) (set_bucket_hit bs b d es e) (right c ec)
            | no ed ↦ subst (Apart (bs c)) (set_bucket_miss bs b d es ed) (tab.apart c d ne)
          ])
  ]

  IsTable-AtHome : (c : ℕ) → AtHome t.size c (set_bucket bs b es c)
  IsTable-AtHome c = elim (ℕ_discrete b c) [
    | yes e ↦
        subst (AtHome t.size c) (set_bucket_hit bs b c es e)
          (subst (λ d. AtHome t.size d es) e home)
    | no ne ↦ subst (AtHome t.size c) (set_bucket_miss bs b c es ne) (tab.home c)
  ]

  pub IsTable-set_bucket :
      IsTable h' (record t { heads = update t.heads b head }) (set_bucket bs b es)
  IsTable-set_bucket = record {
    not_empty = tab.not_empty;
    bucket = IsTable-bucket;
    apart = IsTable-Apart;
    home = IsTable-AtHome;
  }

pub Apart-remove : (key : ℕ) (xs ys : List Entry) → Apart xs ys → Apart (remove_entry key xs) ys
Apart-remove key [] ys a = tt
Apart-remove key (e ∷ xs) ys a = ground (arith, Apart-remove key xs ys a.1)

pub AtHome-remove :
    (size b key : ℕ) (xs : List Entry) → AtHome size b xs → AtHome size b (remove_entry key xs)
AtHome-remove size b key [] a = tt
AtHome-remove size b key (e ∷ xs) a = ground (arith, AtHome-remove size b key xs a.1)

-- A heap that only differs on some nodes agrees on the lists that are apart from them.
pub Apart-agree :
    (h' h : Heap) (xs ys : List Entry)
    → ((a : ℕ) → Avoids a ys → h' a ≡ h a)
    → Apart xs ys
    → All (λ e. h' e.addr ≡ h e.addr) xs
Apart-agree h' h [] ys same a = tt
Apart-agree h' h (e ∷ xs) ys same a = (same e.addr a.0, Apart-agree h' h xs ys same a.1)

pub Avoids-agree :
    (h' h : Heap) (x : ℕ) (xs : List Entry)
    → ((a : ℕ) → x ≢ a → h' a ≡ h a)
    → Avoids x xs
    → All (λ e. h' e.addr ≡ h e.addr) xs
Avoids-agree h' h x [] same v = tt
Avoids-agree h' h x (e ∷ xs) same v =
    (same e.addr (λ q. v.0 (sym q)), Avoids-agree h' h x xs same v.1)

pub Apart-remove_right :
    (key : ℕ) (xs ys : List Entry) → Apart xs ys → Apart xs (remove_entry key ys)
Apart-remove_right key [] ys a = tt
Apart-remove_right key (e ∷ xs) ys a =
    (remove_entry-Avoids key e.addr ys a.0, Apart-remove_right key xs ys a.1)

pub Apart-cons :
    (xs ys : List Entry) (e : Entry) → Avoids e.addr xs → Apart xs ys → Apart xs (e ∷ ys)
Apart-cons [] ys e v a = tt
Apart-cons (x ∷ xs) ys e v a = ((λ q. v.0 (sym q), a.0), Apart-cons xs ys e v.1 a.1)
