-- ===== src/Table/Hash.antt =====
-- p4-final/handin/hash.c: a fixed number of buckets, each a list of list.c, all in one heap. `heads`
-- is the array of buckets; a failed `calloc` leaves a pointer to no element. Keys are `unsigned int`.
pub mod Refinement
pub mod Operations
pub mod Init
use sp.Base.{
  ℕ, zero, suc, ◌%◌, Bool, true, false, Option, none, ◌==◌, if◌then◌else◌, Outcome, ok, fault,
  ◌>>=◌, Array, load, store, calloc,
}
use sp.Table.Linked.{Ptr, Heap, list_init, list_insert, list_delete, list_lookup}

pub record Hash : Type 0 where
  pub size : ℕ
  pub heads : Array Ptr

-- The loop of `Hash_Init` that calls `List_Init` on each bucket.
unfoldable pub init_loop : ℕ → ℕ → Array Ptr → Outcome (Array Ptr)
init_loop zero i heads = ok heads
init_loop (suc n) i heads = do heads' ← store heads i list_init; init_loop n (suc i) heads'

unfoldable pub hash_init : (has_room : ℕ → Bool) → ℕ → Outcome Hash
unfolding init_loop
hash_init has_room buckets = do
  heads ← init_loop buckets 0 (if has_room buckets then calloc buckets none else λ i. none)
  ok (record { size = buckets; heads = heads })

-- `key % hash->size`, which is undefined for a table with no bucket.
unfoldable pub hash_key : Hash → ℕ → Outcome ℕ
hash_key t key = if t.size == 0 then fault else ok (key % t.size)

-- `fresh` is what `malloc` returns.
unfoldable pub hash_insert : Ptr → Heap → Hash → Ptr → ℕ → Outcome (Heap × Hash)
unfolding hash_key
hash_insert fresh h t element key = do
  b ← hash_key t key
  head ← load t.heads b
  heads ← store t.heads b (list_insert fresh h head element key).1
  ok ((list_insert fresh h head element key).0, record t { heads = heads })

unfoldable pub hash_delete : ℕ → Heap → Hash → ℕ → Outcome (Heap × Hash)
unfolding hash_key
hash_delete n h t key = do
  b ← hash_key t key
  head ← load t.heads b
  (h', head') ← list_delete n h head key
  heads ← store t.heads b head'
  ok (h', record t { heads = heads })

unfoldable pub hash_lookup : ℕ → Heap → Hash → ℕ → Outcome Ptr
unfolding hash_key
hash_lookup n h t key = do b ← hash_key t key; head ← load t.heads b; list_lookup n h head key
