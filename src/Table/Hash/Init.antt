-- ===== src/Table/Hash/Init.antt =====
-- p4-final/handin/hash.c: `Hash_Init` makes a table without entries, or writes through a null pointer.
use sp.Base.{
  ℕ, zero, suc, ◌+◌, ◌≤◌, ◌<◌, ◌≡◌, ◌∙◌, refl, Bool, true, false, none, some, [], arith, ok, fault,
  ◌>>=◌, Array, Room, Room-update, Room-calloc, store_lem, update, calloc, dec_lt,
}
use sp.Table.Linked.{Ptr, Heap, list_init}
use sp.Table.Hash.{Hash, init_loop, hash_init}
use sp.Table.Hash.Refinement.{Represents, Stacks}

-- The loop leaves an empty list in every bucket from `i` on, and the ones before as they were.
record Inits (n i : ℕ) (heads : Array Ptr) : Type 0 where
  final : Array Ptr
  returns : init_loop n i heads ≡ ok final
  emptied : (j : ℕ) → i ≤ j → j < i + n → final j ≡ some none
  before : (j : ℕ) → j < i → final j ≡ heads j

init_loop_step :
    (n i : ℕ) (heads : Array Ptr) {x : Ptr}
    → heads i ≡ some x
    → Inits n (suc i) (update heads i none)
    → Inits (suc n) i heads
unfolding init_loop list_init
init_loop_step n i heads at r = record {
  final = r.final;
  returns = rw (store_lem heads i none at, ◌>>=◌) r.returns;
  emptied = λ j ge lt. elim (dec_lt i j) [
    | yes more ↦ r.emptied j more (omega arith)
    | no same ↦ r.before j (omega arith) ∙ ground arith
  ];
  before = λ j lt. r.before j (omega arith) ∙ ground arith;
}

init_loop_lem : (n i : ℕ) (heads : Array Ptr) → Room heads i n → Inits n i heads
unfolding init_loop
init_loop_lem zero i heads room = record {
  final = heads;
  returns = refl;
  emptied = λ j ge lt. absurd (omega arith);
  before = λ j lt. refl;
}
init_loop_lem (suc n) i heads ((x, at), room) =
    init_loop_step n i heads at
      (init_loop_lem n (suc i) (update heads i none) (Room-update heads (suc i) n i none room))

abbrev pub no_stacks : Stacks
no_stacks k = []

-- With at least one bucket and memory for the array, `Hash_Init` ends with a table of that size
-- that stands for the map in which every stack is empty.
hash_init_lem :
    (has_room : ℕ → Bool) (buckets : ℕ) (h : Heap)
    → 0 < buckets
    → has_room buckets ≡ true
    → (t : Hash) × (hash_init has_room buckets ≡ ok t)
      × (t.size ≡ buckets)
      × Represents h t no_stacks
unfolding hash_init
hash_init_lem has_room buckets h pos room = (
  record { size = buckets; heads = r.final },
  rw room (rw (r.returns, ◌>>=◌) refl),
  refl,
  record {
    buckets = λ b. [];
    table = record {
      not_empty = pos;
      bucket = λ b lt. (
        none,
        r.emptied b (omega arith) (omega arith),
        record { starts = refl; linked = tt; distinct = tt },
      );
      apart = λ b c ne. tt;
      home = λ b. tt;
    };
    stacks = λ k. refl;
  },
)
  where
    r : Inits buckets 0 (calloc buckets none)
    r =
        init_loop_lem buckets 0 (calloc buckets none)
          (Room-calloc buckets 0 buckets none (omega arith))

-- Without memory for the array `Hash_Init` writes the first bucket through a null pointer.
pub hash_init_no_room :
    (has_room : ℕ → Bool) (buckets : ℕ)
    → 0 < buckets
    → has_room buckets ≡ false
    → hash_init has_room buckets ≡ fault
unfolding hash_init
hash_init_no_room has_room zero pos full = absurd (omega arith)
hash_init_no_room has_room (suc n) pos full = rw full refl
