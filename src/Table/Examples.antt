-- ===== src/Table/Examples.antt =====
-- p4-final/handin/hash.c and list.c: tests, and the theorems at concrete inputs.
use sp.Base.{
  ℕ, zero, suc, ◌==◌, if◌then◌else◌, ◌%◌, ◌<◌, ◌≡◌, refl, false, none, some, List, [], ◌∷◌, arith,
  ok, fault,
}
use sp.Table.Linked.{Ptr, Heap, list_insert, list_delete, list_lookup}
use sp.Table.Linked.Chain.{Entry, IsList}
use sp.Table.Linked.Laws.{list_lookup_lem}
use sp.Table.Linked.Delete.{Removes, list_delete_lem}
use sp.Table.Hash.{Hash, hash_init, hash_insert, hash_delete, hash_lookup}
use sp.Table.Hash.Refinement.{IsTable, Represents, Stacks, stack, push, pop}
use sp.Table.Hash.Operations.{Yields, hash_insert_lem, hash_delete_lem, hash_lookup_lem}
use sp.Table.Hash.Init.{hash_init_no_room}

-- Keys 3, 5 and 3 again.
abbrev three : List Entry
three =
    record { addr = 10; key = 3; element = some 1 }
    ∷ record { addr = 20; key = 5; element = some 2 }
    ∷ record { addr = 30; key = 3; element = some 4 }
    ∷ []

abbrev no_heap : Heap
no_heap a = none

abbrev h1 : Heap
h1 = (list_insert (some 30) no_heap none (some 4) 3).0

abbrev h2 : Heap
h2 = (list_insert (some 20) h1 (some 30) (some 2) 5).0

abbrev h3 : Heap
h3 = (list_insert (some 10) h2 (some 20) (some 1) 3).0

three-IsList : IsList h3 (some 10) three
unfolding list_insert
three-IsList = record { starts = refl; linked = (refl, (refl, (refl, tt))); distinct = omega arith }

list_delete_lem_example : Removes h3 three 5 (list_delete 4 h3 (some 10) 5)
list_delete_lem_example = list_delete_lem 4 h3 (some 10) three 5 three-IsList (omega arith)

list_lookup_lem_example : list_lookup 4 h3 (some 10) 5 ≡ ok (some 2)
list_lookup_lem_example = list_lookup_lem 4 h3 three 5 three-IsList.linked (omega arith)

hash_init_no_room_example : hash_init (λ n. false) 2 ≡ fault
hash_init_no_room_example = hash_init_no_room (λ n. false) 2 (omega arith) refl

-- Two buckets, and the key 3 in the second.
abbrev entry : Entry
entry = record { addr = 10; key = 3; element = some 1 }

abbrev table : Hash
table = record {
  size = 2;
  heads = λ i. if i == 0 then some none else if i == 1 then some (some 10) else none;
}

abbrev heap : Heap
heap = (list_insert (some 10) no_heap none (some 1) 3).0

abbrev buckets : ℕ → List Entry
buckets b = if b == 1 then entry ∷ [] else []

table-IsTable : IsTable heap table buckets
unfolding list_insert
table-IsTable = record {
  not_empty = omega arith;
  bucket = bucket;
  apart = λ b c ne. ground arith;
  home = λ b. ground arith;
}
  where
    bucket :
        (b : ℕ) → b < 2 → (head : Ptr) × (table.heads b ≡ some head) × IsList heap head (buckets b)
    bucket zero lt = (none, refl, record { starts = refl; linked = tt; distinct = tt })
    bucket (suc zero) lt =
        (some 10, refl, record { starts = refl; linked = (refl, tt); distinct = (tt, tt) })
    bucket (suc (suc b)) lt = absurd (omega arith)

abbrev one_stack : Stacks
one_stack k = stack k (buckets (k % 2))

abbrev table-Represents : Represents heap table one_stack
table-Represents = record { buckets = buckets; table = table-IsTable; stacks = λ k. refl }

hash_lookup_lem_example : hash_lookup 2 heap table 3 ≡ ok (some 1)
hash_lookup_lem_example = hash_lookup_lem heap table one_stack table-Represents 3 2 (omega arith)

hash_delete_lem_example : Yields table (pop 3 one_stack) (hash_delete 2 heap table 3)
hash_delete_lem_example = hash_delete_lem heap table one_stack table-Represents 3 2 (omega arith)

hash_insert_lem_example :
    Yields table (push 5 (some 8) one_stack) (hash_insert (some 20) heap table (some 8) 5)
unfolding list_insert
hash_insert_lem_example = hash_insert_lem heap table one_stack table-Represents 5 20 (some 8) refl
