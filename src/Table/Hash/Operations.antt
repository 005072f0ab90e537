-- ===== src/Table/Hash/Operations.antt =====
-- p4-final/handin/hash.c: each operation of the table refines the one on the map of stacks.
use sp.Base.{
  ℕ, ◌%◌, ◌≤◌, ◌<◌, ◌≡◌, ◌≢◌, ◌∙◌, refl, sym, ap, subst, none, some, List, [], ◌∷◌, arith, length,
  Outcome, ok, update, ℕ_discrete, dec_lt,
}
use sp.Table.Linked.{Ptr, Heap, list_insert, list_delete, list_lookup}
use sp.Table.Linked.Chain.{Entry, Linked, Avoids, IsList, remove_entry}
use sp.Table.Linked.Laws.{list_insert_lem, list_lookup_lem}
use sp.Table.Linked.Delete.{Removes, list_delete_lem}
use sp.Table.Hash.{Hash, hash_key, hash_insert, hash_delete, hash_lookup}
use sp.Table.Hash.Refinement.{
  Stacks, push, pop, top, stack, AtHome, Represents, set_bucket, stack-lookup, stack-remove,
  hash_key_lem, set_bucket_hit, set_bucket_miss, IsTable-set_bucket, Apart-remove, AtHome-remove,
  Apart-agree, Avoids-agree, Apart-remove_right, Apart-cons,
}

-- The run ends, with a table of as many buckets that stands for `m`.
pub record Yields (t : Hash) (m : Stacks) (r : Outcome (Heap × Hash)) : Type 0 where
  pub heap : Heap
  pub after : Hash
  pub returns : r ≡ ok (heap, after)
  pub represents : Represents heap after m
  pub same_size : after.size ≡ t.size

-- An address without a node is no entry's.
unused : (h : Heap) (a : ℕ) (es : List Entry) → h a ≡ none → Linked h es → Avoids a es
unused h a [] free l = tt
unused h a (e ∷ es) free l = (λ q. ground (arith, l.0), unused h a es free l.1)

-- No key is at home in a bucket beyond the last, so nothing is there.
beyond : (a size c : ℕ) (es : List Entry) → 0 < size → size ≤ c → AtHome size c es → Avoids a es
beyond a size c [] pos out at = tt
beyond a size c (e ∷ es) pos out at =
    let small : e.key % size < size = grind arith in absurd (omega (arith, at.0))

module _ (h : Heap) (t : Hash) (m : Stacks) (rep : Represents h t m) (key : ℕ) where
  open rep use {buckets, table, stacks}

  abbrev b : ℕ
  b = key % t.size

  in_range : b < t.size
  in_range = let pos = table.not_empty in grind arith

  -- The head of the bucket of the key.
  found : (head : Ptr) × (t.heads b ≡ some head) × IsList h head (buckets b)
  found = table.bucket b in_range

  head_at : hash_key t key ≡ ok b
  head_at = hash_key_lem t key table.not_empty

  fresh_everywhere : (a c : ℕ) → h a ≡ none → Avoids a (buckets c)
  fresh_everywhere a c free = elim (dec_lt c t.size) [
    | yes lt ↦ unused h a (buckets c) free (table.bucket c lt).2.linked
    | no out ↦ beyond a t.size c (buckets c) table.not_empty (omega arith) (table.home c)
  ]

  -- A change of the bucket's stacks is a change of the map.
  stacks_after :
      (es : List Entry) (m' : Stacks)
      → ((k : ℕ) → b ≡ k % t.size → stack k es ≡ m' k)
      → ((k : ℕ) → key ≢ k → m' k ≡ m k)
      → (k : ℕ) → stack k (set_bucket buckets b es (k % t.size)) ≡ m' k
  stacks_after es m' here there k = elim (ℕ_discrete b (k % t.size)) [
    | yes e ↦
        subst (λ xs. stack k xs ≡ m' k) (set_bucket_hit buckets b (k % t.size) es e) (here k e)
    | no ne ↦
        subst (λ xs. stack k xs ≡ m' k) (set_bucket_miss buckets b (k % t.size) es ne)
          (stacks k ∙ sym (there k (λ q. ne (ap (λ x. x % t.size) q))))
  ]

  -- Where the table stands for a map of stacks, a lookup that is given a round for each entry of
  -- the bucket, and one more, ends with the top of the stack of the key, or null if that is empty.
  pub hash_lookup_lem : (n : ℕ) → length (buckets b) < n → hash_lookup n h t key ≡ ok (top (m key))
  hash_lookup_lem n lt =
      let pos = table.not_empty in
      let run : hash_lookup n h t key ≡ list_lookup n h found.0 key =
        unfold hash_lookup in ground (arith, found.1) in
      run
      ∙ rw found.2.starts (list_lookup_lem n h (buckets b) key found.2.linked lt)
      ∙ ap ok (stack-lookup key (buckets b) ∙ ap top (stacks key))

  -- Where the table stands for a map of stacks, a deletion that is given a round for each entry of
  -- the bucket, and one more, ends, and the new table, of the same size, stands for the map with
  -- the stack of the key popped, if it has an element, and the others as before.
  pub hash_delete_lem :
      (n : ℕ) → length (buckets b) < n → Yields t (pop key m) (hash_delete n h t key)
  hash_delete_lem n lt = record {
    heap = r.final;
    after = record t { heads = update t.heads b r.head };
    returns = let pos = table.not_empty in unfold hash_delete in ground (arith, found.1, r.returns);
    represents = record {
      buckets = set_bucket buckets b es;
      table =
          IsTable-set_bucket h r.final t buckets table b es r.head r.list
            (AtHome-remove t.size b key (buckets b) (table.home b))
            (λ c ne.
              Apart-agree r.final h (buckets c) (buckets b) r.outside
                (table.apart c b (λ q. ne (sym q))))
            (λ c ne. Apart-remove key (buckets b) (buckets c) (table.apart b c ne))
            (λ c ne.
              Apart-remove_right key (buckets c) (buckets b) (table.apart c b (λ q. ne (sym q))));
      stacks =
          stacks_after es (pop key m)
            (λ k e.
              ground
                (arith, stack-remove k key (buckets b), ap (λ c. stack k (buckets c)) e, stacks k))
            (λ k ne. ground arith);
    };
    same_size = refl;
  }
    where
      es : List Entry
      es = remove_entry key (buckets b)

      r : Removes h (buckets b) key (list_delete n h found.0 key)
      r = list_delete_lem n h found.0 (buckets b) key found.2 lt

  -- Where the table in the heap stands for a map from keys to stacks of elements, an insertion at
  -- an address without a node ends, and the new table, of the same size, stands for the map with
  -- the element pushed on the stack of the key; the other stacks are as before.
  pub hash_insert_lem :
      (a : ℕ) (element : Ptr)
      → h a ≡ none
      → Yields t (push key element m) (hash_insert (some a) h t element key)
  hash_insert_lem a element free = record {
    heap = h';
    after = record t { heads = update t.heads b (some a) };
    returns =
        let pos = table.not_empty in unfold hash_insert list_insert in ground (arith, found.1);
    represents = record {
      buckets = set_bucket buckets b (e ∷ buckets b);
      table =
          IsTable-set_bucket h h' t buckets table b (e ∷ buckets b) (some a)
            (unfold list_insert in
              list_insert_lem h found.0 (buckets b) a element key found.2
                (fresh_everywhere a b free))
            (refl, table.home b)
            (λ c ne.
              Avoids-agree h' h a (buckets c) (λ x q. ground arith) (fresh_everywhere a c free))
            (λ c ne. (fresh_everywhere a c free, table.apart b c ne))
            (λ c ne.
              Apart-cons (buckets c) (buckets b) e (fresh_everywhere a c free)
                (table.apart c b (λ q. ne (sym q))));
      stacks =
          stacks_after (e ∷ buckets b) (push key element m)
            (λ k q. ground (arith, ap (λ c. stack k (buckets c)) q, stacks k))
            (λ k ne. ground arith);
    };
    same_size = refl;
  }
    where
      e : Entry
      e = record { addr = a; key = key; element = element }

      h' : Heap
      h' = update h a (record { key = key; element = element; next = found.0 })

  -- Where the table stands for a map of stacks, an insertion for which `malloc` returns null ends,
  -- and the table, of the same size, stands for the same map.
  hash_insert_full : (element : Ptr) → Yields t m (hash_insert none h t element key)
  hash_insert_full element = record {
    heap = h;
    after = record t { heads = update t.heads b found.0 };
    returns =
        let pos = table.not_empty in unfold hash_insert list_insert in ground (arith, found.1);
    represents = record {
      buckets = set_bucket buckets b (buckets b);
      table =
          IsTable-set_bucket h h t buckets table b (buckets b) found.0 found.2 (table.home b)
            (λ c ne.
              Apart-agree h h (buckets c) (buckets b) (λ x v. refl)
                (table.apart c b (λ q. ne (sym q))))
            (λ c ne. table.apart b c ne) (λ c ne. table.apart c b (λ q. ne (sym q)));
      stacks =
          stacks_after (buckets b) m (λ k e. ap (λ c. stack k (buckets c)) e ∙ stacks k)
            (λ k ne. refl);
    };
    same_size = refl;
  }
