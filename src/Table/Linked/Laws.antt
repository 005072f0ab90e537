-- ===== src/Table/Linked/Laws.antt =====
-- p4-final/handin/list.c: each operation does to the chain in the heap what it should do to the list.
use sp.Base.{ℕ, zero, suc, ◌<◌, ◌≡◌, refl, some, List, [], ◌∷◌, arith, length, All, ok, update}
use sp.Table.Linked.{Ptr, Node, Heap, list_insert, list_lookup}
use sp.Table.Linked.Chain.{Entry, first, Linked, Avoids, IsList, Linked-agree, lookup_entry}

Avoids-agree :
    (h : Heap) (a : ℕ) (n : Node) (es : List Entry)
    → Avoids a es
    → All (λ e. update h a n e.addr ≡ h e.addr) es
Avoids-agree h a n [] v = tt
Avoids-agree h a n (e ∷ es) v = (ground arith, Avoids-agree h a n es v.1)

-- An insertion at a fresh address puts the new entry first, and changes no other node; without
-- memory nothing changes.
pub list_insert_lem :
    (h : Heap) (head : Ptr) (es : List Entry) (a : ℕ) (element : Ptr) (key : ℕ)
    → IsList h head es
    → Avoids a es
    → IsList
        (list_insert (some a) h head element key).0
        (list_insert (some a) h head element key).1
        (record { addr = a; key = key; element = element } ∷ es)
unfolding list_insert
list_insert_lem h head es a element key l v = record {
  starts = refl;
  linked = (
    rw l.starts (ground arith),
    Linked-agree (update h a _) h es (Avoids-agree h a _ es v) l.linked,
  );
  distinct = (v, l.distinct);
}

-- A lookup with a round for each node, and one more, finds the newest entry with the key.
pub list_lookup_lem :
    (n : ℕ) (h : Heap) (es : List Entry) (key : ℕ)
    → Linked h es
    → length es < n
    → list_lookup n h (first es) key ≡ ok (lookup_entry key es)
unfolding list_lookup
list_lookup_lem zero h es key l lt = absurd (omega arith)
list_lookup_lem (suc n) h [] key l lt = refl
list_lookup_lem (suc n) h (e ∷ es) key l lt =
    ground (arith, l.0, list_lookup_lem n h es key l.1 (omega arith))
