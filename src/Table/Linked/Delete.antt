-- ===== src/Table/Linked/Delete.antt =====
-- p4-final/handin/list.c: `List_Delete` takes the newest entry with the key out of the chain, and
-- frees its node.
use sp.Base.{
  ℕ, zero, suc, ◌<◌, ◌≡◌, ◌≢◌, refl, sym, inl, inr, true, false, none, some, List, [], ◌∷◌, arith,
  Bool-cases, ◌==◌, length, All, Outcome, ok, update, if◌then◌else◌,
}
use sp.Table.Linked.{Ptr, Heap, free, unlink, delete_loop, list_delete}
use sp.Table.Linked.Chain.{
  Entry, first, node_of, Linked, Avoids, Distinct, IsList, Linked-agree, remove_entry, victim,
}

-- The heap after the node `e` is unlinked from behind the node `p`.
abbrev bypass : Heap → Entry → Ptr → ℕ → Heap
bypass h p next a j = if a == j then none else update h p.addr (node_of p next) j

-- The loop returns the same head. Behind the node `p` the chain has lost the entry, whose node is
-- free; other nodes are as before.
record Deletes (h : Heap) (head : Ptr) (p : Entry) (es : List Entry) (key : ℕ)
    (r : Outcome (Heap × Ptr)) : Type 0 where
  final : Heap
  returns : r ≡ ok (final, head)
  before : final p.addr ≡ some (node_of p (first (remove_entry key es)))
  linked : Linked final (remove_entry key es)
  freed : (a : ℕ) → victim key es ≡ some a → final a ≡ none
  outside : (a : ℕ) → a ≢ p.addr → Avoids a es → final a ≡ h a

unlink_lem :
    (h : Heap) (head p e : Entry) (next : Ptr) (x : Ptr)
    → head.addr ≢ e.addr
    → h p.addr ≡ some (node_of p x)
    → unlink h (some head.addr) (some p.addr) e.addr next
      ≡ ok (bypass h p next e.addr, some head.addr)
unfolding unlink
unlink_lem h head p e next x ne at = ground arith

Avoids-bypass :
    (h : Heap) (p : Entry) (next : Ptr) (a : ℕ) (es : List Entry)
    → Avoids p.addr es
    → Avoids a es
    → All (λ e. bypass h p next a e.addr ≡ h e.addr) es
Avoids-bypass h p next a [] u v = tt
Avoids-bypass h p next a (e ∷ es) u v = (ground arith, Avoids-bypass h p next a es u.1 v.1)

module _ (n : ℕ) (h : Heap) (head p e : Entry) (es : List Entry) (key : ℕ)
    (at : h p.addr ≡ some (node_of p (some e.addr))) (l : Linked h (e ∷ es)) (d : Distinct (e ∷ es))
    (vp : Avoids p.addr (e ∷ es)) (vh : Avoids head.addr (e ∷ es)) where
  delete_loop_hit :
      (e.key == key) ≡ true
      → Deletes h
          (some head.addr)
          p
          (e ∷ es)
          key
          (delete_loop (suc n) h (some head.addr) (some p.addr) (some e.addr) key)
  delete_loop_hit hit = record {
    final = bypass h p (first es) e.addr;
    returns =
        unfold delete_loop in
        ground (arith, l.0, unlink_lem h head p e (first es) (some e.addr) (λ q. vh.0 (sym q)) at);
    before = ground (arith, vp.0);
    linked = ground (
      arith,
      Linked-agree (bypass h p (first es) e.addr) h es
          (Avoids-bypass h p (first es) e.addr es vp.1 d.0) l.1,
    );
    freed = λ a q. ground arith;
    outside = λ a u v. ground (arith, v.0);
  }

  delete_loop_miss :
      (e.key == key) ≡ false
      → Deletes h
          (some head.addr)
          e
          es
          key
          (delete_loop n h (some head.addr) (some e.addr) (first es) key)
      → Deletes h
          (some head.addr)
          p
          (e ∷ es)
          key
          (delete_loop (suc n) h (some head.addr) (some p.addr) (some e.addr) key)
  delete_loop_miss miss r = record {
    final = r.final;
    returns = unfold delete_loop in ground (arith, l.0, r.returns);
    before = ground (arith, r.outside p.addr (λ q. vp.0 (sym q)) vp.1);
    linked = ground (arith, r.before, r.linked);
    freed = λ a q. r.freed a (ground arith);
    outside = λ a u v. r.outside a (λ q. v.0 (sym q)) v.1;
  }

delete_loop_lem :
    (n : ℕ) (h : Heap) (head p : Entry) (es : List Entry) (key : ℕ)
    → length es < n
    → h p.addr ≡ some (node_of p (first es))
    → Linked h es
    → Distinct es
    → Avoids p.addr es
    → Avoids head.addr es
    → Deletes h
        (some head.addr)
        p
        es
        key
        (delete_loop n h (some head.addr) (some p.addr) (first es) key)
delete_loop_lem zero h head p es key lt at l d vp vh = absurd (omega arith)
delete_loop_lem (suc n) h head p [] key lt at l d vp vh = record {
  final = h;
  returns = unfold delete_loop in refl;
  before = at;
  linked = tt;
  freed = λ a q. cc;
  outside = λ a u v. refl;
}
delete_loop_lem (suc n) h head p (e ∷ es) key lt at l d vp vh = elim (Bool-cases (e.key == key)) [
  | inl hit ↦ delete_loop_hit n h head p e es key at l d vp vh hit
  | inr miss ↦
      delete_loop_miss n h head p e es key at l d vp vh miss
        (delete_loop_lem n h head e es key (omega arith) l.0 l.1 d.1 d.0 vh.1)
]

-- What a run of `List_Delete` leaves: the list without the newest entry with the key, its node free,
-- and every address that is not the list's as it was.
pub record Removes (h : Heap) (es : List Entry) (key : ℕ) (r : Outcome (Heap × Ptr)) : Type 0 where
  pub final : Heap
  pub head : Ptr
  pub returns : r ≡ ok (final, head)
  pub list : IsList final head (remove_entry key es)
  pub freed : (a : ℕ) → victim key es ≡ some a → final a ≡ none
  pub outside : (a : ℕ) → Avoids a es → final a ≡ h a

pub remove_entry-Avoids :
    (key a : ℕ) (es : List Entry) → Avoids a es → Avoids a (remove_entry key es)
remove_entry-Avoids key a [] v = tt
remove_entry-Avoids key a (e ∷ es) v = ground (arith, remove_entry-Avoids key a es v.1)

remove_entry-Distinct : (key : ℕ) (es : List Entry) → Distinct es → Distinct (remove_entry key es)
remove_entry-Distinct key [] d = tt
remove_entry-Distinct key (e ∷ es) d =
    ground (arith, remove_entry-Avoids key e.addr es d.0, remove_entry-Distinct key es d.1)

Avoids-free :
    (h : Heap) (a : ℕ) (es : List Entry) → Avoids a es → All (λ e. free h a e.addr ≡ h e.addr) es
unfolding free
Avoids-free h a [] v = tt
Avoids-free h a (e ∷ es) v = (ground arith, Avoids-free h a es v.1)

-- On a list in the heap `List_Delete`, given a round for each node and one more, ends; it takes out
-- the newest entry with the key, wherever it stands, frees its node, and leaves every address that
-- is not the list's as it was; without such an entry the list stays as it is.
pub list_delete_lem :
    (n : ℕ) (h : Heap) (head : Ptr) (es : List Entry) (key : ℕ)
    → IsList h head es
    → length es < n
    → Removes h es key (list_delete n h head key)
list_delete_lem zero h head es key l lt = absurd (omega arith)
list_delete_lem (suc n) h head [] key l lt = record {
  final = h;
  head = none;
  returns = unfold list_delete in rw l.starts refl;
  list = record { starts = refl; linked = tt; distinct = tt };
  freed = λ a q. cc;
  outside = λ a v. refl;
}
list_delete_lem (suc n) h head (e ∷ es) key l lt = elim (Bool-cases (e.key == key)) [
  | inl hit ↦ record {
    final = free h e.addr;
    head = first es;
    returns = unfold list_delete unlink in rw l.starts (ground (arith, l.linked.0));
    list = record {
      starts = ground arith;
      linked = ground (
        arith,
        Linked-agree (free h e.addr) h es (Avoids-free h e.addr es l.distinct.0) l.linked.1,
      );
      distinct = ground (arith, l.distinct.1);
    };
    freed = λ a q. unfold free in ground arith;
    outside = λ a v. unfold free in ground (arith, v.0);
  }
  | inr miss ↦
      let r =
        delete_loop_lem n h e e es key (omega arith) l.linked.0 l.linked.1 l.distinct.1 l.distinct.0
          l.distinct.0 in
      record {
        final = r.final;
        head = some e.addr;
        returns = unfold list_delete in rw l.starts (ground (arith, l.linked.0, r.returns));
        list = record {
          starts = ground arith;
          linked = ground (arith, r.before, r.linked);
          distinct = ground (
            arith,
            remove_entry-Avoids key e.addr es l.distinct.0,
            remove_entry-Distinct key es l.distinct.1,
          );
        };
        freed = λ a q. r.freed a (ground arith);
        outside = λ a v. r.outside a (λ q. v.0 (sym q)) v.1;
      }
]
