-- ===== src/Server/Queue/Link.antt =====
-- p5/server.c: linking a node into the chain on the heap.
use sp.Base.{
  ℕ, zero, suc, ◌<◌, ◌≡◌, ◌≢◌, ◌∙◌, refl, sym, subst, Bool, true, false, some, List, [], ◌∷◌, ◌++◌,
  arith, ℤ, length, Outcome, ok, ◌>>=◌, load, update, update_hit, update_miss, Bool-cases, inl, inr,
}
use sp.Server.Queue.{Heap, Waiting, seek, link_behind, link_last}
use sp.Server.Queue.Insert.{passes}
use sp.Server.Queue.Chain.{
  Entry, last_addr, linked_cell, Linked, Linked-update, Avoids, Distinct, insert_within,
}

-- From `s` on the chain holds `es'`, and only the nodes of `s ∷ es` and the new one were written.
pub record Pushed (q : Waiting) (s : Entry) (es es' : List Entry) (a : ℕ) (r : Outcome Waiting)
    : Type 0 where
  pub after : Waiting
  pub returns : r ≡ ok after
  pub same_head : after.head ≡ q.head
  pub ends : after.tail ≡ last_addr s es'
  pub linked : Linked after.heap (s ∷ es')
  pub outside : (x : ℕ) → x ≢ a → Avoids x (s ∷ es) → after.heap x ≡ q.heap x

-- The heap with `new` linked in between `s` and `es`.
abbrev with_new : Heap → Entry → Entry → List Entry → Heap
with_new h s new es =
    update (update h new.addr (linked_cell new es)) s.addr (linked_cell s (new ∷ es))

with_new_lem :
    (h : Heap) (s new : Entry) (es : List Entry)
    → Linked h es
    → Avoids s.addr es
    → Avoids new.addr (s ∷ es)
    → Linked (with_new h s new es) (s ∷ new ∷ es)
with_new_lem h s new es l d v = (
  update_hit (update h new.addr (linked_cell new es)) s.addr (linked_cell s (new ∷ es)),
  (
    update_miss (update h new.addr (linked_cell new es)) s.addr new.addr (linked_cell s (new ∷ es))
          v.0
        ∙ update_hit h new.addr (linked_cell new es),
    Linked-update (update h new.addr (linked_cell new es)) s.addr (linked_cell s (new ∷ es)) es d
        (Linked-update h new.addr (linked_cell new es) es v.1 l),
  ),
)

with_new-outside :
    (h : Heap) (s new : Entry) (es : List Entry) (x : ℕ)
    → x ≢ new.addr
    → s.addr ≢ x
    → with_new h s new es x ≡ h x
with_new-outside h s new es x p q = ground arith

abbrev new_tail : Waiting → ℕ → List Entry → ℕ
new_tail q a [] = a
new_tail q a (e ∷ es) = q.tail

link_behind-runs :
    (q : Waiting) (s new : Entry) (es : List Entry)
    → q.heap s.addr ≡ some (linked_cell s es)
    → s.addr ≢ new.addr
    → link_behind q new.addr new.request s.addr
      ≡ ok (record q { heap = with_new q.heap s new es; tail = new_tail q new.addr es })
unfolding link_behind
link_behind-runs q s new [] l v = ground (arith, l)
link_behind-runs q s new (e ∷ es) l v = ground (arith, l)

new_tail_lem :
    (q : Waiting) (s new : Entry) (es : List Entry)
    → q.tail ≡ last_addr s es
    → new_tail q new.addr es ≡ last_addr new es
new_tail_lem q s new [] t = refl
new_tail_lem q s new (e ∷ es) t = t

link_behind_lem :
    (q : Waiting) (s new : Entry) (es : List Entry)
    → Linked q.heap (s ∷ es)
    → Distinct (s ∷ es)
    → Avoids new.addr (s ∷ es)
    → q.tail ≡ last_addr s es
    → Pushed q s es (new ∷ es) new.addr (link_behind q new.addr new.request s.addr)
link_behind_lem q s new es l d v t = record {
  after = record q { heap = with_new q.heap s new es; tail = new_tail q new.addr es };
  returns = link_behind-runs q s new es l.0 v.0;
  same_head = refl;
  ends = new_tail_lem q s new es t;
  linked = with_new_lem q.heap s new es l.1 d.0 v;
  outside = λ x p u. with_new-outside q.heap s new es x p u.0;
}

-- What was done behind `e` seen from the node before it.
Pushed-behind :
    (q : Waiting) (s e : Entry) (es es' : List Entry) (a : ℕ) (r : Outcome Waiting)
    → Linked q.heap (s ∷ e ∷ es)
    → Distinct (s ∷ e ∷ es)
    → s.addr ≢ a
    → Pushed q e es es' a r
    → Pushed q s (e ∷ es) (e ∷ es') a r
Pushed-behind q s e es es' a r l d v p = record {
  after = p.after;
  returns = p.returns;
  same_head = p.same_head;
  ends = p.ends;
  linked = (p.outside s.addr v d.0 ∙ l.0, p.linked);
  outside = λ x u w. p.outside x u w.1;
}

seek_past :
    (n : ℕ) (within : ℕ → Bool) (h : Heap) (count : ℕ) (s e new : Entry) (es : List Entry)
    → Linked h (s ∷ e ∷ es)
    → passes within count new e ≡ true
    → seek (suc n) within h s.addr count new.request.st_size
      ≡ seek n within h e.addr (suc count) new.request.st_size
unfolding seek
seek_past n within h count s e new es l p = ground (arith, l.0, l.1.0, p)

seek_stop :
    (n : ℕ) (within : ℕ → Bool) (h : Heap) (count : ℕ) (s e new : Entry) (es : List Entry)
    → Linked h (s ∷ e ∷ es)
    → passes within count new e ≡ false
    → seek (suc n) within h s.addr count new.request.st_size ≡ ok s.addr
unfolding seek
seek_stop n within h count s e new es l p = ground (arith, l.0, l.1.0, p)

seek_end :
    (n : ℕ) (within : ℕ → Bool) (h : Heap) (count : ℕ) (s : Entry) (size : ℤ)
    → Linked h (s ∷ [])
    → seek (suc n) within h s.addr count size ≡ ok s.addr
unfolding seek
seek_end n within h count s size l = rw (l.0, load) refl

abbrev sought : ℕ → (ℕ → Bool) → Waiting → Entry → Entry → ℕ → Outcome Waiting
sought n within q s new count = do
  tmp ← seek n within q.heap s.addr count new.request.st_size
  link_behind q new.addr new.request tmp

-- The loop, and the linking in after it, insert the request into the chain.
pub seek_lem :
    (n : ℕ) (within : ℕ → Bool) (q : Waiting) (s new : Entry) (es : List Entry) (count : ℕ)
    → length es < n
    → Linked q.heap (s ∷ es)
    → Distinct (s ∷ es)
    → Avoids new.addr (s ∷ es)
    → q.tail ≡ last_addr s es
    → Pushed q s es (insert_within within count new es) new.addr (sought n within q s new count)
seek_lem zero within q s new es count lt l d v t = absurd (omega arith)
seek_lem (suc n) within q s new [] count lt l d v t =
    subst (λ o. Pushed q s [] (new ∷ []) new.addr (o >>= link_behind q new.addr new.request))
      (sym (seek_end n within q.heap count s new.request.st_size l))
      (link_behind_lem q s new [] l d v t)
seek_lem (suc n) within q s new (e ∷ es) count lt l d v t =
    elim (Bool-cases (passes within count new e)) [
      | inl past ↦
          subst (λ o. Pushed q s (e ∷ es) o new.addr (sought (suc n) within q s new count))
            (sym (rw past refl))
            (subst
              (λ o.
                Pushed q s (e ∷ es) (e ∷ insert_within within (suc count) new es) new.addr
                  (o >>= link_behind q new.addr new.request))
              (sym (seek_past n within q.heap count s e new es l past))
              (Pushed-behind q s e es _ new.addr _ l d v.0
                (seek_lem n within q e new es (suc count) (omega arith) l.1 d.1 v.1 t)))
      | inr stop ↦
          subst (λ o. Pushed q s (e ∷ es) o new.addr (sought (suc n) within q s new count))
            (sym (rw stop refl))
            (subst
              (λ o.
                Pushed q s (e ∷ es) (new ∷ e ∷ es) new.addr
                  (o >>= link_behind q new.addr new.request))
              (sym (seek_stop n within q.heap count s e new es l stop))
              (link_behind_lem q s new (e ∷ es) l d v t))
    ]

link_last-runs :
    (q : Waiting) (s new : Entry)
    → q.heap s.addr ≡ some (linked_cell s [])
    → s.addr ≢ new.addr
    → q.tail ≡ s.addr
    → link_last q new.addr new.request
      ≡ ok (record q { heap = with_new q.heap s new []; tail = new.addr })
unfolding link_last
link_last-runs q s new l v t = rw t (ground (arith, l))

pub link_last_lem :
    (q : Waiting) (s new : Entry) (es : List Entry)
    → Linked q.heap (s ∷ es)
    → Distinct (s ∷ es)
    → Avoids new.addr (s ∷ es)
    → q.tail ≡ last_addr s es
    → Pushed q s es (es ++ new ∷ []) new.addr (link_last q new.addr new.request)
link_last_lem q s new [] l d v t = record {
  after = record q { heap = with_new q.heap s new []; tail = new.addr };
  returns = link_last-runs q s new l.0 v.0 t;
  same_head = refl;
  ends = refl;
  linked = with_new_lem q.heap s new [] l.1 d.0 v;
  outside = λ x p u. with_new-outside q.heap s new [] x p u.0;
}
link_last_lem q s new (e ∷ es) l d v t =
    Pushed-behind q s e es _ new.addr _ l d v.0 (link_last_lem q e new es l.1 d.1 v.1 t)
