-- ===== src/Server/Queue/Pop.antt =====
-- p5/server.c: `queue_peek` and `queue_pop` at the front of the queue.
use sp.Base.{◌≡◌, refl, List, [], ◌∷◌, arith, ok, fault, update, update_hit}
use sp.Server.Queue.{Waiting, queue_peek, queue_pop}
use sp.Server.Queue.Chain.{Entry, linked_cell, Linked-update, IsQueue}

popped : Waiting → Entry → List Entry → Waiting
popped q s [] = record q { heap = update q.heap s.addr (linked_cell s []); tail = s.addr }
popped q s (e ∷ es) = record q { heap = update q.heap s.addr (linked_cell s (e ∷ es)) }

popped-IsQueue :
    (q : Waiting) (s e : Entry) (es : List Entry)
    → IsQueue q s (e ∷ es)
    → IsQueue (popped q s es) s es
unfolding popped
popped-IsQueue q s e [] i = record {
  starts = i.starts;
  ends = refl;
  linked = (update_hit q.heap s.addr (linked_cell s []), tt);
  distinct = (tt, tt);
}
popped-IsQueue q s e (x ∷ es) i = record {
  starts = i.starts;
  ends = i.ends;
  linked = (
    update_hit q.heap s.addr (linked_cell s (x ∷ es)),
    Linked-update q.heap s.addr (linked_cell s (x ∷ es)) (x ∷ es) i.distinct.0.1 i.linked.1.1,
  );
  distinct = (i.distinct.0.1, i.distinct.1.1);
}

pop-runs :
    (q : Waiting) (s e : Entry) (es : List Entry)
    → IsQueue q s (e ∷ es)
    → queue_pop q ≡ ok (popped q s es)
unfolding queue_pop popped
pop-runs q s e [] i = rw i.starts (ground (arith, i.linked.0, i.linked.1.0))
pop-runs q s e (x ∷ es) i = rw i.starts (ground (arith, i.linked.0, i.linked.1.0))

-- Where the queue in the heap holds a sequence that is not empty, `queue_peek` returns its first
-- request, and `queue_pop` ends with a queue that holds the others in their order.
pub queue_pop_lem :
    (q : Waiting) (s e : Entry) (es : List Entry)
    → IsQueue q s (e ∷ es)
    → (queue_peek q ≡ ok e.request)
      × ((after : Waiting) × (queue_pop q ≡ ok after) × IsQueue after s es)
unfolding queue_peek
queue_pop_lem q s e es i = (
  rw i.starts (ground (arith, i.linked.0, i.linked.1.0)),
  (popped q s es, pop-runs q s e es i, popped-IsQueue q s e es i),
)

-- On an empty queue `queue_peek` reads through the null pointer, and `queue_pop` leaves the queue
-- as it is.
pub queue_pop_empty :
    (q : Waiting) (s : Entry) → IsQueue q s [] → (queue_peek q ≡ fault) × (queue_pop q ≡ ok q)
unfolding queue_peek queue_pop
queue_pop_empty q s i =
    (rw i.starts (ground (arith, i.linked.0)), rw i.starts (ground (arith, i.linked.0)))
