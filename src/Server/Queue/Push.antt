-- ===== src/Server/Queue/Push.antt =====
-- p5/server.c: where `queue_push` puts a request, by the code of the policy.
use sp.Base.{
  ℕ, zero, suc, ◌-◌, ◌%◌, ◌<◌, ◌≡◌, ◌≢◌, ◌∙◌, refl, sym, ap, subst, Bool, true, some, List, [], ◌∷◌,
  ◌++◌, ltb, ltb→lt, Bool-cases, inl, inr, arith, All-append, ℤ, length, Outcome, ok, fault, ◌>>=◌,
}
use sp.Server.Queue.Link.{Pushed, link_last_lem, seek_lem}
use native.Mathlib.Nat.{mod-lt}
use sp.Server.Queue.{
  Request, Waiting, Settings, Time, new_request, seek, link_behind, max_search, place, queue_push,
}
use sp.Server.Queue.Insert.{Avoids-insert, Distinct-insert, Distinct-append, insert_bounded}
use sp.Server.Queue.Chain.{Entry, Avoids, Distinct, IsQueue, insert_within, arranged}

-- What is in the right place is a queue.
Pushed-IsQueue :
    (q : Waiting) (s : Entry) (es es' : List Entry) (a : ℕ) (r : Outcome Waiting)
    → IsQueue q s es
    → Pushed q s es es' a r
    → Avoids s.addr es'
    → Distinct es'
    → (after : Waiting) × (r ≡ ok after) × IsQueue after s es'
Pushed-IsQueue q s es es' a r i p v d = (
  p.after,
  p.returns,
  record { starts = p.same_head ∙ i.starts; ends = p.ends; linked = p.linked; distinct = (v, d) },
)

seek-IsQueue :
    (n : ℕ) (within : ℕ → Bool) (q : Waiting) (s new : Entry) (es : List Entry)
    → length es < n
    → IsQueue q s es
    → Avoids new.addr (s ∷ es)
    → (after : Waiting) × ((seek n within q.heap q.head 1 new.request.st_size
          >>= link_behind q new.addr new.request)
        ≡ ok after)
      × IsQueue after s (insert_within within 1 new es)
seek-IsQueue n within q s new es lt i v =
    Pushed-IsQueue q s es (insert_within within 1 new es) new.addr _ i
      (subst
        (λ h.
          Pushed q s es (insert_within within 1 new es) new.addr
            (seek n within q.heap h 1 new.request.st_size >>= link_behind q new.addr new.request))
        (sym i.starts) (seek_lem n within q s new es 1 lt i.linked i.distinct v i.ends))
      (Avoids-insert within 1 s.addr new es (λ p. v.0 (sym p)) i.distinct.0)
      (Distinct-insert within 1 new es v.1 i.distinct.1)

max_search_lem :
    (c : Settings)
    → 0 < c.sff_bs_value
    → max_search c ≡ ok (c.sff_bs_value - c.buffer_head_hist % c.sff_bs_value)
unfolding max_search
max_search_lem c lt = bound_of c.sff_bs_value lt
  where
    bound_of :
        (v : ℕ)
        → 0 < v
        → elim v [ zero ↦ fault | suc w ↦ ok (suc w - c.buffer_head_hist % suc w) ]
          ≡ ok (v - c.buffer_head_hist % v)
    bound_of zero lt = absurd (omega arith)
    bound_of (suc w) lt = refl

place_lem :
    (code n : ℕ) (c : Settings) (q : Waiting) (s new : Entry) (es : List Entry)
    → length es < n
    → (code ≡ 2 → 0 < c.sff_bs_value)
    → IsQueue q s es
    → Avoids new.addr (s ∷ es)
    → (after : Waiting) × (place code n c q new.addr new.request ≡ ok after)
      × IsQueue after s (arranged code c new es)
unfolding place max_search
place_lem zero n c q s new es lt bs i v =
    Pushed-IsQueue q s es (es ++ new ∷ []) new.addr _ i
      (link_last_lem q s new es i.linked i.distinct v i.ends)
      (All-append (λ x. x.addr ≢ s.addr) es (new ∷ []) i.distinct.0 (λ p. v.0 (sym p), tt))
      (Distinct-append new es v.1 i.distinct.1)
place_lem (suc zero) n c q s new es lt bs i v = seek-IsQueue n (λ count. true) q s new es lt i v
place_lem (suc (suc zero)) n c q s new es lt bs i v =
    let some_batch = bs refl in
    let left = c.sff_bs_value - c.buffer_head_hist % c.sff_bs_value in
    let (after, runs, isq) = seek-IsQueue n (λ count. ltb count left) q s new es lt i v in
    (
      after,
      ap
            (λ o. o >>= λ bound.
              seek n (λ count. ltb count bound) q.heap q.head 1 new.request.st_size
              >>= link_behind q new.addr new.request)
            (max_search_lem c some_batch)
          ∙ runs,
      subst (λ xs. IsQueue after s xs)
          (insert_bounded left (left - 1) 1 1 new es
            (omega (arith, mod-lt c.buffer_head_hist some_batch)))
          isq,
    )
place_lem (suc (suc (suc k))) n c q s new es lt bs i v = (q, refl, i)

-- Another policy code arranges nothing.
arranged_other :
    (code : ℕ) (c : Settings) (new : Entry) (q : Waiting) (s : Entry) (es : List Entry)
    → ltb 2 code ≡ true
    → IsQueue q s es
    → IsQueue q s (arranged code c new es)
arranged_other zero c new q s es h i = absurd (omega (arith, ltb→lt 2 0 h))
arranged_other (suc zero) c new q s es h i = absurd (omega (arith, ltb→lt 2 1 h))
arranged_other (suc (suc zero)) c new q s es h i = absurd (omega (arith, ltb→lt 2 2 h))
arranged_other (suc (suc (suc k))) c new q s es h i = i

-- Where the queue in the heap holds a sequence of requests, a new node at an address without one, a
-- round for each waiting request and one more, a positive batch size under SFF-BS, and a
-- preprocessing that ends, `queue_push` ends, and the queue holds the sequence with the
-- pre-processed request put in: last under FIFO; behind those at the front that are not larger
-- under SFF; under SFF-BS, with a batch size v and after h requests were served, behind those that
-- are not larger among the first v - h mod v - 1, and before all the others, whichever batch they
-- came in; with another policy code nothing changes.
pub queue_push_lem :
    (n : ℕ) (pre_process : Request → Outcome Request) (a : ℕ) (r : Request) (t : Time)
    (c : Settings) (q : Waiting) (val : ℤ) (s : Entry) (es : List Entry) (done : Request)
    → IsQueue q s es
    → pre_process (new_request c t val r) ≡ ok done
    → Avoids a (s ∷ es)
    → length es < n
    → (c.sched_alg_code ≡ 2 → 0 < c.sff_bs_value)
    → (after : Waiting) × (queue_push n pre_process (some (a, r)) t c q val ≡ ok after)
      × IsQueue after s (arranged c.sched_alg_code c (record { addr = a; request = done }) es)
unfolding queue_push
queue_push_lem n pre_process a r t c q val s es done i processed v lt bs =
    elim (Bool-cases (ltb 2 c.sched_alg_code)) [
      | inl other ↦ (
        q,
        rw other refl,
        arranged_other c.sched_alg_code c (record { addr = a; request = done }) q s es other i,
      )
      | inr known ↦
          rw (known, processed)
            (place_lem c.sched_alg_code n c q s (record { addr = a; request = done }) es lt bs i v)
    ]
