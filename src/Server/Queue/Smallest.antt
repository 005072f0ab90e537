-- ===== src/Server/Queue/Smallest.antt =====
-- p5/server.c: under SFF the smallest request is served first.
use sp.Base.{
  ℕ, suc, ◌<◌, ◌≡◌, subst, true, false, some, List, [], ◌∷◌, arith, All, ℤ, leb_ℤ, length, Outcome,
  ok, Bool-cases, inl, inr,
}
use sp.Server.Queue.{Request, Waiting, Settings, Time, new_request, queue_push}
use sp.Server.Queue.Chain.{Entry, Avoids, IsQueue, insert_within, insert_by_size, arranged}
use sp.Server.Queue.Push.{queue_push_lem}

abbrev pub AtMost : Entry → Entry → Type 0
AtMost a b = leb_ℤ a.request.st_size b.request.st_size ≡ true

-- No request is larger than one behind it.
abbrev pub BySize : List Entry → Type 0
BySize [] = Unit
BySize (e ∷ es) = All (AtMost e) es × BySize es

leb_ℤ-total : (a b : ℤ) → leb_ℤ a b ≡ false → leb_ℤ b a ≡ true
leb_ℤ-total a b h = ground arith

leb_ℤ_trans : (a b c : ℤ) → leb_ℤ a b ≡ true → leb_ℤ b c ≡ true → leb_ℤ a c ≡ true
leb_ℤ_trans a b c h k = ground arith

AtMost-trans : (a b : Entry) (es : List Entry) → AtMost a b → All (AtMost b) es → All (AtMost a) es
AtMost-trans a b [] h l = tt
AtMost-trans a b (e ∷ es) h l = (
  leb_ℤ_trans a.request.st_size b.request.st_size e.request.st_size h l.0,
  AtMost-trans a b es h l.1,
)

AtMost-insert :
    (count : ℕ) (a new : Entry) (es : List Entry)
    → AtMost a new
    → All (AtMost a) es
    → All (AtMost a) (insert_within (λ c. true) count new es)
AtMost-insert count a new [] h l = (h, tt)
AtMost-insert count a new (e ∷ es) h l =
    elim (Bool-cases (leb_ℤ e.request.st_size new.request.st_size)) [
      | inl past ↦ rw past (l.0, AtMost-insert (suc count) a new es h l.1)
      | inr stop ↦ rw stop (h, l)
    ]

BySize-insert :
    (count : ℕ) (new : Entry) (es : List Entry)
    → BySize es
    → BySize (insert_within (λ c. true) count new es)
BySize-insert count new [] h = (tt, tt)
BySize-insert count new (e ∷ es) h =
    elim (Bool-cases (leb_ℤ e.request.st_size new.request.st_size)) [
      | inl past ↦
          rw past
            (AtMost-insert (suc count) e new es past h.0, BySize-insert (suc count) new es h.1)
      | inr stop ↦
          let below = leb_ℤ-total e.request.st_size new.request.st_size stop in
          rw stop ((below, AtMost-trans new e es below h.0), h)
    ]

-- Under SFF, where the queue holds a sequence in which no request is larger than one behind it, a
-- new node at an address without one, enough rounds, and a preprocessing that ends, `queue_push`
-- ends and the queue holds the sequence with the new request put in behind those that are not
-- larger, again with no request larger than one behind it.
pub queue_push-BySize :
    (n : ℕ) (pre_process : Request → Outcome Request) (a : ℕ) (r : Request) (t : Time)
    (c : Settings) (q : Waiting) (val : ℤ) (s : Entry) (es : List Entry) (done : Request)
    → IsQueue q s es
    → BySize es
    → pre_process (new_request c t val r) ≡ ok done
    → Avoids a (s ∷ es)
    → length es < n
    → c.sched_alg_code ≡ 1
    → (after : Waiting) × (queue_push n pre_process (some (a, r)) t c q val ≡ ok after)
      × IsQueue after s (insert_by_size (record { addr = a; request = done }) es)
      × BySize (insert_by_size (record { addr = a; request = done }) es)
queue_push-BySize n pre_process a r t c q val s es done i b processed v lt sff =
    let (after, runs, isq) =
      queue_push_lem n pre_process a r t c q val s es done i processed v lt
        (λ two. absurd (omega (arith, sff, two))) in
    (
      after,
      runs,
      subst (λ code. IsQueue after s (arranged code c (record { addr = a; request = done }) es)) sff
          isq,
      BySize-insert 1 (record { addr = a; request = done }) es b,
    )
