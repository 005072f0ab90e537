-- ===== src/Rio/Buffer.antt =====
-- p5/cs537.c: `rio_read` hands out the bytes of the stream in order.
use sp.Base.{
  ℕ, zero, suc, ◌+◌, ◌-◌, ◌≤◌, ◌<◌, ◌≡◌, ◌∙◌, refl, sym, ap, subst, true, false, List, [], ◌∷◌,
  ◌++◌, take, drop, take-append-drop, List-cases, length, length-take, length-drop, arith, ℤ, pos,
  negsuc, ◌-ℤ◌, pos_part, ltb_ℤ, leb_ℤ, if◌then◌else◌, Outcome, ok, ◌>>=◌, Array, store_lem, update,
  Holds, Room, Room-update, Written, Written-nil, Written-cons, Holds-split, Room-Holds, inl, inr,
}
use mathlib.Core.List.{append_assoc}
use sp.Rio.{
  Read, got, interrupted, failed, Rio, Copied, bytes, Refill, ready, ended, store_all, load_range,
  refill_loop, refill, copy_out, rio_read, rio_readinitb,
}

-- RIO_BUFSIZE
abbrev pub bufsize : ℕ
bufsize = 8192

-- The answers of `read` bring these bytes, in pieces of at most a buffer, between interruptions, and then the
-- end.
abbrev pub Stream : List Read → List ℕ → Type 0
Stream [] xs = ⊥
Stream (failed ∷ rs) xs = ⊥
Stream (interrupted ∷ rs) xs = Stream rs xs
Stream (got [] ∷ rs) xs = xs ≡ []
Stream (got (b ∷ bs) ∷ rs) xs =
    (ys : List ℕ) × (xs ≡ (b ∷ bs) ++ ys) × (length (b ∷ bs) ≤ bufsize) × Stream rs ys

-- These bytes are still to be read: some from the buffer, and then those of the stream.
pub record Unread (r : Rio) (xs : List ℕ) : Type 0 where
  pub here : List ℕ
  pub later : List ℕ
  pub whole : xs ≡ here ++ later
  pub counted : r.cnt ≡ pos (length here)
  pub held : Holds r.buf r.bufptr here
  pub stream : Stream r.source later
  pub room : Room r.buf 0 bufsize

pub store_all_lem :
    (buf : Array ℕ) (i : ℕ) (bs : List ℕ)
    → Room buf i (length bs)
    → Written buf i bs (store_all buf i bs)
unfolding store_all
store_all_lem buf i [] room = Written-nil buf i
store_all_lem buf i (b ∷ bs) room = rw (store_lem buf i b room.0.1) (
    Written-cons buf i b bs _
      (store_all_lem (update buf i b) (suc i) bs (Room-update buf (suc i) (length bs) i b room.1)))

pub load_range_lem :
    (buf : Array ℕ) (i : ℕ) (bs : List ℕ) → Holds buf i bs → load_range (length bs) buf i ≡ ok bs
unfolding load_range
load_range_lem buf i [] h = refl
load_range_lem buf i (b ∷ bs) h = rw (h.0, load_range_lem buf (suc i) bs h.1) refl

-- What a refill comes to: the end, where nothing is left, or a buffer that is not empty.
data Refilled (xs : List ℕ) : Outcome Refill → Type 0 where
  at_end : (r : Rio) → xs ≡ [] → Refilled xs (ok (ended r))
  filled : (r : Rio) (u : Unread r xs) → 0 < length u.here → Refilled xs (ok (ready r))

pub Room-shorter : (buf : Array ℕ) (i m n : ℕ) → m ≤ n → Room buf i n → Room buf i m
Room-shorter buf i zero n le r = tt
Room-shorter buf i (suc m) zero le r = absurd (omega arith)
Room-shorter buf i (suc m) (suc n) le r = (r.0, Room-shorter buf (suc i) m n (omega arith) r.1)

refill_loop_lem :
    (rs : List Read) (r : Rio) (xs : List ℕ)
    → Stream rs xs
    → Room r.buf 0 bufsize
    → Refilled xs (refill_loop rs r)
unfolding refill_loop
refill_loop_lem [] r xs s room = elim s [ ]
refill_loop_lem (failed ∷ rs) r xs s room = elim s [ ]
refill_loop_lem (interrupted ∷ rs) r xs s room =
    refill_loop_lem rs (record r { cnt = negsuc 0; source = rs }) xs s room
refill_loop_lem (got [] ∷ rs) r xs s room = at_end (record r { cnt = pos 0; source = rs }) s
refill_loop_lem (got (b ∷ bs) ∷ rs) r xs (ys, e, le, s) room =
    let w =
      store_all_lem r.buf 0 (b ∷ bs) (Room-shorter r.buf 0 (length (b ∷ bs)) bufsize le room) in
    rw w.returns (
      filled (record { cnt = pos (length (b ∷ bs)); bufptr = 0; buf = w.final; source = rs })
        (record {
          here = b ∷ bs;
          later = ys;
          whole = e;
          counted = refl;
          held = w.holds;
          stream = s;
          room =
              Room-Holds r.buf w.final 0 bufsize (b ∷ bs) room w.holds
                (λ j le. w.outside j (inr le));
        })
        (omega arith))

above : (n : ℕ) → 0 < n → leb_ℤ (pos n) (pos 0) ≡ false
above n h = ground arith

refill_lem : (r : Rio) (xs : List ℕ) → Unread r xs → Refilled xs (refill r)
unfolding refill
refill_lem r xs u = elim (List-cases u.here) [
  | inl empty ↦
      let low : leb_ℤ r.cnt (pos 0) ≡ true =
        ap (λ c. leb_ℤ c (pos 0)) (u.counted ∙ ap (λ h. pos (length h)) empty) ∙ refl in
      rw low (
        refill_loop_lem r.source r xs
          (subst (Stream r.source) (sym (u.whole ∙ ap (λ h. h ++ u.later) empty)) u.stream) u.room)
  | inr (b, bs, full) ↦
      let more : 0 < length u.here = omega (arith, ap length full) in
      let high : leb_ℤ r.cnt (pos 0) ≡ false =
        ap (λ c. leb_ℤ c (pos 0)) u.counted ∙ above (length u.here) more in
      rw high (filled r u more)
]

-- What a call that asks for `n` bytes comes to.
pub data Reads (n : ℕ) (xs : List ℕ) : Outcome (Copied × Rio) → Type 0 where
  none_left : (r : Rio) → xs ≡ [] → Reads n xs (ok (bytes [], r))
  some_read :
      (b : ℕ) (bs ys : List ℕ) (r : Rio)
      → xs ≡ (b ∷ bs) ++ ys
      → length (b ∷ bs) ≤ n
      → Unread r ys
      → Reads n xs (ok (bytes (b ∷ bs), r))

-- How many bytes are copied.
abbrev copied : ℤ → ℕ → ℕ
copied cnt n = if ltb_ℤ cnt (pos n) then pos_part cnt else n

record Part (l n m : ℕ) : Type 0 where
  positive : 0 < m
  wanted : m ≤ n
  there : m ≤ l
  left : pos l -ℤ pos m ≡ pos (l - m)

copied_lem : (l n : ℕ) → 0 < l → 0 < n → Part l n (copied (pos l) n)
unfolding ◌-ℤ◌
copied_lem l n h k = record {
  positive = ground arith;
  wanted = ground arith;
  there = ground arith;
  left = ground arith;
}

abbrev reading : ℕ → Rio → Outcome (Copied × Rio)
reading m r = do
  bs ← load_range m r.buf r.bufptr
  ok (bytes bs, record r { bufptr = r.bufptr + m; cnt = r.cnt -ℤ pos m })

-- The bytes in the buffer are handed out up to `d`.
reading_lem :
    (n : ℕ) (r : Rio) (xs : List ℕ) (u : Unread r xs) (t d : List ℕ)
    → u.here ≡ t ++ d
    → 0 < length t
    → length t ≤ n
    → r.cnt -ℤ pos (length t) ≡ pos (length d)
    → Reads n xs (reading (length t) r)
reading_lem n r xs u [] d e any le c = absurd (omega arith)
reading_lem n r xs u (b ∷ bs) d e any le c =
    let (first, second) =
      Holds-split r.buf r.bufptr (b ∷ bs) d (subst (Holds r.buf r.bufptr) e u.held) in
    rw (load_range_lem r.buf r.bufptr (b ∷ bs) first) (
      some_read b bs (d ++ u.later)
        (record r { bufptr = r.bufptr + length (b ∷ bs); cnt = r.cnt -ℤ pos (length (b ∷ bs)) })
        (u.whole ∙ ap (λ h. h ++ u.later) e ∙ append_assoc (b ∷ bs) d u.later) le
        (record {
          here = d;
          later = u.later;
          whole = refl;
          counted = c;
          held = second;
          stream = u.stream;
          room = u.room;
        }))

copy_out_lem :
    (n : ℕ) (r : Rio) (xs : List ℕ) (u : Unread r xs)
    → 0 < n
    → 0 < length u.here
    → Reads n xs (copy_out n (ready r))
unfolding copy_out
copy_out_lem n r xs u any more =
    let p : Part (length u.here) n (copied r.cnt n) =
      subst (λ c. Part (length u.here) n (copied c n)) (sym u.counted)
        (copied_lem (length u.here) n more any) in
    let m = copied r.cnt n in
    let long : length (take m u.here) ≡ m = length-take m u.here p.there in
    let left : r.cnt -ℤ pos (length (take m u.here)) ≡ pos (length (drop m u.here)) =
      ap (λ c. c -ℤ pos (length (take m u.here))) u.counted
      ∙ ap (λ k. pos (length u.here) -ℤ pos k) long
      ∙ p.left
      ∙ ap pos (sym (length-drop m u.here)) in
    subst (λ k. Reads n xs (reading k r)) long
      (reading_lem n r xs u (take m u.here) (drop m u.here) (sym (take-append-drop m u.here))
        (omega (arith, long, p.positive)) (omega (arith, long, p.wanted)) left)

pub rio_read_lem : (r : Rio) (n : ℕ) (xs : List ℕ) → 0 < n → Unread r xs → Reads n xs (rio_read r n)
unfolding rio_read
rio_read_lem r n xs any u = after (refill r) (refill_lem r xs u)
  where
    after : (o : Outcome Refill) → Refilled xs o → Reads n xs (o >>= copy_out n)
    after o (at_end r e) = unfold copy_out in none_left r e
    after o (filled r u more) = copy_out_lem n r xs u any more

-- After `rio_readinitb` all of the stream is to be read.
pub rio_readinitb-Unread :
    (rs : List Read) (buf : Array ℕ) (xs : List ℕ)
    → Stream rs xs
    → Room buf 0 bufsize
    → Unread (rio_readinitb rs buf) xs
unfolding rio_readinitb
rio_readinitb-Unread rs buf xs s room = record {
  here = [];
  later = xs;
  whole = refl;
  counted = refl;
  held = tt;
  stream = s;
  room = room;
}
