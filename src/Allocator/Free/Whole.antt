-- ===== src/Allocator/Free/Whole.antt =====
-- p3/mem.c: `Mem_Free` outside debug mode.
use sp.Base.{
  ℕ, ◌+◌, ◌-◌, ◌*◌, ◌≤◌, ◌<◌, ◌≡◌, ◌∙◌, ◌⊎◌, ◌↔◌, if◌then◌else◌, refl, sym, ap, inl, inr, true,
  false, ◌||◌, none, some, List, [], ◌∷◌, arith, ltb, leb, Bool-cases, ℤ, pos, negsuc, Outcome, ok,
  exit, fault, hang, ◌>>=◌, length, load,
}
use sp.Allocator.{Memory, State, e_bad_pointer, e_padding_overwritten}
use sp.Allocator.FreeList.{Chunk, Within, Outside}
use sp.Allocator.Search.{first}
use sp.Allocator.Alloc.{Ready}
use sp.Allocator.Free.{place_loop, insert_chunk, paddings_are_filled, free_block, mem_free}
use sp.Allocator.Free.Release.{end, In, release, release_here, release_later, release-Within, Apart}
use sp.Allocator.Free.Place.{IsBlock, place-Released}

-- The block goes back to the free bytes, which are otherwise the old ones; nothing else is written.
pub record Returned (s : State) (b : Chunk) (old new : List Chunk) (r : Outcome (ℤ × State))
    : Type 0 where
  pub after : State
  pub returns : r ≡ ok (pos 0, after)
  pub ready : Ready after new
  pub bytes : (a : ℕ) → Within a new ↔ (In a b ⊎ Within a old)
  pub outside : (a : ℕ) → Outside a (b ∷ old) → after.mem a ≡ s.mem a

first-release : (b p : Chunk) (cs : List Chunk) → first (release b p cs) ≡ some p.at
unfolding release
first-release b p [] = refl
first-release b p (q ∷ cs) = elim (Bool-cases (ltb b.at q.at)) [
  | inl here ↦ rw (release_here b p q cs here) refl
  | inr later ↦ rw (release_later b p q cs later) refl
]

bind_assoc :
    {A B C : Type 0} (m : Outcome A) (f : A → Outcome B) (g : B → Outcome C)
    → (m >>= f >>= g) ≡ (m >>= λ a. f a >>= g)
bind_assoc (ok a) f g = refl
bind_assoc (exit c) f g = refl
bind_assoc fault f g = refl
bind_assoc hang f g = refl

module _ (n : ℕ) (s : State) (b p : Chunk) (cs : List Chunk) (ready : Ready s (p ∷ cs)) where
  run : Outcome Memory
  run = place_loop n s.mem b.at p.at >>= insert_chunk 0 s.mem b.at b.avail

  done : Memory → Outcome (ℤ × State)
  done m = ok (pos 0, record s { mem = m })

  -- The code from the search on: for a block at `a` with `z` bytes.
  from_place : ℕ → ℕ → ℕ → Outcome (ℤ × State)
  from_place a z debug =
      place_loop n s.mem a p.at >>= λ place. insert_chunk debug s.mem a z place >>= done

  free_block_lem : free_block n s p.at (b.at + 8) (pos b.avail) ≡ (run >>= done)
  unfolding free_block paddings_are_filled run done from_place
  free_block_lem =
      let pad = ready.no_padding in
      let intact : paddings_are_filled s (b.at + 8) b.avail ≡ ok true = rw ready.no_debug refl in
      let start : b.at + 8 - s.padding_size - 8 ≡ b.at = omega arith in
      let size : b.avail + 2 * s.padding_size ≡ b.avail = omega arith in
      ap
        (λ o. o >>= λ i. elim i [
          | false ↦ ok (negsuc 0, record s { m_error = e_padding_overwritten })
          | true ↦
              from_place (b.at + 8 - s.padding_size - 8) (b.avail + 2 * s.padding_size)
                s.debug_enable
        ])
        intact
      ∙ ap (λ a. from_place a (b.avail + 2 * s.padding_size) s.debug_enable) start
      ∙ ap (λ z. from_place b.at z s.debug_enable) size
      ∙ ap (from_place b.at b.avail) ready.no_debug
      ∙ sym (bind_assoc (place_loop n s.mem b.at p.at) (insert_chunk 0 s.mem b.at b.avail) done)

  mem_free-free_block :
      s.mem b.at ≡ some (pos b.avail)
      → end p ≤ b.at
      → b.at + 8 < p.at + s.total_size
      → mem_free n s (some (b.at + 8)) ≡ free_block n s p.at (b.at + 8) (pos b.avail)
  unfolding mem_free
  mem_free-free_block marked above inside =
      let pad = ready.no_padding in
      let start : b.at + 8 - s.padding_size - 8 ≡ b.at = omega arith in
      let low : ltb (b.at + 8) p.at ≡ false = ground arith in
      let high : leb (p.at + s.total_size) (b.at + 8) ≡ false = ground arith in
      ap {B = Outcome (ℤ × State)}
        (λ h. elim h [
          | none ↦ ok (negsuc 0, record s { m_error = e_bad_pointer })
          | some header ↦
              if ltb (b.at + 8) header || leb (header + s.total_size) (b.at + 8)
              then ok (negsuc 0, record s { m_error = e_bad_pointer })
              else load s.mem (b.at + 8 - s.padding_size - 8) >>= free_block n s header (b.at + 8)
        ])
        ready.header
      ∙ rw (low, high, start, marked) refl

-- Outside debug mode, with a free list in the memory from the start of the region on, a round for
-- each of its chunks, and a block in the region, behind the first chunk and apart from all of them,
-- of whole words that can be accessed, the first of which is its size, `Mem_Free` ends with 0. The
-- block then stands in the free list behind the last chunk before it, merged with the chunks that
-- it touches; the free bytes are the old ones and those of the block with its header, and nothing
-- else is written.
pub mem_free_lem :
    (n : ℕ) (s : State) (b p : Chunk) (cs : List Chunk)
    → length cs < n
    → Ready s (p ∷ cs)
    → IsBlock s.mem b
    → s.mem b.at ≡ some (pos b.avail)
    → end p ≤ b.at
    → Apart b cs
    → b.at + 8 < p.at + s.total_size
    → Returned s b (p ∷ cs) (release b p cs) (mem_free n s (some (b.at + 8)))
unfolding run done
mem_free_lem n s b p cs lt ready ib marked above apart inside =
    let k = place-Released n s.mem b p cs lt ready.list ib above apart in
    record {
      after = record s { mem = k.final };
      returns =
          mem_free-free_block n s b p cs ready marked above inside
          ∙ free_block_lem n s b p cs ready
          ∙ ap (λ o. o >>= done n s b p cs ready) k.returns;
      ready = record {
        header = ready.header ∙ sym (first-release b p cs);
        list = k.list;
        no_padding = ready.no_padding;
        no_debug = ready.no_debug;
      };
      bytes = λ a. release-Within a b p cs;
      outside = k.outside;
    }
