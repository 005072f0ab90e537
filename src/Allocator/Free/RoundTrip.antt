-- ===== src/Allocator/Free/RoundTrip.antt =====
-- p3/mem.c: a block that is allocated and freed again.
use sp.Base.{
  ◌^◌, ℕ, suc, ◌+◌, ◌-◌, ◌%◌, ◌≤◌, ◌<◌, ◌≡◌, ◌∙◌, refl, sym, ap, subst, inl, inr, Option, none,
  some, List, [], ◌∷◌, arith, ℤ, pos, Outcome, ok, ◌>>=◌, length, All,
}
use sp.Allocator.{Ptr, Memory, State, e_no_space, round_up, mem_alloc}
use sp.Allocator.FreeList.{Chunk, FreeList, Within, fit, NoSliver}
use sp.Allocator.Blocks.{InBlock}
use sp.Allocator.Alloc.{Ready, Allocated, Serves, mem_alloc_lem}
use sp.Allocator.Free.{mem_free}
use sp.Allocator.Free.Release.{end, release, Apart, Coalesced, release-Coalesced}
use sp.Allocator.Free.Place.{IsBlock}
use sp.Allocator.Free.Whole.{mem_free_lem}
use sp.Allocator.Free.Back.{block, Recovers, Words, fit-Recovers}

-- `Mem_Free (Mem_Alloc (size))`
unfoldable pub alloc_then_free : ℕ → State → ℤ → Outcome (ℤ × State)
alloc_then_free n s size = do (ptr, s1) ← mem_alloc n s size; mem_free n s1 ptr

-- The chunks end inside the region.
abbrev pub InRegion : ℕ → List Chunk → Type 0
InRegion bound = All (λ d. end d ≤ bound)

FreeList-Words : (mem : Memory) (cs : List Chunk) → FreeList mem cs → Words cs
FreeList-Words mem [] l = tt
FreeList-Words mem (c ∷ cs) (i, l) = ((i.aligned, i.whole), FreeList-Words mem cs l)

-- The words of the free chunks have cells.
FreeList-cell :
    (mem : Memory) (a : ℕ) (cs : List Chunk)
    → FreeList mem cs
    → Within a cs
    → a % 4 ≡ 0
    → (x : ℤ) × (mem a ≡ some x)
FreeList-cell mem a [] l w al = absurd w
FreeList-cell mem a (c ∷ cs) (i, l) (inl here) al = i.room a here.0 here.1 al
FreeList-cell mem a (c ∷ cs) (i, l) (inr there) al = FreeList-cell mem a cs l there al

Within-below : (a bound : ℕ) (cs : List Chunk) → InRegion bound cs → Within a cs → a < bound
Within-below a bound [] r w = absurd w
Within-below a bound (c ∷ cs) r (inl here) = omega (arith, r.0)
Within-below a bound (c ∷ cs) r (inr there) = Within-below a bound cs r.1 there

-- The free list is the old one again.
pub record Restored (old : List Chunk) (r : Outcome (ℤ × State)) : Type 0 where
  pub after : State
  pub returns : r ≡ ok (pos 0, after)
  pub ready : Ready after old

module _ (n : ℕ) (s : State) (size : ℕ) (c : Chunk) (cs : List Chunk) (lt : length (c ∷ cs) < n)
    (ready : Ready s (c ∷ cs)) (some_bytes : 0 < size) (words : size % 4 ≡ 0)
    (region : InRegion (c.at + s.total_size) (c ∷ cs)) where
  -- What is returned is a block that `Mem_Free` can take.
  Allocated-IsBlock :
      (ret : ℕ) (left : List Chunk) (r : Outcome (Ptr × State))
      (t : Allocated s (c ∷ cs) left ret size r)
      → 8 ≤ ret
      → ret % 4 ≡ 0
      → IsBlock t.after.mem (block ret size)
  Allocated-IsBlock ret left r t start al = record {
    aligned = omega arith;
    whole = words;
    room = λ a lo hi word.
        let inside : InBlock ret size a = (omega arith, omega arith) in
        let (x, e) = FreeList-cell s.mem a (c ∷ cs) ready.list (t.partition.inside a inside) word in
        t.keeps a x e;
  }

  free_again :
      (o : Option (ℕ × List Chunk)) (r : Outcome (Ptr × State))
      → Serves s c.at (c ∷ cs) size o r
      → Recovers size c cs o
      → Restored (c ∷ cs) (r >>= λ (ptr, s1). mem_free n s1 ptr)
  unfolding mem_free
  free_again none r (full, e) rec = rw e (record {
    after = record s { m_error = e_no_space };
    returns = refl;
    ready = record {
      header = ready.header;
      list = ready.list;
      no_padding = ready.no_padding;
      no_debug = ready.no_debug;
    };
  })
  free_again (some (ret, left)) r t (e, ds, same, b) =
      let blk = block ret size in
      let here : InBlock ret size ret = (omega arith, omega arith) in
      let inside =
        Within-below ret (c.at + s.total_size) (c ∷ cs) region (t.partition.inside ret here) in
      let list : Ready t.after (e ∷ ds) = subst (Ready t.after) same t.ready in
      let start = b.start in
      let f =
        mem_free_lem n t.after blk e ds (omega (arith, b.fewer)) list
          (Allocated-IsBlock ret left r t b.start b.aligned) t.marked b.above b.apart
          (omega (arith, b.same, t.region, inside)) in
      let back : ret - 8 + 8 ≡ ret = omega arith in
      record {
        after = f.after;
        returns =
            ap (λ o. o >>= λ (ptr, s1). mem_free n s1 ptr) t.returns
            ∙ ap (λ p. mem_free n t.after (some p)) (sym back)
            ∙ f.returns;
        ready = subst (Ready f.after) b.back f.ready;
      }

-- Outside debug mode, with a free list in the memory from the start of the region on, whose chunks
-- end in the region and do not touch, with a round for each chunk and one more, and no chunk that
-- is four bytes larger than the rounded request, freeing what `Mem_Alloc` returns for a positive
-- request that, rounded up and with its header, is less than 2^31, a null pointer included, ends
-- with 0, and the free list consists of the same chunks as before.
pub alloc_then_free_lem :
    (n : ℕ) (s : State) (k : ℕ) (c : Chunk) (cs : List Chunk)
    → length (c ∷ cs) < n
    → round_up (suc k) + 8 < 2 ^ 31
    → Ready s (c ∷ cs)
    → NoSliver (round_up (suc k)) (c ∷ cs)
    → Coalesced (c ∷ cs)
    → InRegion (c.at + s.total_size) (c ∷ cs)
    → Restored (c ∷ cs) (alloc_then_free n s (pos (suc k)))
unfolding alloc_then_free
alloc_then_free_lem n s k c cs lt small ready ns apart region =
    let size = round_up (suc k) in
    free_again n s size c cs lt ready (omega arith) (omega arith) region (fit c.at size (c ∷ cs))
      (mem_alloc n s (pos (suc k))) (mem_alloc_lem n s k c cs lt small ready ns)
      (fit-Recovers size c cs (omega arith) (FreeList-Words s.mem (c ∷ cs) ready.list) ns apart)

-- Outside debug mode, with a free list in the memory from the start of the region on, a round for
-- each of its chunks, and a block in the region, behind the first chunk and apart from all of them,
-- of whole words that can be accessed, the first of which is its size, if no free chunk touches the
-- one behind it, this holds again after `Mem_Free`, which ends with 0.
pub mem_free-Coalesced :
    (n : ℕ) (s : State) (b p : Chunk) (cs : List Chunk)
    → length cs < n
    → Ready s (p ∷ cs)
    → Coalesced (p ∷ cs)
    → IsBlock s.mem b
    → s.mem b.at ≡ some (pos b.avail)
    → end p ≤ b.at
    → Apart b cs
    → b.at + 8 < p.at + s.total_size
    → (after : State) × (new : List Chunk) × (mem_free n s (some (b.at + 8)) ≡ ok (pos 0, after))
      × Ready after new
      × Coalesced new
mem_free-Coalesced n s b p cs lt ready k ib marked above apart inside =
    let f = mem_free_lem n s b p cs lt ready ib marked above apart inside in
    (f.after, release b p cs, f.returns, f.ready, release-Coalesced b p cs above apart k)
