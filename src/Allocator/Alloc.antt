-- ===== src/Allocator/Alloc.antt =====
-- p3/mem.c: `Mem_Alloc` outside debug mode, and the request that it gets wrong.
use sp.Base.{
  ℕ, suc, ◌+◌, ◌-◌, ◌%◌, ◌*◌, ◌^◌, ◌<◌, true, ◌≡◌, ◌∙◌, refl, sym, ap, subst, Option, none, some,
  List, ◌∷◌, arith, ℤ, pos, negsuc, ◌-ℤ◌, Outcome, ok, ◌>>=◌, length, Bool-cases, ltb, lt→ltb, inl,
  inr, update, update_hit,
}
use sp.Allocator.{
  Ptr, Memory, State, e_no_space, offset, take_end, search_loop, finish_alloc, round_up, alloc_from,
  mem_alloc,
}
use sp.Allocator.FreeList.{
  Chunk, IsChunk, FreeList, Outside, behind, fit, fit_end, fit-behind, NoSliver, Keeps,
}
use sp.Allocator.Search.{first, Fits, search_loop_lem, round_end}
use sp.Allocator.Blocks.{Partition, NoFit, FreeList-Sorted, Cuts, fit-Cuts}

-- The allocator outside debug mode, with these free chunks from the start of the region on.
pub record Ready (s : State) (cs : List Chunk) : Type 0 where
  pub header : s.ptr_header ≡ first cs
  pub list : FreeList s.mem cs
  pub no_padding : s.padding_size ≡ 0
  pub no_debug : s.debug_enable ≡ 0

-- The block at `ret` is returned: the allocator is ready again, with the chunks `left`, the old ones less the
-- block, the word before the block holds its size, no address outside the old chunks is written, and none is unmapped.
pub record Allocated (s : State) (old left : List Chunk) (ret size : ℕ) (r : Outcome (Ptr × State))
    : Type 0 where
  pub after : State
  pub returns : r ≡ ok (some ret, after)
  pub ready : Ready after left
  pub partition : Partition old left ret size
  pub marked : after.mem (ret - 8) ≡ some (pos size)
  pub outside : (a : ℕ) → Outside a old → after.mem a ≡ s.mem a
  pub keeps : Keeps s.mem after.mem
  pub region : after.total_size ≡ s.total_size

-- What a request comes to, where `fit` would do `wanted`.
abbrev pub Serves :
    State → ℕ → List Chunk → ℕ → Option (ℕ × List Chunk) → Outcome (Ptr × State) → Type 0
Serves s header old size none r =
    NoFit header size old × (r ≡ ok (none, record s { m_error = e_no_space }))
Serves s header old size (some (ret, left)) r = Allocated s old left ret size r

abbrev StartsAt : ℕ → Option (ℕ × List Chunk) → Type 0
StartsAt header none = Unit
StartsAt header (some (ret, left)) = first left ≡ some header

behind-StartsAt : (c : Chunk) (o : Option (ℕ × List Chunk)) → StartsAt c.at (behind c o)
behind-StartsAt c none = tt
behind-StartsAt c (some (ret, left)) = refl

-- The search keeps a chunk at the start of the region.
fit-StartsAt : (size : ℕ) (c : Chunk) (cs : List Chunk) → StartsAt c.at (fit c.at size (c ∷ cs))
fit-StartsAt size c cs = elim (Bool-cases (ltb size c.avail)) [
  | inl big ↦ rw (fit_end c.at size c cs big) refl
  | inr small ↦
      rw (fit-behind c.at size c cs small (ground arith)) (behind-StartsAt c (fit c.at size cs))
]

-- What follows the search, for a search that did as `fit`.
finish_lem :
    (n : ℕ) (s : State) (header size : ℕ) (old : List Chunk) (o : Option (ℕ × List Chunk))
    (run : Outcome (Ptr × Memory))
    → s.ptr_header ≡ some header
    → s.padding_size ≡ 0
    → s.debug_enable ≡ 0
    → Fits s.mem old size o run
    → Cuts header size old o
    → StartsAt header o
    → Serves s header old size o (run >>= finish_alloc n s header size)
unfolding finish_alloc
finish_lem n s header size old none run h pad debug f cut st = (cut, rw (f, ◌>>=◌) refl)
finish_lem n s header size old (some (ret, left)) run h pad debug t cut st = record {
  after = record s { mem = t.final };
  returns = rw (t.returns, ◌>>=◌) (ground (arith, debug));
  ready = record { header = h ∙ sym st; list = t.list; no_padding = pad; no_debug = debug };
  partition = cut;
  marked = t.marked;
  outside = t.outside;
  keeps = t.keeps;
  region = refl;
}

round_up_words : (k : ℕ) → round_up (suc k) % 4 ≡ 0
round_up_words k = omega arith

-- What a request comes to that stays an `int` with its header.
abbrev searched : ℕ → State → ℕ → ℕ → Outcome (Ptr × State)
searched n s header size =
    search_loop n s.mem header size s.padding_size (some header) none
    >>= finish_alloc n s header size

alloc_from-searched :
    (n : ℕ) (s : State) (header k : ℕ)
    → s.padding_size ≡ 0
    → round_up (suc k) + 8 < 2 ^ 31
    → alloc_from n s header (pos (suc k)) ≡ searched n s header (round_up (suc k))
unfolding alloc_from
alloc_from-searched n s header k pad small =
    let size = round_up (suc k) in
    let whole : ltb (size + s.padding_size * 2 + 8) (2 ^ 31) ≡ true =
      lt→ltb (size + s.padding_size * 2 + 8) (2 ^ 31) (omega (arith, pad, small)) in
    rw whole refl

mem_alloc-alloc_from :
    (n : ℕ) (s : State) (header : ℕ) (size : ℤ)
    → s.ptr_header ≡ some header
    → mem_alloc n s size ≡ alloc_from n s header size
unfolding mem_alloc
mem_alloc-alloc_from n s header size h =
    ap {B = Outcome (Ptr × State)}
      (λ p. elim p [
        | none ↦ ok (none, record s { m_error = e_no_space })
        | some a ↦ alloc_from n s a size
      ])
      h

-- Outside debug mode, with a free list in the memory from the start of the region on, a round for
-- each chunk and one more, and no chunk that is four bytes larger than the rounded request,
-- `Mem_Alloc` serves a positive request that, rounded up and with its header, is less than 2^31, by
-- the first chunk that is larger than it, or, behind the first chunk only, exactly as large. Where
-- there is one, it returns the block; the new free list holds the chunks that are left, from the
-- same start; block and chunks left take up the bytes of the old chunks; the word before the block
-- holds its size, and no address outside the old chunks changes. Where there is none, it returns
-- null with E_NO_SPACE and changes nothing else.
pub mem_alloc_lem :
    (n : ℕ) (s : State) (k : ℕ) (c : Chunk) (cs : List Chunk)
    → length (c ∷ cs) < n
    → round_up (suc k) + 8 < 2 ^ 31
    → Ready s (c ∷ cs)
    → NoSliver (round_up (suc k)) (c ∷ cs)
    → Serves s c.at
        (c ∷ cs)
        (round_up (suc k))
        (fit c.at (round_up (suc k)) (c ∷ cs))
        (mem_alloc n s (pos (suc k)))
mem_alloc_lem n s k c cs lt small ready ns =
    subst (Serves s c.at (c ∷ cs) size (fit c.at size (c ∷ cs))) (sym runs) (
      finish_lem n s c.at size (c ∷ cs) (fit c.at size (c ∷ cs)) run ready.header ready.no_padding
        ready.no_debug
        (subst (Fits s.mem (c ∷ cs) size (fit c.at size (c ∷ cs)))
          (ap search (sym ready.no_padding))
          (search_loop_lem n s.mem size c cs lt (round_up_words k) ns ready.list))
        (fit-Cuts c.at size (c ∷ cs) (round_up_words k) ns
          (FreeList-Sorted s.mem (c ∷ cs) ready.list))
        (fit-StartsAt size c cs))
  where
    size : ℕ
    size = round_up (suc k)

    search : ℕ → Outcome (Ptr × Memory)
    search pad = search_loop n s.mem c.at size pad (some c.at) none

    run : Outcome (Ptr × Memory)
    run = search s.padding_size

    runs : mem_alloc n s (pos (suc k)) ≡ (run >>= finish_alloc n s c.at size)
    runs =
        mem_alloc-alloc_from n s c.at (pos (suc k)) ready.header
        ∙ alloc_from-searched n s c.at k ready.no_padding small

-- The words that `take_end` writes where the header of the rest does not fit.
sliver : Memory → Chunk → ℕ → Memory
sliver mem c size = update (update mem (c.at + 4) (negsuc 3)) (c.at + 4) (pos size)

take_end-sliver :
    (mem : Memory) (c : Chunk) (cs : List Chunk) (size : ℕ)
    → IsChunk mem c cs
    → c.avail ≡ size + 4
    → take_end mem c.at (pos c.avail) size 0 ≡ ok (some (c.at + 8 + c.avail + 4), sliver mem c size)
unfolding take_end offset ◌-ℤ◌ sliver
take_end-sliver mem c cs size i e = let s = i.size in ground arith

-- Outside debug mode, with a first free chunk that is four bytes larger than the rounded request,
-- which with its header is less than 2^31, `Mem_Alloc` returns an address four bytes past the end
-- of that chunk, and the size word of the chunk then holds the size of the request.
pub mem_alloc_sliver :
    (n : ℕ) (s : State) (k : ℕ) (c : Chunk) (cs : List Chunk)
    → Ready s (c ∷ cs)
    → c.avail ≡ round_up (suc k) + 4
    → round_up (suc k) + 8 < 2 ^ 31
    → (s' : State) × (mem_alloc (suc n) s (pos (suc k)) ≡ ok (some (c.at + 8 + c.avail + 4), s'))
      × (s'.mem (c.at + 4) ≡ some (pos (round_up (suc k))))
unfolding alloc_from
mem_alloc_sliver n s k c cs ready e small = (
  record s { mem = sliver s.mem c size },
  mem_alloc-alloc_from (suc n) s c.at (pos (suc k)) ready.header ∙ run,
  unfold sliver in update_hit (update s.mem (c.at + 4) (negsuc 3)) (c.at + 4) (pos size),
)
  where
    size : ℕ
    size = round_up (suc k)

    found :
        search_loop (suc n) s.mem c.at size s.padding_size (some c.at) none
        ≡ ok (some (c.at + 8 + c.avail + 4), sliver s.mem c size)
    found =
        ap (λ pad. search_loop (suc n) s.mem c.at size pad (some c.at) none) ready.no_padding
        ∙ round_end n s.mem c.at size c cs none ready.list.0 (lt→ltb size c.avail (omega arith))
        ∙ take_end-sliver s.mem c cs size ready.list.0 e

    finished :
        finish_alloc (suc n) s c.at size (some (c.at + 8 + c.avail + 4), sliver s.mem c size)
        ≡ ok (some (c.at + 8 + c.avail + 4), record s { mem = sliver s.mem c size })
    finished = unfold finish_alloc in ground (arith, ready.no_debug)

    run :
        alloc_from (suc n) s c.at (pos (suc k))
        ≡ ok (some (c.at + 8 + c.avail + 4), record s { mem = sliver s.mem c size })
    run =
        alloc_from-searched (suc n) s c.at k ready.no_padding small
        ∙ ap (λ r. r >>= finish_alloc (suc n) s c.at size) found
        ∙ finished
