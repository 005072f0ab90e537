-- ===== src/Allocator/FreeList.antt =====
-- p3/mem.c: how the headers in memory stand for a list of free chunks, and what the search does to it.
use sp.Base.{
  ℕ, ◌+◌, ◌-◌, ◌%◌, ◌≤◌, ◌<◌, ◌≡◌, ◌≢◌, ◌∙◌, ◌⊎◌, inl, inr, true, false, not, ◌&&◌, Option, none,
  some, List, [], ◌∷◌, arith, ◌==◌, ltb, if◌then◌else◌, All, ℤ, pos, negsuc, update, Bool-cases,
  Outcome, ok,
}
use sp.Allocator.{Ptr, Memory}

-- A free chunk: eight bytes of header at `at`, then `avail` bytes.
pub record Chunk : Type 0 where
  pub at : ℕ
  pub avail : ℕ

abbrev pub next_field : Chunk → List Chunk → ℤ
next_field c [] = negsuc 0
next_field c (d ∷ cs) = pos (d.at - c.at)

-- The chunk ends before the one behind it starts, and has a cell for each of its words.
pub record IsChunk (mem : Memory) (c : Chunk) (cs : List Chunk) : Type 0 where
  pub next : mem c.at ≡ some (next_field c cs)
  pub size : mem (c.at + 4) ≡ some (pos c.avail)
  pub aligned : c.at % 4 ≡ 0
  pub whole : c.avail % 4 ≡ 0
  pub room : (a : ℕ) → c.at ≤ a → a < c.at + 8 + c.avail → a % 4 ≡ 0 → (x : ℤ) × (mem a ≡ some x)
  pub before : All (λ d. c.at + 8 + c.avail ≤ d.at) cs

abbrev pub FreeList : Memory → List Chunk → Type 0
FreeList mem [] = Unit
FreeList mem (c ∷ cs) = IsChunk mem c cs × FreeList mem cs

-- The address is in none of the chunks.
abbrev pub Outside : ℕ → List Chunk → Type 0
Outside a = All (λ c. (a < c.at) ⊎ (c.at + 8 + c.avail ≤ a))

-- The address is in one of them.
abbrev pub Within : ℕ → List Chunk → Type 0
Within a [] = ⊥
Within a (c ∷ cs) = ((c.at ≤ a) × (a < c.at + 8 + c.avail)) ⊎ Within a cs

-- The chunk stays in front of what is left.
abbrev pub behind : Chunk → Option (ℕ × List Chunk) → Option (ℕ × List Chunk)
behind c none = none
behind c (some (ret, left)) = some (ret, c ∷ left)

-- What the search leaves of the free list: the first chunk with space to spare loses its end, and one
-- of exactly the size goes as a whole, but never the chunk at the start of the region.
unfoldable pub fit : (header : ℕ) → (size : ℕ) → List Chunk → Option (ℕ × List Chunk)
fit header size [] = none
fit header size (c ∷ cs) =
    let rest = fit header size cs in
    if ltb size c.avail
    then some (c.at + 8 + c.avail - size, record c { avail = c.avail - size - 8 } ∷ cs)
    else if not (c.at == header) && c.avail == size
    then some (c.at + 8, cs)
    else behind c rest

module _ (header size : ℕ) (c : Chunk) (cs : List Chunk) where
  pub fit_end :
      ltb size c.avail ≡ true
      → fit header size (c ∷ cs)
        ≡ some (c.at + 8 + c.avail - size, record c { avail = c.avail - size - 8 } ∷ cs)
  unfolding fit
  fit_end h = ground arith

  pub fit_whole :
      ltb size c.avail ≡ false
      → (not (c.at == header) && c.avail == size) ≡ true
      → fit header size (c ∷ cs) ≡ some (c.at + 8, cs)
  unfolding fit
  fit_whole h k = ground arith

  pub fit-behind :
      ltb size c.avail ≡ false
      → (not (c.at == header) && c.avail == size) ≡ false
      → fit header size (c ∷ cs) ≡ behind c (fit header size cs)
  unfolding fit
  fit-behind h k = ground arith

-- No chunk that is too small by one word for the header of what would be left of it.
abbrev pub NoSliver : ℕ → List Chunk → Type 0
NoSliver size = All (λ c. c.avail ≢ size + 4)

-- Whatever has a cell in the one memory has a cell in the other.
abbrev pub Keeps : Memory → Memory → Type 0
Keeps mem g = (a : ℕ) (x : ℤ) → mem a ≡ some x → (y : ℤ) × (g a ≡ some y)

pub Keeps-update : (mem : Memory) (p : ℕ) (v : ℤ) → Keeps mem (update mem p v)
Keeps-update mem p v a x e = elim (Bool-cases (p == a)) [
  | inl hit ↦ (v, ground arith)
  | inr miss ↦ (x, ground arith)
]

pub Keeps-trans : (f g h : Memory) → Keeps f g → Keeps g h → Keeps f h
Keeps-trans f g h k l a x e = let (y, e') = k a x e in l a y e'

pub IsChunk-agree :
    (mem g : Memory) (c : Chunk) (cs : List Chunk)
    → Keeps mem g
    → g c.at ≡ mem c.at
    → g (c.at + 4) ≡ mem (c.at + 4)
    → IsChunk mem c cs
    → IsChunk g c cs
IsChunk-agree mem g c cs keeps next size i = record {
  next = next ∙ i.next;
  size = size ∙ i.size;
  aligned = i.aligned;
  whole = i.whole;
  room = λ a lo hi al. let (x, e) = i.room a lo hi al in keeps a x e;
  before = i.before;
}

-- The headers are as they were in chunks that start at or after the bound.
pub FreeList-agree :
    (mem g : Memory) (bound : ℕ) (cs : List Chunk)
    → Keeps mem g
    → ((a : ℕ) → bound ≤ a → g a ≡ mem a)
    → All (λ d. bound ≤ d.at) cs
    → FreeList mem cs
    → FreeList g cs
FreeList-agree mem g bound [] keeps same b l = tt
FreeList-agree mem g bound (c ∷ cs) keeps same b l = (
  IsChunk-agree mem g c cs keeps (same c.at b.0) (same (c.at + 4) (omega arith)) l.0,
  FreeList-agree mem g bound cs keeps same b.1 l.1,
)

-- The run returns the block at `ret`, which is marked with its size, and turns the one free list into
-- the other; it stores in the chunks of the old list only.
pub record Takes (mem : Memory) (old left : List Chunk) (ret size : ℕ) (r : Outcome (Ptr × Memory))
    : Type 0 where
  pub final : Memory
  pub returns : r ≡ ok (some ret, final)
  pub list : FreeList final left
  pub marked : final (ret - 8) ≡ some (pos size)
  pub outside : (a : ℕ) → Outside a old → final a ≡ mem a
  pub keeps : Keeps mem final

-- Below the start of all chunks is outside of them.
pub Outside-below : (a b : ℕ) (cs : List Chunk) → a < b → All (λ d. b ≤ d.at) cs → Outside a cs
Outside-below a b [] lt h = tt
Outside-below a b (c ∷ cs) lt h = (inl (omega arith), Outside-below a b cs lt h.1)

pub All-le : (a b : ℕ) (cs : List Chunk) → a ≤ b → All (λ d. b ≤ d.at) cs → All (λ d. a ≤ d.at) cs
All-le a b [] le h = tt
All-le a b (c ∷ cs) le h = (omega arith, All-le a b cs le h.1)

-- What is taken behind a chunk leaves that chunk alone.
pub Takes-cons :
    (mem : Memory) (p c e : Chunk) (cs left : List Chunk) (ret size : ℕ)
    (r : Outcome (Ptr × Memory))
    → IsChunk mem p (c ∷ cs)
    → e.at ≡ c.at
    → Takes mem (c ∷ cs) (e ∷ left) ret size r
    → Takes mem (p ∷ c ∷ cs) (p ∷ e ∷ left) ret size r
Takes-cons mem p c e cs left ret size r i same t = record {
  final = t.final;
  returns = t.returns;
  list = (
    record {
      next =
          t.outside p.at (Outside-below p.at end (c ∷ cs) (omega arith) i.before)
          ∙ i.next
          ∙ ground arith;
      size =
          t.outside (p.at + 4) (Outside-below (p.at + 4) end (c ∷ cs) (omega arith) i.before)
          ∙ i.size;
      aligned = i.aligned;
      whole = i.whole;
      room = λ a lo hi al. let (x, q) = i.room a lo hi al in t.keeps a x q;
      before = (
        rw same i.before.0,
        All-le end (e.at + 8 + e.avail) left (omega (arith, i.before.0, same)) t.list.0.before,
      );
    },
    t.list,
  );
  marked = t.marked;
  outside = λ a out. t.outside a out.1;
  keeps = t.keeps;
}
  where
    end : ℕ
    end = p.at + 8 + p.avail
