-- ===== src/Allocator/Blocks.antt =====
-- p3/mem.c: the search cuts the block that it returns out of the free chunks, and nothing else.
use sp.Base.{
  ℕ, ◌+◌, ◌-◌, ◌%◌, ◌≤◌, ◌<◌, ◌≡◌, ◌≢◌, ◌⊎◌, inl, inr, false, not, ◌&&◌, Option, none, some, List,
  [], ◌∷◌, arith, ◌==◌, ltb, ltb→lt, Bool-cases, All, dec_lt,
}
use sp.Allocator.{Memory}
use sp.Allocator.FreeList.{
  Chunk, FreeList, Outside, Within, behind, fit, fit_end, fit_whole, fit-behind, NoSliver,
}

-- In the header of the block at `ret`, or in the block.
abbrev pub InBlock : ℕ → ℕ → ℕ → Type 0
InBlock ret size a = (ret ≤ a + 8) × (a < ret + size)

-- The bytes of the old chunks are those of the chunks left and those of the block, which are apart.
pub record Partition (old left : List Chunk) (ret size : ℕ) : Type 0 where
  pub inside : (a : ℕ) → InBlock ret size a → Within a old
  pub apart : (a : ℕ) → InBlock ret size a → Outside a left
  pub rest : (a : ℕ) → Within a old → Within a left ⊎ InBlock ret size a
  pub less : (a : ℕ) → Outside a old → Outside a left

-- No chunk has space for the size, but for one at the start of the region that it would fill.
abbrev pub NoFit : ℕ → ℕ → List Chunk → Type 0
NoFit header size = All (λ c. (c.avail ≤ size) × ((c.avail ≢ size) ⊎ (c.at ≡ header)))

-- Chunks in the order of their addresses, with sizes in words.
abbrev pub Sorted : List Chunk → Type 0
Sorted [] = Unit
Sorted (c ∷ cs) = (c.avail % 4 ≡ 0) × All (λ d. c.at + 8 + c.avail ≤ d.at) cs × Sorted cs

pub FreeList-Sorted : (mem : Memory) (cs : List Chunk) → FreeList mem cs → Sorted cs
FreeList-Sorted mem [] l = tt
FreeList-Sorted mem (c ∷ cs) (i, l) = (i.whole, i.before, FreeList-Sorted mem cs l)

Within-above : (a b : ℕ) (cs : List Chunk) → All (λ d. b ≤ d.at) cs → Within a cs → b ≤ a
Within-above a b [] h w = absurd w
Within-above a b (c ∷ cs) h (inl here) = omega (arith, h.0)
Within-above a b (c ∷ cs) h (inr there) = Within-above a b cs h.1 there

Outside-above : (a b : ℕ) (cs : List Chunk) → a < b → All (λ d. b ≤ d.at) cs → Outside a cs
Outside-above a b [] lt h = tt
Outside-above a b (c ∷ cs) lt h = (inl (omega (arith, h.0)), Outside-above a b cs lt h.1)

Partition-cons :
    (c : Chunk) (old left : List Chunk) (ret size : ℕ)
    → All (λ d. c.at + 8 + c.avail ≤ d.at) old
    → Partition old left ret size
    → Partition (c ∷ old) (c ∷ left) ret size
Partition-cons c old left ret size h p = record {
  inside = λ a b. inr (p.inside a b);
  apart = λ a b. (inr (Within-above a (c.at + 8 + c.avail) old h (p.inside a b)), p.apart a b);
  rest = rest;
  less = λ a out. (out.0, p.less a out.1);
}
  where
    rest : (a : ℕ) → Within a (c ∷ old) → Within a (c ∷ left) ⊎ InBlock ret size a
    rest a (inl here) = inl (inl here)
    rest a (inr there) = elim (p.rest a there) [ inl w ↦ inl (inr w) | inr b ↦ inr b ]

Partition-end :
    (c : Chunk) (cs : List Chunk) (size : ℕ)
    → size + 8 ≤ c.avail
    → All (λ d. c.at + 8 + c.avail ≤ d.at) cs
    → Partition
        (c ∷ cs)
        (record c { avail = c.avail - size - 8 } ∷ cs)
        (c.at + 8 + c.avail - size)
        size
Partition-end c cs size fits h = record {
  inside = λ a b. inl (omega arith);
  apart = λ a b. (inr (omega arith), Outside-above a (c.at + 8 + c.avail) cs (omega arith) h);
  rest = rest;
  less = λ a out. (omega (arith, out.0), out.1);
}
  where
    rest :
        (a : ℕ)
        → Within a (c ∷ cs)
        → Within a (record c { avail = c.avail - size - 8 } ∷ cs)
          ⊎ InBlock (c.at + 8 + c.avail - size) size a
    rest a (inl here) = elim (dec_lt a (c.at + c.avail - size)) [
      | yes low ↦ inl (inl (omega arith))
      | no high ↦ inr (omega arith)
    ]
    rest a (inr there) = inl (inr there)

Partition-whole :
    (c : Chunk) (cs : List Chunk) (size : ℕ)
    → c.avail ≡ size
    → All (λ d. c.at + 8 + c.avail ≤ d.at) cs
    → Partition (c ∷ cs) cs (c.at + 8) size
Partition-whole c cs size e h = record {
  inside = λ a b. inl (omega arith);
  apart = λ a b. Outside-above a (c.at + 8 + c.avail) cs (omega arith) h;
  rest = rest;
  less = λ a out. out.1;
}
  where
    rest : (a : ℕ) → Within a (c ∷ cs) → Within a cs ⊎ InBlock (c.at + 8) size a
    rest a (inl here) = inr (omega arith)
    rest a (inr there) = inl there

-- What the search does with the chunks: it refuses only where nothing fits.
abbrev pub Cuts : ℕ → ℕ → List Chunk → Option (ℕ × List Chunk) → Type 0
Cuts header size old none = NoFit header size old
Cuts header size old (some (ret, left)) = Partition old left ret size

Cuts-behind :
    (header size : ℕ) (c : Chunk) (cs : List Chunk) (o : Option (ℕ × List Chunk))
    → All (λ d. c.at + 8 + c.avail ≤ d.at) cs
    → (c.avail ≤ size) × ((c.avail ≢ size) ⊎ (c.at ≡ header))
    → Cuts header size cs o
    → Cuts header size (c ∷ cs) (behind c o)
Cuts-behind header size c cs none h small k = (small, k)
Cuts-behind header size c cs (some (ret, left)) h small k = Partition-cons c cs left ret size h k

pub fit-Cuts :
    (header size : ℕ) (cs : List Chunk)
    → size % 4 ≡ 0
    → NoSliver size cs
    → Sorted cs
    → Cuts header size cs (fit header size cs)
fit-Cuts header size [] words ns s = unfold fit in tt
fit-Cuts header size (c ∷ cs) words ns (whole, before, s) = elim (Bool-cases (ltb size c.avail)) [
  | inl big ↦
      let lt = ltb→lt size c.avail big in
      rw (fit_end header size c cs big) (Partition-end c cs size (omega (arith, ns.0)) before)
  | inr small ↦ elim (Bool-cases (not (c.at == header) && c.avail == size)) [
    | inl exact ↦
        rw (fit_whole header size c cs small exact)
          (Partition-whole c cs size (ground arith) before)
    | inr miss ↦ rw (fit-behind header size c cs small miss) (
        Cuts-behind header size c cs (fit header size cs) before (refused c small miss)
          (fit-Cuts header size cs words ns.1 s))
  ]
]
  where
    refused :
        (d : Chunk)
        → ltb size d.avail ≡ false
        → (not (d.at == header) && d.avail == size) ≡ false
        → (d.avail ≤ size) × ((d.avail ≢ size) ⊎ (d.at ≡ header))
    refused d small miss = ground arith
