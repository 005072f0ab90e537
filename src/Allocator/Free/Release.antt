-- ===== src/Allocator/Free/Release.antt =====
-- p3/mem.c: what `Mem_Free` does to the list of free chunks.
use sp.Base.{
  ℕ, suc, ◌+◌, ◌≤◌, ◌<◌, ◌≡◌, ◌⊎◌, ◌↔◌, inl, inr, true, false, refl, List, [], ◌∷◌, arith, ◌==◌,
  ltb, if◌then◌else◌, Bool-cases, All, dec_lt,
}
use sp.Allocator.FreeList.{Chunk, next_field, Within, All-le}

-- Where the chunk ends.
abbrev pub end : Chunk → ℕ
end c = c.at + 8 + c.avail

-- The space of a chunk that takes in the one behind it where the two touch.
abbrev pub grown_avail : Chunk → List Chunk → ℕ
grown_avail c [] = c.avail
grown_avail c (d ∷ cs) = if end c == d.at then c.avail + (d.avail + 8) else c.avail

abbrev pub grown : Chunk → List Chunk → Chunk
grown c cs = record c { avail = grown_avail c cs }

abbrev pub left_behind : Chunk → List Chunk → List Chunk
left_behind c [] = []
left_behind c (d ∷ cs) = if end c == d.at then cs else d ∷ cs

abbrev pub glue : Chunk → List Chunk → List Chunk
glue c cs = grown c cs ∷ left_behind c cs

-- The block `b` goes behind the last chunk before it, and is merged with its neighbours.
unfoldable pub release : Chunk → Chunk → List Chunk → List Chunk
release b p [] = glue p (glue b [])
release b p (q ∷ cs) =
    let rest = release b q cs in if ltb b.at q.at then glue p (glue b (q ∷ cs)) else p ∷ rest

module _ (b p q : Chunk) (cs : List Chunk) where
  pub release_here : ltb b.at q.at ≡ true → release b p (q ∷ cs) ≡ glue p (glue b (q ∷ cs))
  unfolding release
  release_here h = ground arith

  pub release_later : ltb b.at q.at ≡ false → release b p (q ∷ cs) ≡ p ∷ release b q cs
  unfolding release
  release_later h = ground arith

-- The block and the chunks have no byte in common.
abbrev pub Apart : Chunk → List Chunk → Type 0
Apart b = All (λ d. (end d ≤ b.at) ⊎ (end b ≤ d.at))

-- The chunk that a list begins with stays where it is.
pub next_field-release :
    (c b p : Chunk) (cs : List Chunk) → next_field c (release b p cs) ≡ next_field c (p ∷ cs)
unfolding release
next_field-release c b p [] = refl
next_field-release c b p (q ∷ cs) = elim (Bool-cases (ltb b.at q.at)) [
  | inl here ↦ rw (release_here b p q cs here) refl
  | inr later ↦ rw (release_later b p q cs later) refl
]

-- Nothing of the list starts before the bound.
abbrev pub From : ℕ → List Chunk → Type 0
From bound = All (λ d. bound ≤ d.at)

left_behind-From :
    (bound : ℕ) (c : Chunk) (cs : List Chunk) → From bound cs → From bound (left_behind c cs)
left_behind-From bound c [] f = tt
left_behind-From bound c (d ∷ cs) f = elim (Bool-cases (end c == d.at)) [
  | inl touch ↦ rw touch f.1
  | inr gap ↦ rw gap f
]

pub glue-From :
    (bound : ℕ) (c : Chunk) (cs : List Chunk)
    → bound ≤ c.at
    → From bound cs
    → From bound (glue c cs)
glue-From bound c cs le f = (le, left_behind-From bound c cs f)

pub release-From :
    (bound : ℕ) (b p : Chunk) (cs : List Chunk)
    → bound ≤ b.at
    → From bound (p ∷ cs)
    → From bound (release b p cs)
unfolding release
release-From bound b p [] le f = glue-From bound p (glue b []) f.0 (glue-From bound b [] le tt)
release-From bound b p (q ∷ cs) le f = elim (Bool-cases (ltb b.at q.at)) [
  | inl here ↦
      rw (release_here b p q cs here)
        (glue-From bound p (glue b (q ∷ cs)) f.0 (glue-From bound b (q ∷ cs) le f.1))
  | inr later ↦ rw (release_later b p q cs later) (f.0, release-From bound b q cs le f.1)
]

-- A byte of the chunk.
abbrev pub In : ℕ → Chunk → Type 0
In a c = (c.at ≤ a) × (a < end c)

pub glue-Within : (a : ℕ) (c : Chunk) (cs : List Chunk) → Within a (glue c cs) ↔ Within a (c ∷ cs)
glue-Within a c [] = (λ w. w, λ w. w)
glue-Within a c (d ∷ cs) = elim (Bool-cases (end c == d.at)) [
  | inl touch ↦ rw touch (together touch, apart touch)
  | inr gap ↦ rw gap (λ w. w, λ w. w)
]
  where
    whole : Chunk
    whole = record c { avail = c.avail + (d.avail + 8) }

    together : (end c == d.at) ≡ true → Within a (whole ∷ cs) → Within a (c ∷ d ∷ cs)
    together touch (inl here) = elim (dec_lt a (end c)) [
      | yes first ↦ inl (here.0, first)
      | no later ↦ inr (inl (ground arith))
    ]
    together touch (inr there) = inr (inr there)

    apart : (end c == d.at) ≡ true → Within a (c ∷ d ∷ cs) → Within a (whole ∷ cs)
    apart touch (inl here) = inl (omega arith)
    apart touch (inr (inl next)) = inl (ground arith)
    apart touch (inr (inr there)) = inr there

-- A block that is linked in behind `p`, and merged with its neighbours.
insert-Within :
    (a : ℕ) (b p : Chunk) (cs : List Chunk)
    → Within a (glue p (glue b cs)) ↔ (In a b ⊎ Within a (p ∷ cs))
insert-Within a b p cs = (from, to)
  where
    outer : Within a (glue p (glue b cs)) ↔ Within a (p ∷ glue b cs)
    outer = glue-Within a p (glue b cs)

    inner : Within a (glue b cs) ↔ Within a (b ∷ cs)
    inner = glue-Within a b cs

    sort : Within a (p ∷ glue b cs) → In a b ⊎ Within a (p ∷ cs)
    sort (inl here) = inr (inl here)
    sort (inr there) = elim (inner.0 there) [ inl block ↦ inl block | inr later ↦ inr (inr later) ]

    from : Within a (glue p (glue b cs)) → In a b ⊎ Within a (p ∷ cs)
    from w = sort (outer.0 w)

    to : In a b ⊎ Within a (p ∷ cs) → Within a (glue p (glue b cs))
    to (inl block) = outer.1 (inr (inner.1 (inl block)))
    to (inr (inl here)) = outer.1 (inl here)
    to (inr (inr later)) = outer.1 (inr (inner.1 (inr later)))

later-Within :
    (a : ℕ) (b p q : Chunk) (cs : List Chunk)
    → Within a (release b q cs) ↔ (In a b ⊎ Within a (q ∷ cs))
    → Within a (p ∷ release b q cs) ↔ (In a b ⊎ Within a (p ∷ q ∷ cs))
later-Within a b p q cs rest = (from, to)
  where
    from : Within a (p ∷ release b q cs) → In a b ⊎ Within a (p ∷ q ∷ cs)
    from (inl here) = inr (inl here)
    from (inr there) = elim (rest.0 there) [ inl block ↦ inl block | inr w ↦ inr (inr w) ]

    to : In a b ⊎ Within a (p ∷ q ∷ cs) → Within a (p ∷ release b q cs)
    to (inl block) = inr (rest.1 (inl block))
    to (inr (inl here)) = inl here
    to (inr (inr there)) = inr (rest.1 (inr there))

-- The free bytes are then the old ones and those of the block.
pub release-Within :
    (a : ℕ) (b p : Chunk) (cs : List Chunk)
    → Within a (release b p cs) ↔ (In a b ⊎ Within a (p ∷ cs))
unfolding release
release-Within a b p [] = insert-Within a b p []
release-Within a b p (q ∷ cs) = elim (Bool-cases (ltb b.at q.at)) [
  | inl here ↦ rw (release_here b p q cs here) (insert-Within a b p (q ∷ cs))
  | inr later ↦
      rw (release_later b p q cs later) (later-Within a b p q cs (release-Within a b q cs))
]

-- No chunk touches the one behind it.
abbrev pub Coalesced : List Chunk → Type 0
Coalesced [] = Unit
Coalesced (c ∷ cs) = From (suc (end c)) cs × Coalesced cs

-- A chunk that is merged with what it touches touches nothing.
glue-Coalesced :
    (c : Chunk) (cs : List Chunk) → From (end c) cs → Coalesced cs → Coalesced (glue c cs)
glue-Coalesced c [] f k = (tt, tt)
glue-Coalesced c (d ∷ cs) f k = elim (Bool-cases (end c == d.at)) [
  | inl touch ↦
      rw touch (
        All-le (suc (c.at + 8 + (c.avail + (d.avail + 8)))) (suc (end d)) cs (ground arith) k.0,
        k.1,
      )
  | inr gap ↦
      rw gap ((ground arith, All-le (suc (end c)) (suc (end d)) cs (omega (arith, f.0)) k.0), k)
]

-- A release keeps the chunks from touching.
pub release-Coalesced :
    (b p : Chunk) (cs : List Chunk)
    → end p ≤ b.at
    → Apart b cs
    → Coalesced (p ∷ cs)
    → Coalesced (release b p cs)
unfolding release
release-Coalesced b p [] le ap k = glue-Coalesced p (glue b []) (le, tt) (tt, tt)
release-Coalesced b p (q ∷ cs) le ap k = elim (Bool-cases (ltb b.at q.at)) [
  | inl here ↦
      let fits : end b ≤ q.at = ground (arith, ap.0) in
      rw (release_here b p q cs here) (
        glue-Coalesced p (glue b (q ∷ cs))
          (glue-From (end p) b (q ∷ cs) le
            (All-le (end p) (suc (end p)) (q ∷ cs) (omega arith) k.0))
          (glue-Coalesced b (q ∷ cs) (fits, All-le (end b) (suc (end q)) cs (omega arith) k.1.0)
            k.1))
  | inr later ↦
      let behind : end q ≤ b.at = ground (arith, ap.0) in
      rw (release_later b p q cs later) (
        release-From (suc (end p)) b q cs (omega (arith, k.0.0)) k.0,
        release-Coalesced b q cs behind ap.1 k.1,
      )
]
