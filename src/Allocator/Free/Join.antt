-- ===== src/Allocator/Free/Join.antt =====
-- p3/mem.c: a free chunk takes in the one behind it.
use sp.Base.{
  ℕ, ◌+◌, ◌-◌, ◌%◌, ◌≤◌, ◌<◌, ◌≡◌, ◌≢◌, ◌∙◌, refl, sym, subst, inl, inr, true, false, some, List,
  [], ◌∷◌, arith, ◌==◌, ℤ, pos, negsuc, ◌+ℤ◌, eqb_ℤ, update, update_hit, update_miss, Bool-cases,
  Outcome, ok, dec_lt,
}
use sp.Allocator.{Memory, offset}
use sp.Allocator.FreeList.{
  Chunk, next_field, IsChunk, FreeList, Keeps, Keeps-update, Keeps-trans, FreeList-agree, All-le,
}
use sp.Allocator.Search.{first}
use sp.Allocator.Free.{join_next, join, merge_next, merge_prev}
use sp.Allocator.Free.Release.{end, From, glue}

-- The chunk `c` in front of `cs` is merged with what it touches; only its header is written.
pub record Glued (mem : Memory) (c : Chunk) (cs : List Chunk) (r : Outcome Memory) : Type 0 where
  pub final : Memory
  pub returns : r ≡ ok final
  pub list : FreeList final (glue c cs)
  pub outside : (a : ℕ) → a ≢ c.at → a ≢ c.at + 4 → final a ≡ mem a
  pub keeps : Keeps mem final

module _ (mem : Memory) (c d : Chunk) (cs : List Chunk) (ic : IsChunk mem c (d ∷ cs))
    (id : IsChunk mem d cs) (l : FreeList mem cs) (touch : (end c == d.at) ≡ true) where
  abbrev merged : Chunk
  merged = record c { avail = c.avail + (d.avail + 8) }

  abbrev joined : Memory
  joined =
      update (update mem c.at (next_field merged cs)) (c.at + 4) (pos (c.avail + (d.avail + 8)))

  joined_next :
      (es : List Chunk)
      → From (end d) es
      → join_next (pos (d.at - c.at)) (next_field d es) ≡ next_field merged es
  unfolding ◌+ℤ◌
  joined_next [] f = refl
  joined_next (e ∷ es) f = let b = f.0 in ground (arith, touch)

  join_lem : join 0 mem c.at d.at ≡ ok joined
  unfolding join ◌+ℤ◌
  join_lem =
      let n = joined_next cs id.before in
      let e1 = ic.next in
      let e2 = id.next in
      let e3 = ic.size in let e4 = id.size in let b = ic.before.0 in ground arith

  Keeps-joined : Keeps mem joined
  Keeps-joined =
      Keeps-trans mem (update mem c.at (next_field merged cs)) joined (Keeps-update mem c.at _)
        (Keeps-update _ (c.at + 4) _)

  join-list : FreeList joined (merged ∷ cs)
  join-list = (
    record {
      next =
          update_miss (update mem c.at (next_field merged cs)) (c.at + 4) c.at _ (λ q. omega arith)
          ∙ update_hit mem c.at _;
      size = update_hit (update mem c.at (next_field merged cs)) (c.at + 4) _;
      aligned = ic.aligned;
      whole = omega (arith, ic.whole, id.whole);
      room = room;
      before = All-le (end merged) (end d) cs (ground arith) id.before;
    },
    FreeList-agree mem joined (end d) cs Keeps-joined (λ a h. ground (arith, touch)) id.before l,
  )
    where
      room : (a : ℕ) → c.at ≤ a → a < end merged → a % 4 ≡ 0 → (x : ℤ) × (joined a ≡ some x)
      room a lo hi al = elim (dec_lt a (end c)) [
        | yes here ↦ let (x, e) = ic.room a lo here al in Keeps-joined a x e
        | no there ↦ let (x, e) = id.room a (ground arith) (ground arith) al in Keeps-joined a x e
      ]

  join-Glued : Glued mem c (d ∷ cs) (join 0 mem c.at d.at)
  join-Glued = record {
    final = joined;
    returns = join_lem;
    list = rw touch join-list;
    outside = λ a k k'. ground arith;
    keeps = Keeps-joined;
  }

-- Where nothing touches, nothing is written.
stay-Glued :
    (mem : Memory) (c : Chunk) (cs : List Chunk)
    → glue c cs ≡ c ∷ cs
    → FreeList mem (c ∷ cs)
    → Glued mem c cs (ok mem)
stay-Glued mem c cs e l = record {
  final = mem;
  returns = refl;
  list = subst (FreeList mem) (sym e) l;
  outside = λ a k k'. refl;
  keeps = λ a x q. (x, q);
}

gap_glue : (c d : Chunk) (cs : List Chunk) → (end c == d.at) ≡ false → glue c (d ∷ cs) ≡ c ∷ d ∷ cs
gap_glue c d cs gap = rw gap refl

module _ (mem : Memory) (b d : Chunk) (cs : List Chunk) (ib : IsChunk mem b (d ∷ cs)) where
  merge_next_touch :
      (end b == d.at) ≡ true → merge_next 0 mem b.at b.avail (some d.at) ≡ join 0 mem b.at d.at
  unfolding merge_next
  merge_next_touch touch =
      let distance : eqb_ℤ (pos (d.at - b.at)) (negsuc 0) ≡ false = ground arith in
      rw (ib.next, distance, touch) refl

  merge_next_gap : (end b == d.at) ≡ false → merge_next 0 mem b.at b.avail (some d.at) ≡ ok mem
  unfolding merge_next
  merge_next_gap gap =
      let distance : eqb_ℤ (pos (d.at - b.at)) (negsuc 0) ≡ false = ground arith in
      rw (ib.next, distance, gap) refl

-- The merge with the next free chunk.
pub merge_next-Glued :
    (mem : Memory) (b : Chunk) (cs : List Chunk)
    → FreeList mem (b ∷ cs)
    → Glued mem b cs (merge_next 0 mem b.at b.avail (first cs))
merge_next-Glued mem b [] l = unfold merge_next in stay-Glued mem b [] refl l
merge_next-Glued mem b (d ∷ cs) (ib, (id, l)) = elim (Bool-cases (end b == d.at)) [
  | inl touch ↦
      subst (Glued mem b (d ∷ cs)) (sym (merge_next_touch mem b d cs ib touch))
        (join-Glued mem b d cs ib id l touch)
  | inr gap ↦
      subst (Glued mem b (d ∷ cs)) (sym (merge_next_gap mem b d cs ib gap))
        (stay-Glued mem b (d ∷ cs) (gap_glue b d cs gap) (ib, (id, l)))
]

-- The merge with the free chunk before.
pub merge_prev-Glued :
    (mem : Memory) (p b : Chunk) (cs : List Chunk)
    → FreeList mem (p ∷ b ∷ cs)
    → Glued mem p (b ∷ cs) (merge_prev 0 mem p.at b.at)
unfolding merge_prev offset
merge_prev-Glued mem p b cs (ip, (ib, l)) =
    let e = ip.size in
    elim (Bool-cases (end p == b.at)) [
      | inl touch ↦ rw (e, touch) (join-Glued mem p b cs ip ib l touch)
      | inr gap ↦ rw (e, gap) (stay-Glued mem p (b ∷ cs) (gap_glue p b cs gap) (ip, (ib, l)))
    ]
