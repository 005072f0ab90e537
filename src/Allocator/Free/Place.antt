-- ===== src/Allocator/Free/Place.antt =====
-- p3/mem.c: a block finds its place in the free list, and is linked in.
use sp.Base.{
  ℕ, zero, suc, ◌+◌, ◌-◌, ◌%◌, ◌≤◌, ◌<◌, ◌≡◌, ◌≢◌, ◌∙◌, refl, sym, ap, subst, inl, inr, true, false,
  none, some, List, [], ◌∷◌, arith, ltb, ℤ, pos, negsuc, sub_ℕ, update, update_hit, update_miss,
  Bool-cases, Outcome, ok, ◌>>=◌, length, store, store_lem,
}
use sp.Allocator.{Memory}
use sp.Allocator.FreeList.{
  Chunk, next_field, IsChunk, FreeList, Outside, Keeps, Keeps-update, Keeps-trans, FreeList-agree,
  All-le, Outside-below,
}
use sp.Allocator.Search.{first, next_of_lem}
use sp.Allocator.Free.{place_loop, merge_next, merge_prev, insert_chunk}
use sp.Allocator.Free.Release.{
  end, From, grown, left_behind, glue, glue-From, release, release_here, release_later,
  release-From, next_field-release, Apart,
}
use sp.Allocator.Free.Join.{merge_next-Glued, merge_prev-Glued}

-- The block has a cell for each of its words, its header included.
pub record IsBlock (mem : Memory) (b : Chunk) : Type 0 where
  pub aligned : b.at % 4 ≡ 0
  pub whole : b.avail % 4 ≡ 0
  pub room : (a : ℕ) → b.at ≤ a → a < end b → a % 4 ≡ 0 → (x : ℤ) × (mem a ≡ some x)

-- The run turns the one free list into the other; it stores in the old chunks and in the block only.
pub record Released (mem : Memory) (b : Chunk) (old new : List Chunk) (r : Outcome Memory)
    : Type 0 where
  pub final : Memory
  pub returns : r ≡ ok final
  pub list : FreeList final new
  pub outside : (a : ℕ) → Outside a (b ∷ old) → final a ≡ mem a
  pub keeps : Keeps mem final

-- The field that the source computes for the next chunk.
link_field :
    (b : Chunk) (cs : List Chunk)
    → From (end b) cs
    → elim (first cs) as (λ p. ℤ) [ none ↦ negsuc 0 | some q ↦ sub_ℕ q b.at ] ≡ next_field b cs
link_field b [] f = refl
link_field b (q ∷ cs) f = ground (arith, f.0)

-- Three stores in a row.
stores :
    (f g h m : Memory) (i j k : ℕ) (x y z : ℤ) (rest : Memory → Outcome Memory)
    → store f i x ≡ ok g
    → store g j y ≡ ok h
    → store h k z ≡ ok m
    → (do f1 ← store f i x; f2 ← store f1 j y; f3 ← store f2 k z; rest f3) ≡ rest m
stores f g h m i j k x y z rest a b c =
    ap (λ o. do f1 ← o; f2 ← store f1 j y; f3 ← store f2 k z; rest f3) a
    ∙ ap (λ o. do f2 ← o; f3 ← store f2 k z; rest f3) b
    ∙ ap (λ o. do f3 ← o; rest f3) c

module _ (mem : Memory) (p b : Chunk) (cs : List Chunk) (ip : IsChunk mem p cs)
    (l : FreeList mem cs) (ib : IsBlock mem b) (above : end p ≤ b.at)
    (below : From (end b) cs) where
  abbrev mem1 : Memory
  mem1 = update mem b.at (next_field b cs)

  abbrev mem2 : Memory
  mem2 = update mem1 (b.at + 4) (pos b.avail)

  abbrev linked : Memory
  linked = update mem2 p.at (pos (b.at - p.at))

  Keeps-linked : Keeps mem linked
  Keeps-linked =
      Keeps-trans mem mem1 linked (Keeps-update mem b.at _)
        (Keeps-trans mem1 mem2 linked (Keeps-update mem1 (b.at + 4) _) (Keeps-update mem2 p.at _))

  linked-outside : (a : ℕ) → a ≢ b.at → a ≢ b.at + 4 → a ≢ p.at → linked a ≡ mem a
  linked-outside a k k' k'' =
      update_miss mem2 p.at a _ (λ q. k'' (sym q))
      ∙ update_miss mem1 (b.at + 4) a _ (λ q. k' (sym q))
      ∙ update_miss mem b.at a _ (λ q. k (sym q))

  linked-list : FreeList linked (p ∷ b ∷ cs)
  linked-list = (
    record {
      next = update_hit mem2 p.at _;
      size = ground (arith, ip.size);
      aligned = ip.aligned;
      whole = ip.whole;
      room = λ a lo hi al. let (x, e) = ip.room a lo hi al in Keeps-linked a x e;
      before = (above, ip.before);
    },
    (
      record {
        next = ground arith;
        size = ground arith;
        aligned = ib.aligned;
        whole = ib.whole;
        room = λ a lo hi al. let (x, e) = ib.room a lo hi al in Keeps-linked a x e;
        before = below;
      },
      FreeList-agree mem linked (end b) cs Keeps-linked (λ a h. ground arith) below l,
    ),
  )

  insert_links :
      insert_chunk 0 mem b.at b.avail (p.at, first cs)
      ≡ (merge_next 0 linked b.at b.avail (first cs) >>= λ m. merge_prev 0 m p.at b.at)
  unfolding insert_chunk
  insert_links =
      let field = link_field b cs below in
      let first_word = ib.room b.at (omega arith) (omega arith) ib.aligned in
      let second_word =
        ib.room (b.at + 4) (omega arith) (omega arith) (omega (arith, ib.aligned)) in
      let second : mem1 (b.at + 4) ≡ some second_word.0 = ground (arith, second_word.1) in
      let p_word : (x : ℤ) × (mem2 p.at ≡ some x) = (next_field p cs, ground (arith, ip.next)) in
      let v = elim (first cs) as (λ x. ℤ) [ none ↦ negsuc 0 | some q ↦ sub_ℕ q b.at ] in
      let back : sub_ℕ b.at p.at ≡ pos (b.at - p.at) = ground arith in
      stores mem mem1 mem2 linked b.at (b.at + 4) p.at v (pos b.avail) (sub_ℕ b.at p.at)
        (λ m. merge_next 0 m b.at b.avail (first cs) >>= λ m'. merge_prev 0 m' p.at b.at)
        (subst (λ x. store mem b.at x ≡ ok mem1) (sym field)
          (store_lem mem b.at (next_field b cs) first_word.1))
        (store_lem mem1 (b.at + 4) (pos b.avail) second)
        (subst (λ x. store mem2 p.at x ≡ ok linked) (sym back) (store_lem mem2 p.at _ p_word.1))

  insert-Released :
      Released mem b
        (p ∷ cs)
        (glue p (glue b cs))
        (insert_chunk 0 mem b.at b.avail (p.at, first cs))
  insert-Released =
      let (ip', rest) = linked-list in
      let g = merge_next-Glued linked b cs rest in
      let same_at = g.outside p.at (λ q. omega arith) (λ q. omega arith) in
      let same_size = g.outside (p.at + 4) (λ q. omega arith) (λ q. omega arith) in
      let ip2 : IsChunk g.final p (glue b cs) = record {
        next = same_at ∙ ip'.next;
        size = same_size ∙ ip'.size;
        aligned = ip'.aligned;
        whole = ip'.whole;
        room = λ a lo hi al. let (x, e) = ip'.room a lo hi al in g.keeps a x e;
        before = glue-From (end p) b cs above ip.before;
      } in
      let h = merge_prev-Glued g.final p (grown b cs) (left_behind b cs) (ip2, g.list) in
      record {
        final = h.final;
        returns =
            insert_links ∙ ap (λ o. o >>= λ m. merge_prev 0 m p.at b.at) g.returns ∙ h.returns;
        list = h.list;
        outside = λ a out.
            h.outside a (λ q. omega (arith, out.1.0)) (λ q. omega (arith, out.1.0))
            ∙ g.outside a (λ q. omega (arith, out.0)) (λ q. omega (arith, out.0))
            ∙ linked-outside a (λ q. omega (arith, out.0)) (λ q. omega (arith, out.0))
                (λ q. omega (arith, out.1.0));
        keeps =
            Keeps-trans mem g.final h.final (Keeps-trans mem linked g.final Keeps-linked g.keeps)
              h.keeps;
      }

module _ (n : ℕ) (mem : Memory) (b p : Chunk) where
  place_last : IsChunk mem p [] → place_loop (suc n) mem b.at p.at ≡ ok (p.at, none)
  unfolding place_loop
  place_last ip = rw (next_of_lem mem p [] ip) refl

  place_here :
      (q : Chunk) (cs : List Chunk)
      → IsChunk mem p (q ∷ cs)
      → ltb b.at q.at ≡ true
      → place_loop (suc n) mem b.at p.at ≡ ok (p.at, some q.at)
  unfolding place_loop
  place_here q cs ip here = let e = next_of_lem mem p (q ∷ cs) ip in ground (arith, e, here)

  place_later :
      (q : Chunk) (cs : List Chunk)
      → IsChunk mem p (q ∷ cs)
      → ltb b.at q.at ≡ false
      → place_loop (suc n) mem b.at p.at ≡ place_loop n mem b.at q.at
  unfolding place_loop
  place_later q cs ip later = let e = next_of_lem mem p (q ∷ cs) ip in ground (arith, e, later)

-- A chunk in front of what changes stays as it is.
Released-cons :
    (mem : Memory) (b p q : Chunk) (cs : List Chunk) (r : Outcome Memory)
    → IsChunk mem p (q ∷ cs)
    → end p ≤ b.at
    → Released mem b (q ∷ cs) (release b q cs) r
    → Released mem b (p ∷ q ∷ cs) (p ∷ release b q cs) r
Released-cons mem b p q cs r ip above k = record {
  final = k.final;
  returns = k.returns;
  list = (
    record {
      next =
          k.outside p.at
            (inl (omega arith), Outside-below p.at (end p) (q ∷ cs) (omega arith) ip.before)
          ∙ ip.next
          ∙ ap some (sym (next_field-release p b q cs));
      size =
          k.outside (p.at + 4)
            (inl (omega arith), Outside-below (p.at + 4) (end p) (q ∷ cs) (omega arith) ip.before)
          ∙ ip.size;
      aligned = ip.aligned;
      whole = ip.whole;
      room = λ a lo hi al. let (x, e) = ip.room a lo hi al in k.keeps a x e;
      before = release-From (end p) b q cs above ip.before;
    },
    k.list,
  );
  outside = λ a out. k.outside a (out.0, out.1.1);
  keeps = k.keeps;
}

-- The block goes where `release` puts it.
pub place-Released :
    (n : ℕ) (mem : Memory) (b p : Chunk) (cs : List Chunk)
    → length cs < n
    → FreeList mem (p ∷ cs)
    → IsBlock mem b
    → end p ≤ b.at
    → Apart b cs
    → Released mem b
        (p ∷ cs)
        (release b p cs)
        (place_loop n mem b.at p.at >>= insert_chunk 0 mem b.at b.avail)
place-Released zero mem b p cs lt l ib above apart = absurd (omega arith)
place-Released (suc n) mem b p [] lt (ip, l) ib above apart =
    rw (place_last n mem b p ip) (unfold release in insert-Released mem p b [] ip tt ib above tt)
place-Released (suc n) mem b p (q ∷ cs) lt (ip, (iq, l)) ib above apart =
    elim (Bool-cases (ltb b.at q.at)) [
      | inl here ↦
          let fits : end b ≤ q.at = ground (arith, apart.0) in
          rw (place_here n mem b p q cs ip here, release_here b p q cs here)
            (insert-Released mem p b (q ∷ cs) ip (iq, l) ib above
              (fits, All-le (end b) (end q) cs (omega arith) iq.before))
      | inr later ↦
          let behind : end q ≤ b.at = ground (arith, apart.0) in
          rw (place_later n mem b p q cs ip later, release_later b p q cs later)
            (Released-cons mem b p q cs _ ip above
              (place-Released n mem b q cs (omega arith) (iq, l) ib behind apart.1))
    ]
