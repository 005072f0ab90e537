-- ===== src/Allocator/Search.antt =====
-- p3/mem.c: the search of `Mem_Alloc` outside debug mode is `fit` on the list of free chunks.
use sp.Base.{
  ℕ, zero, suc, ◌+◌, ◌-◌, ◌%◌, ◌≤◌, ◌<◌, ◌≡◌, ◌≢◌, ◌∙◌, refl, ap, inl, inr, true, false, not, ◌&&◌,
  Option, none, some, List, [], ◌∷◌, arith, ◌==◌, ltb, ℤ, pos, ◌+ℤ◌, ◌-ℤ◌, update, Bool-cases,
  Outcome, ok, length, update_hit, update_miss,
}
use sp.Allocator.{Ptr, Memory, offset, next_of, take_end, take_whole, search_loop}
use sp.Allocator.FreeList.{
  Chunk, next_field, IsChunk, FreeList, behind, fit, fit_end, fit_whole, fit-behind, NoSliver,
  Keeps, Keeps-update, Keeps-trans, FreeList-agree, Takes, Takes-cons, All-le,
}

-- A chunk with more space than needed gives away its end.
module _ (mem : Memory) (c : Chunk) (cs : List Chunk) (size : ℕ) (i : IsChunk mem c cs)
    (l : FreeList mem cs) (words : size % 4 ≡ 0) (more : size < c.avail)
    (no_sliver : c.avail ≢ size + 4) where
  abbrev shrunk : Chunk
  shrunk = record c { avail = c.avail - size - 8 }

  -- The header of the block.
  abbrev block : ℕ
  block = c.at + 8 + (c.avail - size - 8)

  abbrev after_size : Memory
  after_size = update mem (c.at + 4) (pos (c.avail - size - 8))

  abbrev after_mark : Memory
  after_mark = update after_size block (pos size)

  fits : size + 8 ≤ c.avail
  fits = let whole = i.whole in omega arith

  block_cell : (x : ℤ) × (mem block ≡ some x)
  block_cell =
      let whole = i.whole in
      let aligned = i.aligned in
      let le = fits in i.room block (omega arith) (omega arith) (omega arith)

  take_end_lem : take_end mem c.at (pos c.avail) size 0 ≡ ok (some (block + 8), after_mark)
  unfolding take_end offset ◌-ℤ◌
  take_end_lem = let le = fits in let e = block_cell.1 in let s = i.size in ground arith

  take_end-Takes :
      Takes mem
        (c ∷ cs)
        (shrunk ∷ cs)
        (c.at + 8 + c.avail - size)
        size
        (take_end mem c.at (pos c.avail) size 0)
  take_end-Takes =
      let le = fits in
      record {
        final = after_mark;
        returns = take_end_lem ∙ ap (λ a. ok (some a, after_mark)) (omega arith);
        list = (
          record {
            next = ground (arith, i.next);
            size = ground arith;
            aligned = i.aligned;
            whole = let whole = i.whole in omega arith;
            room = λ a lo hi al. let (x, e) = i.room a lo (omega arith) al in keeps a x e;
            before = All-le _ (c.at + 8 + c.avail) cs (omega arith) i.before;
          },
          FreeList-agree mem after_mark (c.at + 8 + c.avail) cs keeps (λ a h. ground arith) i.before
              l,
        );
        marked = ground arith;
        outside = λ a out. ground (arith, out.0);
        keeps = keeps;
      }
    where
      keeps : Keeps mem after_mark
      keeps =
          Keeps-trans mem after_size after_mark (Keeps-update mem _ _) (Keeps-update after_size _ _)

-- A chunk of exactly the size is unlinked from behind the one before it.
after_unlink : Memory → Chunk → Chunk → List Chunk → ℕ → Memory
after_unlink mem p c cs size = update (update mem p.at (next_field p cs)) c.at (pos size)

take_whole_lem :
    (mem : Memory) (p c : Chunk) (cs : List Chunk) (size : ℕ)
    → IsChunk mem p (c ∷ cs)
    → IsChunk mem c cs
    → take_whole mem c.at (some p.at) size ≡ ok (some (c.at + 8), after_unlink mem p c cs size)
unfolding take_whole ◌+ℤ◌ after_unlink
take_whole_lem mem p c [] size ip ic =
    let e = ip.next in let d = ic.next in let b = ip.before.0 in ground arith
take_whole_lem mem p c (q ∷ cs) size ip ic =
    let e = ip.next in
    let d = ic.next in let b = ip.before.0 in let b' = ic.before.0 in ground arith

take_whole-Takes :
    (mem : Memory) (p c : Chunk) (cs : List Chunk) (size : ℕ)
    → IsChunk mem p (c ∷ cs)
    → IsChunk mem c cs
    → FreeList mem cs
    → Takes mem (p ∷ c ∷ cs) (p ∷ cs) (c.at + 8) size (take_whole mem c.at (some p.at) size)
unfolding after_unlink
take_whole-Takes mem p c cs size ip ic l =
    let b = ip.before.0 in
    record {
      final = after_unlink mem p c cs size;
      returns = take_whole_lem mem p c cs size ip ic;
      list = (
        record {
          next =
              update_miss (update mem p.at (next_field p cs)) c.at p.at (pos size)
                (λ q. omega arith)
              ∙ update_hit mem p.at (next_field p cs);
          size =
              update_miss (update mem p.at (next_field p cs)) c.at (p.at + 4) (pos size)
                (λ q. omega arith)
              ∙ update_miss mem p.at (p.at + 4) (next_field p cs) (λ q. omega arith)
              ∙ ip.size;
          aligned = ip.aligned;
          whole = ip.whole;
          room = λ a lo hi al. let (x, e) = ip.room a lo hi al in keeps a x e;
          before = ip.before.1;
        },
        FreeList-agree mem (after_unlink mem p c cs size) (c.at + 8 + c.avail) cs keeps
            (λ a h. ground arith) ic.before l,
      );
      marked = ground arith;
      outside = λ a out. ground (arith, out.0, out.1.0);
      keeps = keeps;
    }
  where
    keeps : Keeps mem (after_unlink mem p c cs size)
    keeps =
        Keeps-trans mem (update mem p.at (next_field p cs)) _ (Keeps-update mem _ _)
          (Keeps-update _ c.at (pos size))

abbrev pub first : List Chunk → Ptr
first [] = none
first (c ∷ cs) = some c.at

-- What the search does with the chunks `old`, where `fit` would do `wanted`.
abbrev pub Fits :
    Memory → List Chunk → ℕ → Option (ℕ × List Chunk) → Outcome (Ptr × Memory) → Type 0
Fits mem old size none r = r ≡ ok (none, mem)
Fits mem old size (some (ret, left)) r = Takes mem old left ret size r

pub next_of_lem :
    (mem : Memory) (c : Chunk) (cs : List Chunk)
    → IsChunk mem c cs
    → next_of mem c.at ≡ ok (first cs)
unfolding next_of offset
next_of_lem mem c [] i = let e = i.next in ground arith
next_of_lem mem c (d ∷ cs) i = let e = i.next in let b = i.before.0 in ground arith

module _ (n : ℕ) (mem : Memory) (header size : ℕ) (c : Chunk) (cs : List Chunk) (prev : Ptr)
    (i : IsChunk mem c cs) where
  pub round_end :
      ltb size c.avail ≡ true
      → search_loop (suc n) mem header size 0 (some c.at) prev
        ≡ take_end mem c.at (pos c.avail) size 0
  unfolding search_loop ◌+ℤ◌
  round_end h = let s = i.size in ground arith

  round_whole :
      ltb size c.avail ≡ false
      → (not (c.at == header) && c.avail == size) ≡ true
      → search_loop (suc n) mem header size 0 (some c.at) prev ≡ take_whole mem c.at prev size
  unfolding search_loop ◌+ℤ◌
  round_whole h k = let s = i.size in ground arith

  round_next :
      ltb size c.avail ≡ false
      → (not (c.at == header) && c.avail == size) ≡ false
      → search_loop (suc n) mem header size 0 (some c.at) prev
        ≡ search_loop n mem header size 0 (first cs) (some c.at)
  unfolding search_loop ◌+ℤ◌
  round_next h k = let s = i.size in let e = next_of_lem mem c cs i in ground arith

Fits-cons :
    (mem : Memory) (p c : Chunk) (cs : List Chunk) (size : ℕ) (o : Option (ℕ × List Chunk))
    (r : Outcome (Ptr × Memory))
    → IsChunk mem p (c ∷ cs)
    → Fits mem (c ∷ cs) size (behind c o) r
    → Fits mem (p ∷ c ∷ cs) size (behind p (behind c o)) r
Fits-cons mem p c cs size none r i f = f
Fits-cons mem p c cs size (some (ret, left)) r i f =
    Takes-cons mem p c c cs left ret size r i refl f

-- The search behind a chunk that it has passed.
search_behind :
    (n : ℕ) (mem : Memory) (header size : ℕ) (p : Chunk) (cs : List Chunk)
    → length cs < n
    → size % 4 ≡ 0
    → NoSliver size cs
    → FreeList mem (p ∷ cs)
    → Fits mem
        (p ∷ cs)
        size
        (behind p (fit header size cs))
        (search_loop n mem header size 0 (first cs) (some p.at))
search_behind zero mem header size p cs lt words ns l = absurd (omega arith)
search_behind (suc n) mem header size p [] lt words ns l = unfold search_loop fit in refl
search_behind (suc n) mem header size p (c ∷ cs) lt words ns (ip, (ic, l)) =
    elim (Bool-cases (ltb size c.avail)) [
      | inl big ↦
          rw (fit_end header size c cs big, round_end n mem header size c cs (some p.at) ic big)
            (Takes-cons mem p c (record c { avail = c.avail - size - 8 }) cs cs _ size _ ip refl
              (take_end-Takes mem c cs size ic l words (ground arith) ns.0))
      | inr small ↦ elim (Bool-cases (not (c.at == header) && c.avail == size)) [
        | inl exact ↦
            rw
              (
                fit_whole header size c cs small exact,
                round_whole n mem header size c cs (some p.at) ic small exact,
              )
              (take_whole-Takes mem p c cs size ip ic l)
        | inr miss ↦
            rw
              (
                fit-behind header size c cs small miss,
                round_next n mem header size c cs (some p.at) ic small miss,
              )
              (Fits-cons mem p c cs size (fit header size cs) _ ip
                (search_behind n mem header size c cs (omega arith) words ns.1 (ic, l)))
      ]
    ]

-- The search of `Mem_Alloc`, from the start of the region.
pub search_loop_lem :
    (n : ℕ) (mem : Memory) (size : ℕ) (c : Chunk) (cs : List Chunk)
    → length (c ∷ cs) < n
    → size % 4 ≡ 0
    → NoSliver size (c ∷ cs)
    → FreeList mem (c ∷ cs)
    → Fits mem
        (c ∷ cs)
        size
        (fit c.at size (c ∷ cs))
        (search_loop n mem c.at size 0 (some c.at) none)
search_loop_lem zero mem size c cs lt words ns l = absurd (omega arith)
search_loop_lem (suc n) mem size c cs lt words ns (ic, l) = elim (Bool-cases (ltb size c.avail)) [
  | inl big ↦
      rw (fit_end c.at size c cs big, round_end n mem c.at size c cs none ic big)
        (take_end-Takes mem c cs size ic l words (ground arith) ns.0)
  | inr small ↦
      let miss : (not (c.at == c.at) && c.avail == size) ≡ false = ground arith in
      rw (fit-behind c.at size c cs small miss, round_next n mem c.at size c cs none ic small miss)
        (search_behind n mem c.at size c cs (omega arith) words ns.1 (ic, l))
]
