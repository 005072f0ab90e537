-- ===== src/Allocator/Free/Back.antt =====
-- p3/mem.c: `Mem_Free` undoes what the search did to the free list.
use sp.Base.{
  ℕ, suc, ◌+◌, ◌-◌, ◌%◌, ◌≤◌, ◌≡◌, ◌≢◌, ◌∙◌, refl, sym, ap, subst, inl, inr, true, false, not, ◌&&◌,
  Option, none, some, List, [], ◌∷◌, arith, ◌==◌, ltb, ltb→lt, Bool-cases, length, All,
}
use sp.Allocator.FreeList.{Chunk, All-le, behind, fit, fit_end, fit_whole, fit-behind, NoSliver}
use sp.Allocator.Free.Release.{
  end, From, glue, release, release_here, release_later, Apart, Coalesced,
}

-- The chunk that a block and its header make.
abbrev pub block : ℕ → ℕ → Chunk
block ret size = record { at = ret - 8; avail = size }

-- The block at `ret` lies behind the chunk `e`, apart from the others, and goes back to make the old list.
pub record Back (size : ℕ) (c : Chunk) (cs : List Chunk) (e : Chunk) (ds : List Chunk) (ret : ℕ)
    : Type 0 where
  pub start : 8 ≤ ret
  pub aligned : ret % 4 ≡ 0
  pub above : end e ≤ ret - 8
  pub apart : Apart (block ret size) ds
  pub back : release (block ret size) e ds ≡ c ∷ cs
  pub fewer : length ds ≤ length cs
  pub same : e.at ≡ c.at

gap_glue : (c : Chunk) (cs : List Chunk) → From (suc (end c)) cs → glue c cs ≡ c ∷ cs
gap_glue c [] f = refl
gap_glue c (d ∷ cs) f = let gap : (end c == d.at) ≡ false = ground (arith, f.0) in rw gap refl

-- A block that touches nothing behind it.
release_alone :
    (b p : Chunk) (cs : List Chunk) → From (suc (end b)) cs → release b p cs ≡ glue p (b ∷ cs)
unfolding release
release_alone b p [] f = refl
release_alone b p (q ∷ cs) f =
    let here : ltb b.at q.at ≡ true = ground (arith, f.0) in
    release_here b p q cs here ∙ ap (glue p) (gap_glue b (q ∷ cs) f)

From-Apart : (b : Chunk) (cs : List Chunk) → From (end b) cs → Apart b cs
From-Apart b [] f = tt
From-Apart b (c ∷ cs) f = (inr f.0, From-Apart b cs f.1)

module _ (size : ℕ) (c : Chunk) (cs : List Chunk) (fits : size + 8 ≤ c.avail) (words : size % 4 ≡ 0)
    (w : (c.at % 4 ≡ 0) × (c.avail % 4 ≡ 0)) (k : Coalesced (c ∷ cs)) where
  abbrev shrunk : Chunk
  shrunk = record c { avail = c.avail - size - 8 }

  abbrev taken : Chunk
  taken = block (c.at + 8 + c.avail - size) size

  end_Back : Back size c cs shrunk cs (c.at + 8 + c.avail - size)
  end_Back = record {
    start = omega arith;
    aligned = omega (arith, w.0, w.1);
    above = omega arith;
    apart = From-Apart taken cs (All-le (end taken) (suc (end c)) cs (omega arith) k.0);
    back =
        let touch : (end shrunk == taken.at) ≡ true = ground arith in
        let whole : c.avail - size - 8 + (size + 8) ≡ c.avail = omega arith in
        release_alone taken shrunk cs (All-le (suc (end taken)) (suc (end c)) cs (omega arith) k.0)
        ∙ rw (touch, whole) refl;
    fewer = omega arith;
    same = refl;
  }

whole_Back :
    (size : ℕ) (p c : Chunk) (cs : List Chunk)
    → c.avail ≡ size
    → c.at % 4 ≡ 0
    → Coalesced (p ∷ c ∷ cs)
    → Back size p (c ∷ cs) p cs (c.at + 8)
whole_Back size p c cs exact word k =
    let same : block (c.at + 8) size ≡ c =
      ap (λ a. record { at = a; avail = size }) (omega arith)
      ∙ ap (λ z. record { at = c.at; avail = z }) (sym exact) in
    record {
      start = omega arith;
      aligned = omega arith;
      above = omega (arith, k.0.0);
      apart =
          subst (λ b. Apart b cs) (sym same)
            (From-Apart c cs (All-le (end c) (suc (end c)) cs (omega arith) k.1.0));
      back = ap (λ b. release b p cs) same ∙ release_alone c p cs k.1.0 ∙ gap_glue p (c ∷ cs) k.0;
      fewer = omega arith;
      same = refl;
    }

Back-cons :
    (size : ℕ) (p c : Chunk) (cs : List Chunk) (e : Chunk) (ds : List Chunk) (ret : ℕ)
    → Coalesced (p ∷ c ∷ cs)
    → Back size c cs e ds ret
    → Back size p (c ∷ cs) p (e ∷ ds) ret
Back-cons size p c cs e ds ret k b =
    let later : ltb (ret - 8) e.at ≡ false = let a = b.above in ground arith in
    record {
      start = b.start;
      aligned = b.aligned;
      above = let a = b.above in let s = b.same in omega (arith, k.0.0);
      apart = (inl b.above, b.apart);
      back = release_later (block ret size) p e ds later ∙ ap (λ l. p ∷ l) b.back;
      fewer = omega (arith, b.fewer);
      same = refl;
    }

-- What the search leaves can be put together again.
abbrev pub Recovers : ℕ → Chunk → List Chunk → Option (ℕ × List Chunk) → Type 0
Recovers size c cs none = Unit
Recovers size c cs (some (ret, left)) =
    (e : Chunk) × (ds : List Chunk) × (left ≡ e ∷ ds) × Back size c cs e ds ret

Recovers-cons :
    (size : ℕ) (p c : Chunk) (cs : List Chunk) (o : Option (ℕ × List Chunk))
    → Coalesced (p ∷ c ∷ cs)
    → Recovers size c cs o
    → Recovers size p (c ∷ cs) (behind p o)
Recovers-cons size p c cs none k r = tt
Recovers-cons size p c cs (some (ret, left)) k (e, ds, same, b) =
    (p, e ∷ ds, ap (λ l. p ∷ l) same, Back-cons size p c cs e ds ret k b)

fit_end-Recovers :
    (header size : ℕ) (c : Chunk) (cs : List Chunk)
    → ltb size c.avail ≡ true
    → size + 8 ≤ c.avail
    → size % 4 ≡ 0
    → (c.at % 4 ≡ 0) × (c.avail % 4 ≡ 0)
    → Coalesced (c ∷ cs)
    → Recovers size c cs (fit header size (c ∷ cs))
fit_end-Recovers header size c cs big fits words w k =
    subst (Recovers size c cs) (sym (fit_end header size c cs big))
      (record c { avail = c.avail - size - 8 }, cs, refl, end_Back size c cs fits words w k)

-- Starts and sizes in words, so that more than the size and not a sliver means room for a header.
abbrev pub Words : List Chunk → Type 0
Words = All (λ c. (c.at % 4 ≡ 0) × (c.avail % 4 ≡ 0))

module _ (header size : ℕ) (words : size % 4 ≡ 0) where
  roomy :
      (c : Chunk)
      → c.avail % 4 ≡ 0
      → c.avail ≢ size + 4
      → ltb size c.avail ≡ true
      → size + 8 ≤ c.avail
  roomy c w ns big = let lt = ltb→lt size c.avail big in omega arith

  behind-Recovers :
      (p : Chunk) (cs : List Chunk)
      → Words cs
      → NoSliver size cs
      → Coalesced (p ∷ cs)
      → Recovers size p cs (behind p (fit header size cs))
  behind-Recovers p [] w ns k = unfold fit in tt
  behind-Recovers p (c ∷ cs) w ns k = elim (Bool-cases (ltb size c.avail)) [
    | inl big ↦
        Recovers-cons size p c cs (fit header size (c ∷ cs)) k
          (fit_end-Recovers header size c cs big (roomy c w.0.1 ns.0 big) words w.0 k.1)
    | inr small ↦ elim (Bool-cases (not (c.at == header) && c.avail == size)) [
      | inl exact ↦
          subst (λ o. Recovers size p (c ∷ cs) (behind p o))
            (sym (fit_whole header size c cs small exact))
            (p, cs, refl, whole_Back size p c cs (ground arith) w.0.0 k)
      | inr miss ↦
          subst (λ o. Recovers size p (c ∷ cs) (behind p o))
            (sym (fit-behind header size c cs small miss))
            (Recovers-cons size p c cs (behind c (fit header size cs)) k
              (behind-Recovers c cs w.1 ns.1 k.1))
    ]
  ]

-- From the chunk at the start of the region on.
pub fit-Recovers :
    (size : ℕ) (c : Chunk) (cs : List Chunk)
    → size % 4 ≡ 0
    → Words (c ∷ cs)
    → NoSliver size (c ∷ cs)
    → Coalesced (c ∷ cs)
    → Recovers size c cs (fit c.at size (c ∷ cs))
fit-Recovers size c cs words w ns k = elim (Bool-cases (ltb size c.avail)) [
  | inl big ↦
      fit_end-Recovers c.at size c cs big (roomy c.at size words c w.0.1 ns.0 big) words w.0 k
  | inr small ↦
      subst (Recovers size c cs) (sym (fit-behind c.at size c cs small (ground arith)))
        (behind-Recovers c.at size words c cs w.1 ns.1 k)
]
