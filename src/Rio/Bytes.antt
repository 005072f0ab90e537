-- ===== src/Rio/Bytes.antt =====
-- p5/cs537.c: `rio_readnb` reads as many bytes as it is asked for, unless the stream ends before.
use sp.Base.{
  ℕ, zero, suc, ◌+◌, ◌-◌, ◌≤◌, ◌<◌, ◌≡◌, ◌⊎◌, ◌∙◌, refl, ap, subst, List, [], ◌∷◌, ◌++◌, take, drop,
  length, length-append, arith, pos, negsuc, Outcome, ok, ◌>>=◌, Array, Holds, Holds-append,
  Holds-agree, Room, Room-Holds, Written, inl, inr,
}
use sp.Rio.{Rio, Copied, bytes, error, Left, store_all, rio_read, readnb_loop, rio_readnb}
use sp.Rio.Buffer.{Unread, Reads, none_left, some_read, rio_read_lem, store_all_lem, Room-shorter}

module _ {ℓ} {A : Type ℓ} where
  take-append :
      (n : ℕ) (xs ys : List A) → length xs ≤ n → take n (xs ++ ys) ≡ xs ++ take (n - length xs) ys
  take-append n [] ys le = ap (λ k. take k ys) (omega arith)
  take-append zero (x ∷ xs) ys le = absurd (omega arith)
  take-append (suc n) (x ∷ xs) ys le =
      ap (λ zs. x ∷ zs)
        (take-append n xs ys (omega arith) ∙ ap (λ k. xs ++ take k ys) (omega arith))

  drop-append :
      (n : ℕ) (xs ys : List A) → length xs ≤ n → drop n (xs ++ ys) ≡ drop (n - length xs) ys
  drop-append n [] ys le = ap (λ k. drop k ys) (omega arith)
  drop-append zero (x ∷ xs) ys le = absurd (omega arith)
  drop-append (suc n) (x ∷ xs) ys le =
      drop-append n xs ys (omega arith) ∙ ap (λ k. drop k ys) (omega arith)

-- The bytes `zs` were stored from `i` on, and nothing else, and the value returned is `v`. Where all that was
-- asked for was there, the bytes `left` are still to be read.
pub record Gets (usr : Array ℕ) (i : ℕ) (zs : List ℕ) (v : ℕ) (left : List ℕ) (all : Type 0)
    (run : Outcome Left) : Type 0 where
  pub final : Left
  pub returns : run ≡ ok final
  pub value : final.value ≡ pos v
  pub holds : Holds final.usrbuf i zs
  pub outside : (j : ℕ) → (j < i) ⊎ (i + length zs ≤ j) → final.usrbuf j ≡ usr j
  pub unread : all → Unread final.rio left

abbrev Wants : Array ℕ → ℕ → ℕ → List ℕ → Outcome Left → Type 0
Wants usr bufp nleft xs run =
    Gets usr bufp (take nleft xs) (bufp + length (take nleft xs)) (drop nleft xs)
      (nleft ≤ length xs) run

Wants-cons :
    (usr : Array ℕ) (bufp n nleft : ℕ) (t ys : List ℕ)
    (w : Written usr bufp t (store_all usr bufp t)) (k : ℕ) (r : Rio)
    → length t ≤ nleft
    → Wants w.final
        (bufp + length t)
        (nleft - length t)
        ys
        (readnb_loop k r w.final (bufp + length t) n (nleft - length t))
    → Wants usr bufp nleft (t ++ ys) (
        store_all usr bufp t >>= λ usr'.
        readnb_loop k r usr' (bufp + length t) n (nleft - length t))
Wants-cons usr bufp n nleft t ys w k r le g =
    rw (take-append nleft t ys le, drop-append nleft t ys le, w.returns)
      (record {
        final = g.final;
        returns = g.returns;
        value = g.value ∙ ap pos (omega (arith, length-append t (take (nleft - length t) ys)));
        holds =
            Holds-append g.final.usrbuf bufp t (take (nleft - length t) ys)
              (Holds-agree w.final g.final.usrbuf bufp t (λ j lo hi. g.outside j (inl hi)) w.holds)
              g.holds;
        outside = λ j o.
            g.outside j (omega (arith, o, length-append t (take (nleft - length t) ys)))
            ∙ w.outside j (omega (arith, o, length-append t (take (nleft - length t) ys)));
        unread = λ all. g.unread (omega (arith, all, length-append t ys));
      })

abbrev Loops : ℕ → ℕ → Type 0
Loops k n =
    (r : Rio) (usr : Array ℕ) (bufp nleft : ℕ) (xs : List ℕ)
    → Unread r xs
    → Room usr bufp nleft
    → bufp + nleft ≡ n
    → nleft < k
    → Wants usr bufp nleft xs (readnb_loop k r usr bufp n nleft)

abbrev round : ℕ → Array ℕ → ℕ → ℕ → ℕ → Copied × Rio → Outcome Left
round k usr bufp n nleft (nread, r') = elim nread [
  | error ↦ ok (record { value = negsuc 0; usrbuf = usr; rio = r' })
  | bytes [] ↦ ok (record { value = pos (n - suc nleft); usrbuf = usr; rio = r' })
  | bytes (b ∷ bs) ↦ (do
    usr' ← store_all usr bufp (b ∷ bs)
    readnb_loop k r' usr' (bufp + length (b ∷ bs)) n (suc nleft - length (b ∷ bs)))
]

Room-drop : (f : Array ℕ) (i n m : ℕ) → m ≤ n → Room f i n → Room f (i + m) (n - m)
Room-drop f i n zero le room =
    subst (λ j. Room f j (n - 0)) (omega arith) (subst (Room f i) (omega arith) room)
Room-drop f i zero (suc m) le room = absurd (omega arith)
Room-drop f i (suc n) (suc m) le room =
    subst (λ j. Room f j (suc n - suc m)) (omega arith)
      (subst (Room f (suc i + m)) (omega arith) (Room-drop f (suc i) n m (omega arith) room.1))

-- One round, by what `rio_read` comes to.
readnb_round :
    (k n : ℕ) (usr : Array ℕ) (bufp nleft : ℕ) (xs : List ℕ) (o : Outcome (Copied × Rio))
    → Reads (suc nleft) xs o
    → Loops k n
    → Room usr bufp (suc nleft)
    → bufp + suc nleft ≡ n
    → suc nleft < suc k
    → Wants usr bufp (suc nleft) xs (o >>= round k usr bufp n nleft)
readnb_round k n usr bufp nleft xs o (none_left r none) ih room e lt = rw none (record {
  final = record { value = pos (n - suc nleft); usrbuf = usr; rio = r };
  returns = refl;
  value = ap pos (omega (arith, e));
  holds = tt;
  outside = λ j o. refl;
  unread = λ all. absurd (omega (arith, all));
})
readnb_round k n usr bufp nleft xs o (some_read b bs ys r whole le u) ih room e lt =
    let w =
      store_all_lem usr bufp (b ∷ bs)
        (Room-shorter usr bufp (length (b ∷ bs)) (suc nleft) le room) in
    rw whole (
      Wants-cons usr bufp n (suc nleft) (b ∷ bs) ys w k r le (
        ih r w.final (bufp + length (b ∷ bs)) (suc nleft - length (b ∷ bs)) ys u
          (Room-drop w.final bufp (suc nleft) (length (b ∷ bs)) le (
            Room-Holds usr w.final bufp (suc nleft) (b ∷ bs) room w.holds
              (λ j far. w.outside j (inr far))))
          (omega (arith, e, le)) (omega (arith, lt))))

readnb_loop_lem : (k n : ℕ) → Loops k n
unfolding readnb_loop
readnb_loop_lem zero n r usr bufp nleft xs u room e lt = absurd (omega arith)
readnb_loop_lem (suc k) n r usr bufp zero xs u room e lt = record {
  final = record { value = pos n; usrbuf = usr; rio = r };
  returns = refl;
  value = ap pos (omega (arith, e));
  holds = tt;
  outside = λ j o. refl;
  unread = λ all. u;
}
readnb_loop_lem (suc k) n r usr bufp (suc nleft) xs u room e lt =
    readnb_round k n usr bufp nleft xs (rio_read r (suc nleft))
      (rio_read_lem r (suc nleft) xs (omega arith) u) (readnb_loop_lem k n) room e lt

-- With bytes to be read as for `rio_readlineb`, and room for n bytes, `rio_readnb` ends, stores the
-- first n bytes, or all if there are fewer, and nothing else, and returns their number; where n are
-- there, those behind them are still to be read.
pub rio_readnb_lem :
    (r : Rio) (usr : Array ℕ) (n : ℕ) (xs : List ℕ)
    → Unread r xs
    → Room usr 0 n
    → Gets usr 0 (take n xs) (length (take n xs)) (drop n xs) (n ≤ length xs) (rio_readnb r usr n)
unfolding rio_readnb
rio_readnb_lem r usr n xs u room =
    subst
      (λ v. Gets usr 0 (take n xs) v (drop n xs) (n ≤ length xs) (readnb_loop (suc n) r usr 0 n n))
      (omega arith) (readnb_loop_lem (suc n) n r usr 0 n xs u room (omega arith) (omega arith))
