-- ===== src/Rio/Lines.antt =====
-- p5/cs537.c: `rio_readlineb` reads a line, or as much of it as fits.
use sp.Base.{
  ℕ, zero, suc, ◌+◌, ◌-◌, ◌<◌, ◌≡◌, ◌⊎◌, ◌∙◌, refl, ap, subst, Bool, true, false, ◌||◌, some, List,
  [], ◌∷◌, ◌++◌, ◌==◌, if◌then◌else◌, length, arith, Bool-cases, inl, inr, pos, negsuc, Outcome, ok,
  ◌>>=◌, Array, store, store_lem, update, update_hit, update_miss, Holds, Room, Room-update,
}
use sp.Rio.{Rio, Copied, bytes, error, Left, rio_read, finish_line, readlineb_loop, rio_readlineb}
use sp.Rio.Buffer.{Unread, Reads, none_left, some_read, rio_read_lem}

-- The bytes up to the first newline, that one included, but at most so many.
abbrev pub line_of : ℕ → List ℕ → List ℕ
line_of zero xs = []
line_of (suc k) [] = []
line_of (suc k) (c ∷ xs) = c ∷ (if c == b'\n' then [] else line_of k xs)

-- What follows them.
abbrev pub after_line : ℕ → List ℕ → List ℕ
after_line zero xs = xs
after_line (suc k) [] = []
after_line (suc k) (c ∷ xs) = if c == b'\n' then xs else after_line k xs

abbrev pub has_newline : List ℕ → Bool
has_newline [] = false
has_newline (c ∷ xs) = c == b'\n' || has_newline xs

-- The value that is returned after these bytes: one more than their number, but for a line that is whole.
abbrev pub line_value : List ℕ → ℕ
line_value line = if has_newline line then length line else suc (length line)

-- The line is stored from `i` on, with a terminator, and nothing else; under the condition `full` the bytes
-- `left` are still to be read.
pub record Line (usr : Array ℕ) (i : ℕ) (line left : List ℕ) (full : Type 0) (run : Outcome Left)
    : Type 0 where
  pub final : Left
  pub returns : run ≡ ok final
  pub value : final.value ≡ pos (i + line_value line)
  pub holds : Holds final.usrbuf i (line ++ 0 ∷ [])
  pub outside : (j : ℕ) → (j < i) ⊎ (i + length line < j) → final.usrbuf j ≡ usr j
  pub unread : full → Unread final.rio left

-- Whether a line does not stop because the stream does.
abbrev pub Full : ℕ → List ℕ → Type 0
Full k line = (length line ≡ k) ⊎ (has_newline line ≡ true)

abbrev pub ReadsLine : Array ℕ → ℕ → ℕ → List ℕ → Outcome Left → Type 0
ReadsLine usr i k xs run = Line usr i (line_of k xs) (after_line k xs) (Full k (line_of k xs)) run

abbrev round : ℕ → Array ℕ → ℕ → Copied × Rio → Outcome Left
round k usr bufp (rc, r') = elim rc [
  | error ↦ ok (record { value = negsuc 0; usrbuf = usr; rio = r' })
  | bytes [] ↦
      if suc bufp == 1
      then ok (record { value = pos 0; usrbuf = usr; rio = r' })
      else finish_line r' usr bufp (suc bufp)
  | bytes (c ∷ cs) ↦ (do
    usr' ← store usr bufp c
    elim (c == b'\n') [
      | true ↦ finish_line r' usr' (suc bufp) (suc bufp)
      | false ↦ readlineb_loop k r' usr' (suc bufp)
    ])
]

abbrev Loops : ℕ → Type 0
Loops k =
    (r : Rio) (usr : Array ℕ) (bufp : ℕ) (xs : List ℕ)
    → Unread r xs
    → Room usr bufp (suc k)
    → (k ≡ 0) ⊎ (0 < bufp + length xs)
    → ReadsLine usr bufp k xs (readlineb_loop k r usr bufp)

-- One byte more in front of a line that goes on.
Line-cons :
    (usr : Array ℕ) (bufp c : ℕ) (l left : List ℕ) (full full' : Type 0) (run : Outcome Left)
    → c == b'\n' ≡ false
    → (full' → full)
    → Line (update usr bufp c) (suc bufp) l left full run
    → Line usr bufp (c ∷ l) left full' run
Line-cons usr bufp c l left full full' run more to l' = record {
  final = l'.final;
  returns = l'.returns;
  value = l'.value ∙ ap pos (longer (has_newline l));
  holds = (l'.outside bufp (inl (omega arith)) ∙ update_hit usr bufp c, l'.holds);
  outside =
      λ j o. l'.outside j (omega (arith, o)) ∙ update_miss usr bufp j c (λ e. omega (arith, e, o));
  unread = λ full. l'.unread (to full);
}
  where
    longer :
        (b : Bool)
        → suc bufp + (if b then length l else suc (length l))
          ≡ bufp + (if c == b'\n' || b then suc (length l) else suc (suc (length l)))
    longer true = rw more (omega arith)
    longer false = rw more (omega arith)

Full-cons : (k : ℕ) (l : List ℕ) → (suc (length l) ≡ suc k) ⊎ (has_newline l ≡ true) → Full k l
Full-cons k l (inl e) = inl (omega (arith, e))
Full-cons k l (inr e) = inr e

-- A line that is one newline.
Line-newline :
    (usr : Array ℕ) (bufp c : ℕ) (left : List ℕ) (full : Type 0) (r : Rio)
    → c == b'\n' ≡ true
    → Unread r left
    → (x : ℕ) × (usr (suc bufp) ≡ some x)
    → Line usr bufp (c ∷ []) left full (finish_line r (update usr bufp c) (suc bufp) (suc bufp))
Line-newline usr bufp c left full r end u (x, e) =
    rw
      (store_lem (update usr bufp c) (suc bufp) 0
        (update_miss usr bufp (suc bufp) c (λ q. omega (arith, q)) ∙ e))
      (record {
        final = record {
          value = pos (suc bufp);
          usrbuf = update (update usr bufp c) (suc bufp) 0;
          rio = r;
        };
        returns = refl;
        value = rw end (ap pos (omega arith));
        holds = (
          update_miss (update usr bufp c) (suc bufp) bufp 0 (λ q. omega (arith, q))
              ∙ update_hit usr bufp c,
          (update_hit (update usr bufp c) (suc bufp) 0, tt),
        );
        outside = λ j o.
            update_miss (update usr bufp c) (suc bufp) j 0 (λ q. omega (arith, q, o))
            ∙ update_miss usr bufp j c (λ q. omega (arith, q, o));
        unread = λ full. u;
      })

-- A line that is empty, but for the value.
Line-nil :
    (usr : Array ℕ) (bufp : ℕ) (left : List ℕ) (full : Type 0) (r : Rio)
    → (full → Unread r left)
    → (x : ℕ) × (usr bufp ≡ some x)
    → Line usr bufp [] left full (finish_line r usr bufp (suc bufp))
Line-nil usr bufp left full r u (x, e) = rw (store_lem usr bufp 0 e) (record {
  final = record { value = pos (suc bufp); usrbuf = update usr bufp 0; rio = r };
  returns = refl;
  value = ap pos (omega arith);
  holds = (update_hit usr bufp 0, tt);
  outside = λ j o. update_miss usr bufp j 0 (λ q. omega (arith, q, o));
  unread = u;
})

readlineb_round :
    (k : ℕ) (usr : Array ℕ) (bufp : ℕ) (xs : List ℕ) (o : Outcome (Copied × Rio))
    → Reads 1 xs o
    → Loops k
    → Room usr bufp (suc (suc k))
    → 0 < bufp + length xs
    → ReadsLine usr bufp (suc k) xs (o >>= round k usr bufp)
readlineb_round k usr bufp xs o (none_left r e) ih room any =
    let begun : suc bufp == 1 ≡ false = started (omega (arith, any, ap length e)) in
    rw (e, begun) (Line-nil usr bufp [] (Full (suc k) []) r (λ f. absurd (not_full f)) room.0)
  where
    started : 0 < bufp → suc bufp == 1 ≡ false
    started h = ground arith

    not_full : Full (suc k) [] → ⊥
    not_full (inl e) = omega (arith, e)
    not_full (inr e) = cc e
readlineb_round k usr bufp xs o (some_read b [] ys r whole le u) ih room any =
    rw (whole, store_lem usr bufp b room.0.1)
      (elim (Bool-cases (b == b'\n')) [
        | inl end ↦ rw end (Line-newline usr bufp b ys _ r end u room.1.0)
        | inr more ↦ rw more (
            Line-cons usr bufp b (line_of k ys) (after_line k ys) (Full k (line_of k ys)) _ _ more
              (Full-cons k (line_of k ys))
              (ih r (update usr bufp b) (suc bufp) ys u
                (Room-update usr (suc bufp) (suc k) bufp b room.1) (inr (omega arith))))
      ])
readlineb_round k usr bufp xs o (some_read b (d ∷ bs) ys r whole le u) ih room any =
    absurd (omega (arith, le))

readlineb_loop_lem : (k : ℕ) → Loops k
unfolding readlineb_loop
readlineb_loop_lem zero r usr bufp xs u room any =
    Line-nil usr bufp xs (Full 0 []) r (λ f. u) room.0
readlineb_loop_lem (suc k) r usr bufp xs u room any =
    readlineb_round k usr bufp xs (rio_read r 1) (rio_read_lem r 1 xs (omega arith) u)
      (readlineb_loop_lem k) room (omega (arith, any))

-- With bytes to be read, in the buffer of 8192 bytes and then by calls of `read` that bring at most
-- a buffer each, between interruptions, and then the end, and with room for `maxlen` bytes, at
-- least one, `rio_readlineb` ends. It stores the bytes up to the first newline, at most `maxlen`
-- less one, and a terminator, and nothing else. It returns their number where the last one is a
-- newline, and one more otherwise; and where that or the limit was reached, the bytes behind the
-- line are still to be read.
pub rio_readlineb_lem :
    (r : Rio) (usr : Array ℕ) (maxlen c : ℕ) (xs : List ℕ)
    → Unread r (c ∷ xs)
    → Room usr 0 maxlen
    → 0 < maxlen
    → ReadsLine usr 0 (maxlen - 1) (c ∷ xs) (rio_readlineb r usr maxlen)
unfolding rio_readlineb
rio_readlineb_lem r usr maxlen c xs u room any =
    let e : maxlen ≡ suc (maxlen - 1) = omega arith in
    readlineb_loop_lem (maxlen - 1) r usr 0 (c ∷ xs) u (subst (Room usr 0) e room)
      (inr (omega arith))

-- At the end of the stream 0 is returned, and nothing is stored.
rio_readlineb_end :
    (r : Rio) (usr : Array ℕ) (maxlen : ℕ)
    → Unread r []
    → 1 < maxlen
    → (r' : Rio) × (rio_readlineb r usr maxlen
        ≡ ok (record { value = pos 0; usrbuf = usr; rio = r' }))
unfolding rio_readlineb readlineb_loop
rio_readlineb_end r usr maxlen u any =
    rw step (at_end (rio_read r 1) (rio_read_lem r 1 [] (omega arith) u))
  where
    step : rio_readlineb r usr maxlen ≡ (rio_read r 1 >>= round (maxlen - 2) usr 0)
    step =
        let e : maxlen - 1 ≡ suc (maxlen - 2) = omega arith in ap (λ k. readlineb_loop k r usr 0) e

    at_end :
        (o : Outcome (Copied × Rio))
        → Reads 1 [] o
        → (r' : Rio) × ((o >>= round (maxlen - 2) usr 0)
            ≡ ok (record { value = pos 0; usrbuf = usr; rio = r' }))
    at_end o (none_left r e) = (r, refl)
    at_end o (some_read b bs ys r whole le u) = cc whole
