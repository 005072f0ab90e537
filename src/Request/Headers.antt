-- ===== src/Request/Headers.antt =====
-- p5/request.c: `requestReadhdrs` reads up to the empty line, and never ends without one.
use sp.Base.{
  ℕ, zero, suc, ◌-◌, ◌≤◌, ◌<◌, ◌≡◌, ◌≢◌, ◌∙◌, refl, ap, subst, true, false, List, [], ◌∷◌, ◌++◌,
  ◌==◌, if◌then◌else◌, length, length-append, arith, pos, ltb_ℤ, ok, exit, hang, Array, Holds, Room,
  Room-Holds, All, Bool-cases, inl, inr,
}
use sp.Rio.{Read, got, Rio, Left, rio_readlineb, or_exit}
use sp.Rio.Buffer.{Unread}
use sp.Rio.Lines.{line_of, after_line, has_newline, rio_readlineb_lem}
use sp.Request.{max_line, empty_line, array_is, read_line, readhdrs_loop}

-- One line: bytes up to a newline, which is the last one.
abbrev pub IsLine : List ℕ → Type 0
IsLine [] = ⊥
IsLine (c ∷ []) = c ≡ b'\n'
IsLine (c ∷ d ∷ s) = (c ≢ b'\n') × IsLine (d ∷ s)

line_of-append : (k : ℕ) (l xs : List ℕ) → IsLine l → length l ≤ k → line_of k (l ++ xs) ≡ l
line_of-append k [] xs is le = elim is [ ]
line_of-append zero (c ∷ l) xs is le = absurd (omega arith)
line_of-append (suc k) (c ∷ []) xs is le = ground (arith, is)
line_of-append (suc k) (c ∷ d ∷ l) xs (more, is) le =
    ground (arith, more, line_of-append k (d ∷ l) xs is (omega arith))

after_line-append : (k : ℕ) (l xs : List ℕ) → IsLine l → length l ≤ k → after_line k (l ++ xs) ≡ xs
after_line-append k [] xs is le = elim is [ ]
after_line-append zero (c ∷ l) xs is le = absurd (omega arith)
after_line-append (suc k) (c ∷ []) xs is le = ground (arith, is)
after_line-append (suc k) (c ∷ d ∷ l) xs (more, is) le =
    ground (arith, more, after_line-append k (d ∷ l) xs is (omega arith))

IsLine-has_newline : (l : List ℕ) → IsLine l → has_newline l ≡ true
IsLine-has_newline [] is = elim is [ ]
IsLine-has_newline (c ∷ []) is = ground (arith, is)
IsLine-has_newline (c ∷ d ∷ l) (more, is) = ground (arith, IsLine-has_newline (d ∷ l) is)

-- What is left of a line that was read.
pub record ReadLine (r : Rio) (buf : Array ℕ) (l xs : List ℕ) : Type 0 where
  pub left : Left
  pub returns : read_line r buf ≡ ok left
  pub line : Holds left.usrbuf 0 (l ++ 0 ∷ [])
  pub room : Room left.usrbuf 0 max_line
  pub unread : Unread left.rio xs

not_below : (v : ℕ) → ltb_ℤ (pos v) (pos 0) ≡ false
not_below v = ground arith

keeps :
    (left : Left) (v : ℕ)
    → left.value ≡ pos v
    → (if ltb_ℤ left.value (pos 0) then exit 0 else ok left) ≡ ok left
keeps left v e =
    let above : ltb_ℤ left.value (pos 0) ≡ false = ap (λ x. ltb_ℤ x (pos 0)) e ∙ not_below v in
    rw above refl

pub read_line_lem :
    (r : Rio) (buf : Array ℕ) (l xs : List ℕ)
    → Unread r (l ++ xs)
    → IsLine l
    → length l < max_line
    → Room buf 0 max_line
    → ReadLine r buf l xs
unfolding or_exit
read_line_lem r buf [] xs u is lt room = elim is [ ]
read_line_lem r buf (c ∷ l) xs u is lt room =
    let w = rio_readlineb_lem r buf max_line c (l ++ xs) u room (omega arith) in
    let line : line_of (max_line - 1) (c ∷ (l ++ xs)) ≡ c ∷ l =
      line_of-append (max_line - 1) (c ∷ l) xs is (omega arith) in
    let held : Holds w.final.usrbuf 0 ((c ∷ l) ++ 0 ∷ []) =
      subst (λ t. Holds w.final.usrbuf 0 (t ++ 0 ∷ [])) line w.holds in
    record {
      left = w.final;
      returns = rw w.returns (keeps w.final _ w.value);
      line = held;
      room = Room-Holds buf w.final.usrbuf 0 max_line ((c ∷ l) ++ 0 ∷ []) room held (λ j far.
          w.outside j (inr (omega (arith, far, ap length line, length-append l (0 ∷ [])))));
      unread =
          subst (Unread w.final.rio) (after_line-append (max_line - 1) (c ∷ l) xs is (omega arith))
            (w.unread (inr (ap has_newline line ∙ IsLine-has_newline (c ∷ l) is)));
    }

-- A line that is not the empty one is not taken for it.
array_is-false :
    (buf : Array ℕ) (l : List ℕ)
    → IsLine l
    → l ≢ empty_line
    → Holds buf 0 (l ++ 0 ∷ [])
    → array_is buf 0 empty_line ≡ ok false
unfolding array_is
array_is-false buf [] is ne h = elim is [ ]
array_is-false buf (c ∷ []) is ne h = rw (h.0, is) refl
array_is-false buf (c ∷ d ∷ l) (more, is) ne h = elim (Bool-cases (c == b'\r')) [
  | inl first ↦ elim (Bool-cases (d == b'\n')) [
    | inl second ↦ absurd (ne (whole l first second is))
    | inr other ↦ ground (arith, h.0, h.1.0)
  ]
  | inr other ↦ ground (arith, h.0)
]
  where
    whole :
        (l : List ℕ)
        → c == b'\r' ≡ true
        → d == b'\n' ≡ true
        → IsLine (d ∷ l)
        → c ∷ d ∷ l ≡ empty_line
    whole [] p q is =
        let (e, f) : (c ≡ b'\r') × (d ≡ b'\n') = (ground (arith, p), ground (arith, q)) in
        rw (e, f) refl
    whole (x ∷ l) p q (more, is) = absurd (more (ground (arith, q)))

array_is-true :
    (buf : Array ℕ) → Holds buf 0 (empty_line ++ 0 ∷ []) → array_is buf 0 empty_line ≡ ok true
unfolding array_is
array_is-true buf h = ground (arith, h.0, h.1.0, h.1.1.0)

abbrev pub joined : List (List ℕ) → List ℕ → List ℕ
joined [] xs = xs
joined (l ∷ ls) xs = l ++ joined ls xs

-- A header line, which fits and is not the empty one.
pub record Header (l : List ℕ) : Type 0 where
  pub is_line : IsLine l
  pub short : length l < max_line
  pub not_empty : l ≢ empty_line

-- Where header lines that end in their only newline, are shorter than 8192 bytes and are not the
-- empty line are to be read, and then the empty line, with room for 8192 bytes and more rounds than
-- header lines, `requestReadhdrs` ends, and what follows the empty line is still to be read.
pub readhdrs_loop_lem :
    (k : ℕ) (r : Rio) (buf : Array ℕ) (headers : List (List ℕ)) (xs : List ℕ)
    → Unread r (joined headers (empty_line ++ xs))
    → All Header headers
    → Room buf 0 max_line
    → length headers < k
    → (r' : Rio) × (readhdrs_loop k r buf ≡ ok r') × Unread r' xs
unfolding readhdrs_loop
readhdrs_loop_lem zero r buf headers xs u hs room lt = absurd (omega arith)
readhdrs_loop_lem (suc k) r buf [] xs u hs room lt =
    let line = read_line_lem r buf empty_line xs u (omega arith, refl) (omega arith) room in
    (line.left.rio, rw (line.returns, array_is-true line.left.usrbuf line.line) refl, line.unread)
readhdrs_loop_lem (suc k) r buf (l ∷ headers) xs u (header, hs) room lt =
    let line =
      read_line_lem r buf l (joined headers (empty_line ++ xs)) u header.is_line header.short
        room in
    let (r', runs, left) =
      readhdrs_loop_lem k line.left.rio line.left.usrbuf headers xs line.unread hs line.room
        (omega arith) in
    (
      r',
      rw (line.returns, array_is-false line.left.usrbuf l header.is_line header.not_empty line.line)
          runs,
      left,
    )

-- A reader whose buffer is empty and whose connection is at its end.
abbrev pub at_end : ℕ → Array ℕ → List Read → Rio
at_end bufptr buf source = record { cnt = pos 0; bufptr = bufptr; buf = buf; source = source }

abbrev pub ends : ℕ → List Read
ends zero = []
ends (suc m) = got [] ∷ ends m

-- Where the buffer of the reader is empty, every further `read` says that the connection is at its
-- end, and the line buffer does not hold the empty line, `requestReadhdrs` uses up any number of
-- rounds.
pub readhdrs_loop_hang :
    (k m bufptr : ℕ) (rio_buf buf : Array ℕ)
    → k ≤ m
    → array_is buf 0 empty_line ≡ ok false
    → readhdrs_loop k (at_end bufptr rio_buf (ends m)) buf ≡ hang
unfolding readhdrs_loop rio_readlineb or_exit
readhdrs_loop_hang zero m bufptr rio_buf buf le other = refl
readhdrs_loop_hang (suc k) zero bufptr rio_buf buf le other = absurd (omega arith)
readhdrs_loop_hang (suc k) (suc m) bufptr rio_buf buf le other =
    rw other (readhdrs_loop_hang k m bufptr rio_buf buf (omega arith) other)
