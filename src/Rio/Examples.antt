-- ===== src/Rio/Examples.antt =====
-- p5/cs537.c: the theorems at concrete inputs.
use sp.Base.{
  ◌≤◌, ◌≡◌, ok, pos, some, none, ◌==◌, if◌then◌else◌, ℕ, refl, List, [], ◌∷◌, arith, Array, calloc,
  Room-calloc,
}
use sp.Rio.{
  Read, got, interrupted, Rio, rio_readinitb, rio_readlineb, rio_readnb, rio_writen, wrote,
  refused_by_signal,
}
use sp.Rio.Buffer.{bufsize, Stream, Unread, rio_readinitb-Unread}
use sp.Rio.Bytes.{Gets, rio_readnb_lem}
use sp.Rio.Writes.{rio_writen_lem}
use sp.Rio.Lines.{ReadsLine, rio_readlineb_lem}

-- The lines "a" and "b", in two pieces and after an interruption.
abbrev two_lines : List ℕ
two_lines = b'a' ∷ b'\n' ∷ b'b' ∷ []

abbrev answers : List Read
answers = interrupted ∷ got (b'a' ∷ []) ∷ got (b'\n' ∷ b'b' ∷ []) ∷ got [] ∷ []

abbrev zeros : ℕ → Array ℕ
zeros n = calloc n 0

reader : List Read → Rio
reader rs = rio_readinitb rs (zeros bufsize)

answers-Stream : Stream answers two_lines
answers-Stream = (b'\n' ∷ b'b' ∷ [], refl, omega arith, ([], refl, omega arith, refl))

reader-Unread : (rs : List Read) (xs : List ℕ) → Stream rs xs → Unread (reader rs) xs
unfolding reader
reader-Unread rs xs s =
    rio_readinitb-Unread rs (zeros bufsize) xs s (Room-calloc bufsize 0 bufsize 0 (omega arith))

rio_readlineb_lem_example :
    ReadsLine (zeros 4) 0 3 two_lines (rio_readlineb (reader answers) (zeros 4) 4)
rio_readlineb_lem_example =
    rio_readlineb_lem (reader answers) (zeros 4) 4 b'a' (b'\n' ∷ b'b' ∷ [])
      (reader-Unread answers two_lines answers-Stream) (Room-calloc 4 0 4 0 (omega arith))
      (omega arith)

-- The first two bytes.
rio_readnb_lem_example :
    Gets
      (zeros 4)
      0
      (b'a' ∷ b'\n' ∷ [])
      2
      (b'b' ∷ [])
      (2 ≤ 3)
      (rio_readnb (reader answers) (zeros 4) 2)
rio_readnb_lem_example =
    rio_readnb_lem (reader answers) (zeros 4) 2 two_lines
      (reader-Unread answers two_lines answers-Stream) (Room-calloc 4 0 2 0 (omega arith))

-- Three bytes, in two pieces and after an interruption.
abbrev three_bytes : Array ℕ
three_bytes i =
    if i == 0 then some b'a' else if i == 1 then some b'\n' else if i == 2 then some b'b' else none

rio_writen_lem_example :
    rio_writen (wrote 1 ∷ refused_by_signal ∷ wrote 2 ∷ []) three_bytes 3 ≡ ok (pos 3, two_lines)
rio_writen_lem_example =
    rio_writen_lem (wrote 1 ∷ refused_by_signal ∷ wrote 2 ∷ []) three_bytes two_lines
      (omega arith, omega arith, (omega arith, omega arith, refl)) (refl, (refl, (refl, tt)))
