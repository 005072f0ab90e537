-- ===== src/Request/Examples.antt =====
-- p5/request.c: the theorems at concrete inputs.
use sp.Base.{
  ℕ, ◌≡◌, refl, false, [], ◌∷◌, ◌++◌, arith, ok, hang, Array, calloc, Room-calloc, CString,
  has_byte, strstr, is_prefix,
}
use sp.Rio.{got, Rio, rio_readinitb}
use sp.Rio.Buffer.{bufsize, Unread, rio_readinitb-Unread}
use sp.Request.{max_line, contains, Target, parse_uri, array_is, readhdrs_loop}
use sp.Request.Uri.{parse_uri-dynamic}
use sp.Request.Headers.{Header, readhdrs_loop_lem, at_end, ends, readhdrs_loop_hang}

-- "cgi?x"
abbrev program : CString
program = b'c' ∷ b'g' ∷ b'i' ∷ b'?' ∷ b'x' ∷ []

parse_uri-dynamic_example :
    (t : Target) × (parse_uri program ≡ ok t)
    × (t.is_static ≡ false)
    × (t.filename ++ b'?' ∷ t.cgiargs ≡ b'.' ∷ program)
unfolding contains has_byte strstr is_prefix
parse_uri-dynamic_example = parse_uri-dynamic program refl refl (omega arith)

abbrev zeros : ℕ → Array ℕ
zeros n = calloc n 0

-- A header line "a", the empty line, and the end.
abbrev client : Rio
client = rio_readinitb (got (b'a' ∷ b'\n' ∷ b'\r' ∷ b'\n' ∷ []) ∷ got [] ∷ []) (zeros bufsize)

a-Header : Header (b'a' ∷ b'\n' ∷ [])
a-Header = record { is_line = (omega arith, refl); short = omega arith; not_empty = λ e. cc e }

readhdrs_loop_lem_example :
    (r : Rio) × (readhdrs_loop 2 client (zeros max_line) ≡ ok r) × Unread r []
readhdrs_loop_lem_example =
    readhdrs_loop_lem 2 client (zeros max_line) ((b'a' ∷ b'\n' ∷ []) ∷ []) []
      (rio_readinitb-Unread (got (b'a' ∷ b'\n' ∷ b'\r' ∷ b'\n' ∷ []) ∷ got [] ∷ []) (zeros bufsize)
        (b'a' ∷ b'\n' ∷ b'\r' ∷ b'\n' ∷ []) ([], refl, omega arith, refl)
        (Room-calloc bufsize 0 bufsize 0 (omega arith)))
      (a-Header, tt) (Room-calloc max_line 0 max_line 0 (omega arith)) (omega arith)

readhdrs_loop_hang_example : readhdrs_loop 9 (at_end 0 (zeros 4) (ends 9)) (zeros 4) ≡ hang
unfolding array_is
readhdrs_loop_hang_example = readhdrs_loop_hang 9 9 0 (zeros 4) (zeros 4) (omega arith) refl
