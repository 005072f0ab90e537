-- ===== src/Request/Whole.antt =====
-- p5/request.c: `requestPreProcess` from the bytes that a client sends.
use sp.Base.{
  ℕ, zero, suc, ◌<◌, ◌≡◌, ◌≢◌, ◌∙◌, refl, ap, true, false, Option, none, some, List, [], ◌∷◌, ◌++◌,
  ◌==◌, if◌then◌else◌, length, arith, All, Array, Holds, Room, Outcome, ok, ◌>>=◌, CString,
}
use sp.Shell.Parser.{strtok}
use sp.Shell.Parser.Tokens.{tokens, Next, finished, next, strtok_lem}
use sp.Rio.{Read, Left, rio_readinitb}
use sp.Rio.Buffer.{bufsize, Stream, rio_readinitb-Unread}
use sp.Request.{
  max_line, empty_line, spaces, string_at, scan_words, same_word, get, readhdrs_loop, parse_uri,
  Target, Stat, Stack, Answer, check_target, pre_process_answer, not_implemented,
}
use sp.Request.Headers.{IsLine, joined, Header, read_line_lem, readhdrs_loop_lem}
use sp.Server.Queue.{Request}

string_at_lem :
    (n : ℕ) (buf : Array ℕ) (i : ℕ) (l : CString)
    → Holds buf i (l ++ 0 ∷ [])
    → All (λ c. c ≢ 0) l
    → length l < n
    → string_at n buf i ≡ ok l
unfolding string_at
string_at_lem zero buf i l h no_zero lt = absurd (omega arith)
string_at_lem (suc n) buf i [] h no_zero lt = rw h.0 refl
string_at_lem (suc n) buf i (c ∷ l) h no_zero lt =
    let more : (c == 0) ≡ false = let k = no_zero.0 in ground arith in
    let rest = string_at_lem n buf (suc i) l h.1 no_zero.1 (omega arith) in
    ground (arith, h.0, more, rest)

second_word :
    (rest u uri : CString) (ws : List CString) (o : Option (CString × CString))
    → tokens spaces rest ≡ uri ∷ ws
    → Next spaces rest o
    → elim o as (λ x. CString) [ none ↦ u | some (other, _) ↦ other ] ≡ uri
second_word rest u uri ws o e (finished none_left) = cc
second_word rest u uri ws o e (next t s' f lt) = cc

first_word :
    (line m u method uri : CString) (ws : List CString) (o : Option (CString × CString))
    → tokens spaces line ≡ method ∷ uri ∷ ws
    → Next spaces line o
    → ((elim o as (λ x. CString × CString) [
      | none ↦ (m, u)
      | some (word, rest) ↦ (word, elim (strtok spaces rest) [ none ↦ u | some (other, _) ↦ other ])
    ]).0
        ≡ method)
      × ((elim o as (λ x. CString × CString) [
        | none ↦ (m, u)
        | some (word, rest) ↦
            (word, elim (strtok spaces rest) [ none ↦ u | some (other, _) ↦ other ])
      ]).1
          ≡ uri)
first_word line m u method uri ws o e (finished none_left) = cc
first_word line m u method uri ws o e (next t s' f lt) =
    let others : tokens spaces s' ≡ uri ∷ ws = cc in
    (cc, second_word s' u uri ws (strtok spaces s') others (strtok_lem spaces s'))

scan_words_lem :
    (line m u method uri : CString) (ws : List CString)
    → tokens spaces line ≡ method ∷ uri ∷ ws
    → ((scan_words line m u).0 ≡ method) × ((scan_words line m u).1 ≡ uri)
unfolding scan_words
scan_words_lem line m u method uri ws e =
    first_word line m u method uri ws (strtok spaces line) e (strtok_lem spaces line)

-- What a client sends: a request line, headers, and the empty line, with what follows.
pub record Sends (source : List Read) (line : CString) (headers : List CString) (xs : List ℕ)
    : Type 0 where
  pub stream : Stream source (line ++ joined headers (empty_line ++ xs))
  pub is_line : IsLine line
  pub short : length line < max_line
  pub no_zero : All (λ c. c ≢ 0) line
  pub are_headers : All Header headers

-- The arrays have their sizes.
pub record HasRoom (st : Stack) : Type 0 where
  pub rio_buf : Room st.rio_buf 0 bufsize
  pub line : Room st.line 0 max_line
  pub header : Room st.header 0 max_line

-- What follows the reading of the request line.
abbrev answer :
    ℕ
    → (CString → Option Stat)
    → Stack
    → Request
    → Left
    → CString
    → Outcome (Option Answer × Request)
answer k stat st node left line =
    if same_word (scan_words line st.method st.uri).0 get
    then (do
      after ← readhdrs_loop k left.rio st.header
      target ← parse_uri (scan_words line st.method st.uri).1
      ok (check_target stat target node))
    else ok (some (not_implemented (scan_words line st.method st.uri).0), node)

-- A GET request whose line and headers arrive whole is answered by the look at its file.
pub pre_process_answer_lem :
    (k : ℕ) (stat : CString → Option Stat) (st : Stack) (source : List Read) (node : Request)
    (line : CString) (headers : List CString) (xs : List ℕ) (method uri : CString)
    (ws : List CString) (target : Target)
    → Sends source line headers xs
    → HasRoom st
    → length headers < k
    → tokens spaces line ≡ method ∷ uri ∷ ws
    → same_word method get ≡ true
    → parse_uri uri ≡ ok target
    → pre_process_answer k stat st source node ≡ ok (check_target stat target node)
unfolding pre_process_answer
pre_process_answer_lem k stat st source node line headers xs method uri ws target sends room lt
      words is_get parses =
    let start = rio_readinitb-Unread source st.rio_buf _ sends.stream room.rio_buf in
    let l =
      read_line_lem (rio_readinitb source st.rio_buf) st.line line
        (joined headers (empty_line ++ xs)) start sends.is_line sends.short room.line in
    let text = string_at_lem max_line l.left.usrbuf 0 line l.line sends.no_zero sends.short in
    let (first, second) = scan_words_lem line st.method st.uri method uri ws words in
    let (r, skips, left) =
      readhdrs_loop_lem k l.left.rio st.header headers xs l.unread sends.are_headers room.header
        lt in
    ap
      (λ o.
        o >>= λ left. string_at max_line left.usrbuf 0 >>= λ text. answer k stat st node left text)
      l.returns
    ∙ ap (λ o. o >>= λ text. answer k stat st node l.left text) text
    ∙ rw (first, second, is_get)
        (ap (λ o. o >>= λ after. parse_uri uri >>= λ t. ok (check_target stat t node)) skips
          ∙ ap (λ o. o >>= λ t. ok (check_target stat t node)) parses)
