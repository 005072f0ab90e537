-- ===== src/Request.antt =====
-- p5/request.c: what the server does with a request before it is queued, and the type of a file. `stat` is
-- a parameter, and so is what an array holds that is not initialised.
pub mod Uri
pub mod Headers
pub mod Targets
pub mod Whole
pub mod Serve
pub mod Error
pub mod Preprocess
mod Examples
use sp.Base.{
  ◌%◌, ◌^◌, ◌-◌, negsuc, ℕ, zero, suc, ◌+◌, Bool, true, false, not, ◌&&◌, ◌||◌, Option, none, some,
  List, [], ◌∷◌, ◌++◌, ◌==◌, ltb, leb, if◌then◌else◌, length, ℤ, pos, Outcome, ok, fault, hang,
  ◌>>=◌, ◌>>◌, Array, load, CString, has_byte, strstr,
}
use sp.Rio.{Read, Rio, Left, rio_readinitb, rio_readlineb, or_exit}
use sp.Shell.Parser.{strtok}
use sp.Server.Queue.{Request}

-- MAXLINE
abbrev pub max_line : ℕ
max_line = 8192

-- `sprintf` or `strcpy` into an array of MAXLINE bytes.
abbrev pub fits : CString → Outcome CString
fits s = if ltb (length s) max_line then ok s else fault

abbrev pub cgi : CString
cgi = b'c' ∷ b'g' ∷ b'i' ∷ []

abbrev pub home : CString
home = b'h' ∷ b'o' ∷ b'm' ∷ b'e' ∷ b'.' ∷ b'h' ∷ b't' ∷ b'm' ∷ b'l' ∷ []

unfoldable pub contains : CString → CString → Bool
contains s key = elim (strstr s key) [ none ↦ false | some found ↦ true ]

-- `uri[strlen (uri) - 1]`; of an empty string that is before the array.
unfoldable pub last_byte : CString → Outcome ℕ
last_byte [] = fault
last_byte (c ∷ []) = ok c
last_byte (c ∷ d ∷ s) = last_byte (d ∷ s)

-- The string up to the first question mark, and what follows that.
unfoldable pub before_mark : CString → CString
before_mark [] = []
before_mark (c ∷ s) = if c == b'?' then [] else c ∷ before_mark s

unfoldable pub after_mark : CString → CString
after_mark [] = []
after_mark (c ∷ s) = if c == b'?' then s else after_mark s

pub record Target : Type 0 where
  pub is_static : Bool
  pub filename : CString
  pub cgiargs : CString

unfoldable pub parse_static : CString → Outcome Target
unfolding last_byte
parse_static uri = do
  name ← fits (b'.' ∷ uri)
  last ← last_byte uri
  full ← fits (if last == b'/' then name ++ home else name)
  ok (record { is_static = true; filename = full; cgiargs = [] })

unfoldable pub parse_dynamic : CString → Outcome Target
unfolding before_mark after_mark
parse_dynamic uri = do
  args ← fits (after_mark uri)
  name ← fits (b'.' ∷ before_mark uri)
  ok (record { is_static = false; filename = name; cgiargs = args })

-- `requestParseURI`
unfoldable pub parse_uri : CString → Outcome Target
unfolding contains parse_static parse_dynamic
parse_uri uri = if contains uri cgi then parse_dynamic uri else parse_static uri

pub data FileType : Type 0 where
  text_html image_gif image_jpeg test_plain : FileType

abbrev html : CString
html = b'.' ∷ b'h' ∷ b't' ∷ b'm' ∷ b'l' ∷ []

abbrev gif : CString
gif = b'.' ∷ b'g' ∷ b'i' ∷ b'f' ∷ []

abbrev jpg : CString
jpg = b'.' ∷ b'j' ∷ b'p' ∷ b'g' ∷ []

unfoldable pub get_filetype : CString → FileType
unfolding contains
get_filetype name =
    if contains name html
    then text_html
    else (if contains name gif
        then image_gif
        else (if contains name jpg then image_jpeg else test_plain))

-- `strcmp` of the string in an array with another one: whether they are the same.
unfoldable pub array_is : Array ℕ → ℕ → CString → Outcome Bool
array_is buf i [] = load buf i >>= λ x. ok (x == 0)
array_is buf i (c ∷ s) =
    load buf i >>= λ x. elim (x == c) [ true ↦ array_is buf (suc i) s | false ↦ ok false ]

abbrev pub empty_line : CString
empty_line = b'\r' ∷ b'\n' ∷ []

-- `Rio_readlineb (rp, buf, MAXLINE)`
abbrev pub read_line : Rio → Array ℕ → Outcome Left
read_line r buf = or_exit (rio_readlineb r buf max_line)

-- `requestReadhdrs`, with a round for each line.
unfoldable pub readhdrs_loop : ℕ → Rio → Array ℕ → Outcome Rio
unfolding array_is or_exit rio_readlineb
readhdrs_loop zero r buf = hang
readhdrs_loop (suc k) r buf = do
  left ← read_line r buf
  same ← array_is left.usrbuf 0 empty_line
  elim same [ true ↦ ok left.rio | false ↦ readhdrs_loop k left.rio left.usrbuf ]

-- The string in an array, which is ended by a zero byte before `n` bytes.
unfoldable pub string_at : ℕ → Array ℕ → ℕ → Outcome CString
string_at zero buf i = fault
string_at (suc n) buf i = load buf i >>= λ c. elim (c == 0) [
  | true ↦ ok []
  | false ↦ string_at n buf (suc i) >>= λ s. ok (c ∷ s)
]

-- What `isspace` accepts.
abbrev pub spaces : CString
spaces = b' ' ∷ b'\t' ∷ b'\n' ∷ 11 ∷ 12 ∷ b'\r' ∷ []

-- The first two of the words that `sscanf` stores; one that is not there stays as the array was.
unfoldable pub scan_words : CString → (method : CString) → (uri : CString) → CString × CString
scan_words line method uri = elim (strtok spaces line) [
  | none ↦ (method, uri)
  | some (word, rest) ↦ (word, elim (strtok spaces rest) [ none ↦ uri | some (other, _) ↦ other ])
]

abbrev pub lower : ℕ → ℕ
lower c = if leb b'A' c && leb c b'Z' then c + 32 else c

-- `strcasecmp (a, b) == 0`
unfoldable pub same_word : CString → CString → Bool
same_word [] [] = true
same_word [] (d ∷ b) = false
same_word (c ∷ a) [] = false
same_word (c ∷ a) (d ∷ b) = lower c == lower d && same_word a b

-- What `stat` says of a file: S_ISREG, S_IRUSR, S_IXUSR and the size.
pub record Stat : Type 0 where
  pub is_regular : Bool
  pub can_read : Bool
  pub can_execute : Bool
  pub size : ℤ

-- The page that `requestError` sends.
pub data Answer : Type 0 where
  not_implemented : CString → Answer
  not_found forbidden_read forbidden_run : CString → Answer

-- An `int` of 32 bits, and a wider integer that is stored in one.
abbrev signed32 : ℕ → ℤ
signed32 m = if ltb m (2 ^ 31) then pos m else negsuc (2 ^ 32 - 1 - m)

unfoldable pub to_int : ℤ → ℤ
to_int (pos n) = signed32 (n % 2 ^ 32)
to_int (negsuc n) = signed32 (2 ^ 32 - 1 - n % 2 ^ 32)

-- What follows `stat`: the error page, if one is sent, and the node.
unfoldable pub check_found : Option Stat → Target → Request → Option Answer × Request
unfolding to_int
check_found none t node = (some (not_found t.filename), node)
check_found (some sbuf) t node =
    if t.is_static
    then (if not sbuf.is_regular || not sbuf.can_read
        then (some (forbidden_read t.filename), node)
        else (
          none,
          record node { is_static = true; filename = t.filename; st_size = to_int sbuf.size },
        ))
    else (if not sbuf.is_regular || not sbuf.can_execute
        then (some (forbidden_run t.filename), node)
        else (none, record node { is_static = false; filename = t.filename; cgiargs = t.cgiargs }))

unfoldable pub check_target : (CString → Option Stat) → Target → Request → Option Answer × Request
unfolding check_found
check_target stat t node = check_found (stat t.filename) t node

abbrev pub get : CString
get = b'G' ∷ b'E' ∷ b'T' ∷ []

-- `requestPreProcess` up to its call of `requestError`, from the answers of `read` on the connection. `Stack` are the arrays `rio_buf`, the
-- line and that of `requestReadhdrs`, and `method` and `uri` the words, all before they are written.
pub record Stack : Type 0 where
  pub rio_buf : Array ℕ
  pub line : Array ℕ
  pub header : Array ℕ
  pub method : CString
  pub uri : CString

unfoldable pub pre_process_answer :
    ℕ → (CString → Option Stat) → Stack → List Read → Request → Outcome (Option Answer × Request)
unfolding or_exit rio_readlineb string_at scan_words same_word readhdrs_loop parse_uri check_target
pre_process_answer k stat st source node = do
  left ← read_line (rio_readinitb source st.rio_buf) st.line
  line ← string_at max_line left.usrbuf 0
  let (method, uri) = scan_words line st.method st.uri
  if same_word method get
      then (do
        after ← readhdrs_loop k left.rio st.header
        target ← parse_uri uri
        ok (check_target stat target node))
      else ok (some (not_implemented method), node)
