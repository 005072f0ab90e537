-- ===== src/Search/Count.antt =====
-- p1/search.c, `getKeyWordCount`: how often the keyword stands in a file. A C string is the list of
-- its bytes before the terminator, and a pointer into it is the rest of the list.
pub mod Optimal
use sp.Base.{
  strstr, is_prefix, ℕ, zero, suc, ◌+◌, Bool, true, false, ◌&&◌, Option, none, some, List, [], ◌∷◌,
  ◌==◌, if◌then◌else◌, pos, length, drop, take, ◌-◌, ◌%◌, ◌^◌, ltb, Outcome, ok, hang, fault, ◌>>=◌,
  ◌>>◌, require,
}
use sp.Search.Merge.{FileProperty}

abbrev pub Bytes : Type 0
Bytes = List ℕ

-- The loop over the matches; `loc` is an `int`, and `file_contents + loc` with one below 0 points before the
-- string. `strstr` returns the rest of the string from the match on.
unfoldable pub count_loop : ℕ → Bytes → Bytes → ℕ → ℕ → Outcome ℕ
unfolding strstr is_prefix
count_loop zero s key loc cnt = hang
count_loop (suc n) s key loc cnt = elim (strstr (drop loc s) key) [
  | none ↦ ok cnt
  | some found ↦
      let next = (length s - length found + length key) % 2 ^ 32 in
      elim (ltb next (2 ^ 31)) [ true ↦ count_loop n s key next (cnt + 1) | false ↦ fault ]
]

-- What the bytes of a file read as, as a C string.
pub c_string : Bytes → Bytes
c_string [] = []
c_string (c ∷ s) = if c == 0 then [] else c ∷ c_string s

-- What the file system says of a name: no such path, a path that `fopen` cannot read, or its bytes.
pub data Access : Type 0 where
  missing unreadable : Access
  readable : Bytes → Access

-- The terminator is stored behind the bytes that are read.
abbrev require_block : Bool → Outcome (Unit {0})
require_block true = ok tt
require_block false = fault

-- `fseek` on the null stream of a failed `fopen` is undefined. The size of the file is kept in an `unsigned`, and
-- the block has that and one more, again as an `unsigned`. The loop gets one round for each byte, and one more.
unfoldable pub get_key_word_count :
    (has_room : ℕ → Bool) → Access → FileProperty → Bytes → Outcome FileProperty
unfolding count_loop c_string
get_key_word_count has_room missing file key = Outcome.exit 1
get_key_word_count has_room unreadable file key = fault
get_key_word_count has_room (readable bytes) file key = do
  let file_str_size = length bytes % 2 ^ 32
  require (has_room ((file_str_size + 1) % 2 ^ 32)) 1
  require_block (ltb (file_str_size + 1) (2 ^ 32))
  cnt ← count_loop (file_str_size + 1) (c_string (take file_str_size bytes)) key 0 0
  ok (record file { cnt_key_word = pos cnt })
