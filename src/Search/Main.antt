-- ===== src/Search/Main.antt =====
-- p1/search.c, `main` and `isInteger`. The file system and the allocator are parameters. What `main`
-- prints is its result: the target, and the files in the order in which their lines are written.
pub mod Run
pub mod Errors
use sp.Base.{
  ℕ, zero, suc, ◌+◌, ◌-◌, ◌*◌, ◌^◌, ◌≤◌, Bool, true, false, ◌&&◌, ◌||◌, not, Option, none, some,
  List, [], ◌∷◌, ◌==◌, ltb, leb, if◌then◌else◌, ℤ, pos, negsuc, length, Outcome, ok, fault, ◌>>=◌,
  ◌>>◌, require, load, store, calloc,
}
use sp.Search.Merge.{FileProperty, Files, zero_file, last_index, merge_sort}
use sp.Search.Count.{Bytes, Access, get_key_word_count}

-- `usable n` is how many bytes a block of `n` bytes really has. A path that `realpath` cannot
-- resolve has no real path, and `can_write` says whether `fopen` opens it for writing.
pub record World : Type 0 where
  pub access : Bytes → Access
  pub real_path : Bytes → Option Bytes
  pub can_write : Bytes → Bool
  pub has_room : ℕ → Bool
  pub usable : ℕ → ℕ

is_digit : ℕ → Bool
is_digit c = leb b'0' c && leb c b'9'

unfoldable pub is_integer : Bytes → Bool
unfolding is_digit
is_integer [] = true
is_integer (c ∷ str) = is_digit c && is_integer str

digits_value : ℕ → Bytes → ℕ
digits_value acc [] = acc
digits_value acc (c ∷ str) = digits_value (acc * 10 + (c - b'0')) str

-- The library's `atoi` on a string of digits; a value that is no `int` is undefined.
unfoldable pub atoi : Bytes → Outcome ℕ
unfolding digits_value
atoi str = if ltb (digits_value 0 str) (2 ^ 31) then ok (digits_value 0 str) else fault

-- `calloc (strlen (*argv), sizeof (char))`, then `strcpy`, which writes the terminator too.
pub copy_key_word : World → Bytes → Outcome Bytes
copy_key_word w word = do
  require (w.has_room (length word)) 1
  if leb (length word + 1) (w.usable (length word)) then ok word else fault

-- The loop that names each file and counts its matches; it returns the rest of `argv` too. Behind
-- the arguments `argv` holds a null pointer, which no call of this loop reaches.
pub count_files : World → Bytes → ℕ → ℕ → List Bytes → Files → Outcome (Files × List Bytes)
count_files w key zero i argv files = ok (files, argv)
count_files w key (suc n) i [] files = fault
count_files w key (suc n) i (arg ∷ argv) files = do
  x ← load files i
  file ← get_key_word_count w.has_room (w.access arg) (record x { name = some arg }) key
  files' ← store files i file
  count_files w key n (suc i) argv files'

-- `strcmp (a, b) == 0`
same_bytes : Bytes → Bytes → Bool
same_bytes [] [] = true
same_bytes [] (d ∷ b) = false
same_bytes (c ∷ a) [] = false
same_bytes (c ∷ a) (d ∷ b) = c == d && same_bytes a b

-- `realpath` of the name of a file; a null name does not resolve.
path_of : World → Option Bytes → Option Bytes
path_of w none = none
path_of w (some arg) = w.real_path arg

-- The process ends with status 1 unless both paths are there and differ.
require_other : Option Bytes → Bytes → Outcome (Unit {0})
unfolding same_bytes
require_other none output = Outcome.exit 1
require_other (some input) output = require (not (same_bytes output input)) 1

-- The loop that compares the output path with each input path.
check_inputs : World → Bytes → ℕ → ℕ → Files → Outcome (Unit {0})
check_inputs w output zero i files = ok tt
check_inputs w output (suc n) i files = do
  x ← load files i
  require_other (path_of w x.name) output
  check_inputs w output n (suc i) files

check_output_path : World → Option Bytes → ℕ → Files → Outcome (Unit {0})
unfolding check_inputs require_other path_of
check_output_path w none n files = Outcome.exit 1
check_output_path w (some output) n files = check_inputs w output n 0 files

-- The stream that is written: an output file where one more argument names it, or else stdout.
pub open_output : World → Bool → ℕ → List Bytes → Files → Outcome (Option Bytes)
unfolding check_output_path
open_output w false n argv files = ok none
open_output w true n [] files = fault
open_output w true n (arg ∷ argv) files = do
  require (w.can_write arg) 1
  check_output_path w (w.real_path arg) n files
  ok (some arg)

pub print_lines : ℕ → ℕ → Files → Outcome (List FileProperty)
print_lines zero i files = ok []
print_lines (suc n) i files = do x ← load files i; rest ← print_lines n (suc i) files; ok (x ∷ rest)

pub record Output : Type 0 where
  pub target : Option Bytes
  pub lines : List FileProperty

-- From the loop over the files on. The sort gets one level of recursion for each file, and one more.
pub search_with : World → ℕ → ℕ → Bytes → List Bytes → Outcome Output
unfolding count_files open_output print_lines
search_with w argc n key argv = do
  (files, rest) ← count_files w key n 0 argv (calloc n zero_file)
  target ← open_output w (argc == n + 4) n rest files
  sorted ← merge_sort w.has_room (suc n) files 0 (last_index n)
  lines ← print_lines n 0 sorted
  ok (record { target = target; lines = lines })

-- From the keyword on.
pub search_files : World → ℕ → ℕ → List Bytes → Outcome Output
unfolding copy_key_word search_with
search_files w argc n [] = fault
search_files w argc n (arg ∷ argv) = copy_key_word w arg >>= λ key. search_with w argc n key argv

-- The command line, from the name of the program on. With no argument `isInteger` reads through a
-- null pointer.
unfoldable pub main : World → List Bytes → Outcome Output
unfolding search_files is_integer atoi
main w [] = fault
main w (program ∷ []) = fault
main w (program ∷ number ∷ argv) =
    let argc = length argv + 2 in
    do
      require (is_integer number) 1
      n ← atoi number
      require (argc == n + 3 || argc == n + 4) 1
      require (w.has_room n) 1
      search_files w argc n argv
