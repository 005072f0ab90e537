-- ===== src/Search/Main/Run.antt =====
-- p1/search.c: once the keyword is there, `main` prints readable files sorted by their counts.
use sp.Base.{
  ℕ, suc, ◌+◌, ◌<◌, ◌^◌, ◌≡◌, ◌≢◌, ◌∙◌, refl, ap, subst, true, none, some, List, [], ◌∷◌, ◌++◌,
  arith, pos, length, All, Outcome, ok, ◌>>=◌, store_lem, calloc, update, Holds, Room, Room-update,
  Room-calloc, ◌==◌,
}
use mathlib.Core.List.{append-nil}
use sp.Search.Merge.{FileProperty, Files, zero_file, last_index, merge_sort}
use sp.Search.Merge.Lists.{Counted}
use sp.Search.Merge.Sort.{SortedFrom, Sorts, merge_sort-Sorts}
use sp.Search.Count.{Bytes, readable, c_string, get_key_word_count}
use sp.Search.Count.Optimal.{Largest, get_key_word_count_lem}
use sp.Search.Main.{World, Output, count_files, open_output, print_lines, search_with}

-- The file is named, and holds the largest number of separate matches in what the name reads as.
pub record Counts (w : World) (key arg : Bytes) (x : FileProperty) : Type 0 where
  pub bytes : Bytes
  pub matches : ℕ
  pub named : x.name ≡ some arg
  pub reads : w.access arg ≡ readable bytes
  pub count : x.cnt_key_word ≡ pos matches
  pub largest : Largest key (c_string bytes) matches

-- The same for each argument, in order.
abbrev pub AllCount : World → Bytes → List Bytes → List FileProperty → Type 0
AllCount w key [] [] = Unit
AllCount w key [] (x ∷ xs) = ⊥
AllCount w key (arg ∷ argv) [] = ⊥
AllCount w key (arg ∷ argv) (x ∷ xs) = Counts w key arg x × AllCount w key argv xs

-- The name reads as a file of less than 2^31 bytes.
abbrev pub IsReadable : World → Bytes → Type 0
IsReadable w arg = (bytes : Bytes) × (w.access arg ≡ readable bytes) × (length bytes < 2 ^ 31)

-- The run of the counting loop fills the array from `i` on.
record Filled (w : World) (key : Bytes) (argv rest : List Bytes) (files : Files) (i : ℕ)
    (r : Outcome (Files × List Bytes)) : Type 0 where
  xs : List FileProperty
  final : Files
  counts : AllCount w key argv xs
  returns : r ≡ ok (final, rest)
  holds : Holds final i xs
  before : (j : ℕ) → j < i → final j ≡ files j

module _ (w : World) (room : (n : ℕ) → w.has_room n ≡ true) (key : Bytes) (ne : key ≢ []) where
  -- One round, with what the rounds after it do.
  count_files_step :
      (arg : Bytes) (argv rest : List Bytes) (files : Files) (i : ℕ) (x : FileProperty)
      → IsReadable w arg
      → files i ≡ some x
      → ((file : FileProperty)
          → Filled w key argv rest
              (update files i file)
              (suc i)
              (count_files w key (length argv) (suc i) (argv ++ rest) (update files i file)))
      → Filled w key
          (arg ∷ argv)
          rest
          files
          i
          (count_files w key (suc (length argv)) i (arg ∷ argv ++ rest) files)
  unfolding count_files
  count_files_step arg argv rest files i x (bytes, reads, small) e rounds =
      rw (e, reads, count_files)
        (rw (counted.1, ◌>>=◌)
          (rw (store_lem files i file e, ◌>>=◌)
            (record {
              xs = file ∷ f.xs;
              final = f.final;
              counts = (known, f.counts);
              returns = f.returns;
              holds = (f.before i (omega arith) ∙ ground arith, f.holds);
              before = λ j h. f.before j (omega arith) ∙ ground arith;
            })))
    where
      counted :
          (r : ℕ) × (get_key_word_count w.has_room
              (readable bytes)
              (record x { name = some arg })
              key
            ≡ ok (record { name = some arg; cnt_key_word = pos r }))
          × Largest key (c_string bytes) r
      counted =
          get_key_word_count_lem w.has_room bytes (record x { name = some arg }) key room small ne

      file : FileProperty
      file = record { name = some arg; cnt_key_word = pos counted.0 }

      known : Counts w key arg file
      known = record {
        bytes = bytes;
        matches = counted.0;
        named = refl;
        reads = reads;
        count = refl;
        largest = counted.2;
      }

      f :
          Filled w key argv rest
            (update files i file)
            (suc i)
            (count_files w key (length argv) (suc i) (argv ++ rest) (update files i file))
      f = rounds file

  count_files_lem :
      (argv rest : List Bytes) (files : Files) (i : ℕ)
      → All (IsReadable w) argv
      → Room files i (length argv)
      → Filled w key argv rest files i (count_files w key (length argv) i (argv ++ rest) files)
  unfolding count_files
  count_files_lem [] rest files i reads there = record {
    xs = [];
    final = files;
    counts = tt;
    returns = refl;
    holds = tt;
    before = λ j h. refl;
  }
  count_files_lem (arg ∷ argv) rest files i (reads, more) ((x, e), there) =
      count_files_step arg argv rest files i x reads e λ file.
        count_files_lem argv rest (update files i file) (suc i) more
          (Room-update files (suc i) (length argv) i file there)

AllCount-length :
    (w : World) (key : Bytes) (argv : List Bytes) (xs : List FileProperty)
    → AllCount w key argv xs
    → length xs ≡ length argv
AllCount-length w key [] [] h = refl
AllCount-length w key [] (x ∷ xs) h = absurd h
AllCount-length w key (arg ∷ argv) [] h = absurd h
AllCount-length w key (arg ∷ argv) (x ∷ xs) h = ap suc (AllCount-length w key argv xs h.1)

AllCount-Counted :
    (w : World) (key : Bytes) (argv : List Bytes) (xs : List FileProperty)
    → AllCount w key argv xs
    → All Counted xs
AllCount-Counted w key [] [] h = tt
AllCount-Counted w key [] (x ∷ xs) h = absurd h
AllCount-Counted w key (arg ∷ argv) [] h = absurd h
AllCount-Counted w key (arg ∷ argv) (x ∷ xs) (c, h) =
    (rw c.count (omega arith), AllCount-Counted w key argv xs h)

print_lines_lem :
    (xs : List FileProperty) (i : ℕ) (files : Files)
    → Holds files i xs
    → print_lines (length xs) i files ≡ ok xs
unfolding print_lines
print_lines_lem [] i files h = refl
print_lines_lem (x ∷ xs) i files (e, h) =
    rw (e, print_lines) (rw (print_lines_lem xs (suc i) files h, ◌>>=◌) refl)

-- What is printed on stdout for the files that `argv` names.
abbrev pub Prints : World → Bytes → List Bytes → Outcome Output → Type 0
Prints w key argv r =
    (xs : List FileProperty) × (zs : List FileProperty) × AllCount w key argv xs
    × SortedFrom xs zs
    × (r ≡ ok (record { target = none; lines = zs }))

open_stdout :
    (w : World) (argc n : ℕ) (argv : List Bytes) (files : Files)
    → argc ≡ n + 3
    → open_output w (argc == n + 4) n argv files ≡ ok none
unfolding open_output
open_stdout w argc n argv files e = ground arith

-- Once the keyword is in its block, where that is not empty, every `calloc` succeeds, and the
-- arguments left are the names of as many readable files of less than 2^31 bytes as were announced,
-- `main` writes to stdout one line for each file, with the largest number of matches in it, before
-- its first zero byte, that do not overlap, sorted stably by that number, larger first.
pub search_with_lem :
    (w : World) (key : Bytes) (argv : List Bytes) (argc : ℕ)
    → ((n : ℕ) → w.has_room n ≡ true)
    → key ≢ []
    → All (IsReadable w) argv
    → argc ≡ length argv + 3
    → Prints w key argv (search_with w argc (length argv) key argv)
unfolding search_with
search_with_lem w key argv argc room ne reads e = (
  f.xs,
  sorted.0,
  f.counts,
  sorted.1,
  rw (returns, ◌>>=◌)
      (rw (open_stdout w argc (length argv) [] f.final e, ◌>>=◌)
        (rw (sorts, ◌>>=◌) (rw (printed, ◌>>=◌) refl))),
)
  where
    f :
        Filled w key argv []
          (calloc (length argv) zero_file)
          0
          (count_files w key (length argv) 0 (argv ++ []) (calloc (length argv) zero_file))
    f =
        count_files_lem w room key ne argv [] (calloc (length argv) zero_file) 0 reads
          (Room-calloc (length argv) 0 (length argv) zero_file (omega arith))

    size : length f.xs ≡ length argv
    size = AllCount-length w key argv f.xs f.counts

    returns :
        count_files w key (length argv) 0 argv (calloc (length argv) zero_file) ≡ ok (f.final, [])
    returns =
        subst
          (λ a.
            count_files w key (length argv) 0 a (calloc (length argv) zero_file) ≡ ok (f.final, []))
          (append-nil argv) f.returns

    sorted :
        Sorts f.final 0 f.xs
          (merge_sort w.has_room (suc (length f.xs)) f.final 0 (last_index (length f.xs)))
    sorted =
        merge_sort-Sorts w.has_room room f.final f.xs (AllCount-Counted w key argv f.xs f.counts)
          f.holds

    sorts :
        merge_sort w.has_room (suc (length argv)) f.final 0 (last_index (length argv))
        ≡ ok sorted.2.final
    sorts =
        subst (λ n. merge_sort w.has_room (suc n) f.final 0 (last_index n) ≡ ok sorted.2.final) size
          sorted.2.returns

    printed : print_lines (length argv) 0 sorted.2.final ≡ ok sorted.0
    printed =
        subst (λ n. print_lines n 0 sorted.2.final ≡ ok sorted.0) (sorted.1.same_length ∙ size)
          (print_lines_lem sorted.0 0 sorted.2.final sorted.2.holds)
