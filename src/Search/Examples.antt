-- ===== src/Search/Examples.antt =====
-- p1/search.c: tests, and the theorems at concrete inputs.
use sp.Base.{
  ℕ, ◌≡◌, refl, inl, true, none, some, List, [], ◌∷◌, arith, pos, ok, fault, if◌then◌else◌, ◌==◌,
}
use sp.Search.Merge.{FileProperty, Files, merge_sort}
use sp.Search.Merge.Sort.{Sorts, merge_sort-Sorts}
use sp.Search.Count.{Bytes, readable, missing, c_string, get_key_word_count}
use sp.Search.Count.Optimal.{Largest, get_key_word_count_lem}
use sp.Search.Main.{World, is_integer, atoi, main, search_with}
use sp.Search.Main.Run.{Prints, search_with_lem}
use sp.Search.Main.Errors.{main_overruns}

abbrev file_of : ℕ → ℕ → FileProperty
file_of c n = record { name = some (c ∷ []); cnt_key_word = pos n }

abbrev three_files : List FileProperty
three_files = file_of b'a' 1 ∷ file_of b'b' 4 ∷ file_of b'c' 1 ∷ []

abbrev three_array : Files
three_array i =
    if i == 0
    then some (file_of b'a' 1)
    else if i == 1
    then some (file_of b'b' 4)
    else if i == 2
    then some (file_of b'c' 1)
    else none

merge_sort-Sorts_example :
    Sorts three_array 0 three_files (merge_sort (λ n. true) 4 three_array 0 (pos 2))
merge_sort-Sorts_example =
    merge_sort-Sorts (λ n. true) (λ n. refl) three_array three_files (omega arith)
      (refl, (refl, (refl, tt)))

-- "abababa" holds "aba" twice without overlap.
abbrev ababa : Bytes
ababa = b'a' ∷ b'b' ∷ b'a' ∷ b'b' ∷ b'a' ∷ b'b' ∷ b'a' ∷ []

abbrev aba : Bytes
aba = b'a' ∷ b'b' ∷ b'a' ∷ []

two_matches :
    get_key_word_count (λ n. true) (readable ababa) (file_of b'f' 0) aba ≡ ok (file_of b'f' 2)
unfolding get_key_word_count
two_matches = refl

get_key_word_count_lem_example :
    (r : ℕ) × (get_key_word_count (λ n. true) (readable ababa) (file_of b'f' 0) aba
      ≡ ok (file_of b'f' r))
    × Largest aba (c_string ababa) r
get_key_word_count_lem_example =
    get_key_word_count_lem (λ n. true) ababa (file_of b'f' 0) aba (λ n. refl) (omega arith)
      (λ e. cc)

-- One file, "f", which holds "abababa".
abbrev small_world : World
small_world = record {
  access = λ arg. elim arg [ [] ↦ missing | c ∷ rest ↦ readable ababa ];
  real_path = λ arg. some arg;
  can_write = λ arg. true;
  has_room = λ n. true;
  usable = λ n. n;
}

search_with_lem_example :
    Prints small_world aba ((b'f' ∷ []) ∷ []) (search_with small_world 4 1 aba ((b'f' ∷ []) ∷ []))
search_with_lem_example =
    search_with_lem small_world aba ((b'f' ∷ []) ∷ []) 4 (λ n. refl) (λ e. cc)
      ((ababa, refl, omega arith), tt) (omega arith)

main_overruns_example : main small_world ([] ∷ (b'1' ∷ []) ∷ aba ∷ (b'f' ∷ []) ∷ []) ≡ fault
unfolding is_integer atoi
main_overruns_example =
    main_overruns small_world [] (b'1' ∷ []) aba ((b'f' ∷ []) ∷ []) 1 refl refl (inl refl) refl refl
      refl
