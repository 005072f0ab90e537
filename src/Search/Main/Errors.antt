-- ===== src/Search/Main/Errors.antt =====
-- p1/search.c: how `main` refuses its arguments, and how the copy of the keyword overruns its
-- block.
use sp.Base.{
  ℕ, suc, ◌+◌, ◌≤◌, ◌<◌, ◌≡◌, ◌∙◌, refl, ◌⊎◌, inl, inr, true, false, List, ◌∷◌, arith, length, ok,
  exit, fault, ◌>>=◌, require, ◌==◌, ◌||◌,
}
use sp.Search.Count.{Bytes}
use sp.Search.Main.{World, is_integer, atoi, copy_key_word, search_files, main}

-- The arguments that `main` tells apart from a right command line: a number that is none, or a count
-- of arguments that is not the number with the keyword, and with or without an output file.
abbrev pub IsRefused : Bytes → List Bytes → Type 0
IsRefused number argv =
    (is_integer number ≡ false)
    ⊎ ((n : ℕ) × (is_integer number ≡ true)
        × (atoi number ≡ ok n)
        × ((length argv ≤ n) ⊎ (n + 2 < length argv)))

-- On a first argument that is no number, and on a number with too few or too many arguments for it,
-- `main` ends with status 1, whatever the file system and the allocator do.
main_refuses :
    (w : World) (program number : Bytes) (argv : List Bytes)
    → IsRefused number argv
    → main w (program ∷ number ∷ argv) ≡ exit 1
unfolding main
main_refuses w program number argv (inl bad) = rw (bad, require, ◌>>=◌)
main_refuses w program number argv (inr (n, digits, value, wrong)) =
    rw (digits, require, ◌>>=◌) (rw (value, ◌>>=◌) (rw (count, ◌>>=◌) refl))
  where
    count : require (length argv + 2 == n + 3 || length argv + 2 == n + 4) 1 ≡ exit 1
    count = ground arith

-- What `main` does once its arguments are right and the array of files is there.
main-search_files :
    (w : World) (program number key : Bytes) (argv : List Bytes) (n : ℕ)
    → is_integer number ≡ true
    → atoi number ≡ ok n
    → (length argv ≡ n) ⊎ (length argv ≡ n + 1)
    → w.has_room n ≡ true
    → main w (program ∷ number ∷ key ∷ argv) ≡ search_files w (suc (length argv) + 2) n (key ∷ argv)
unfolding main
main-search_files w program number key argv n digits value right room =
    rw (digits, require, ◌>>=◌) (rw (value, ◌>>=◌) (rw (count, ◌>>=◌, require) (rw room refl)))
  where
    count : require (suc (length argv) + 2 == n + 3 || suc (length argv) + 2 == n + 4) 1 ≡ ok tt
    count = ground arith

-- Where the block for the keyword has exactly the bytes asked for and its allocation and that of
-- the array succeed, `main` with a right count of arguments, with or without an output file, writes
-- past the end of the block.
pub main_overruns :
    (w : World) (program number key : Bytes) (argv : List Bytes) (n : ℕ)
    → is_integer number ≡ true
    → atoi number ≡ ok n
    → (length argv ≡ n) ⊎ (length argv ≡ n + 1)
    → w.has_room n ≡ true
    → w.has_room (length key) ≡ true
    → w.usable (length key) ≡ length key
    → main w (program ∷ number ∷ key ∷ argv) ≡ fault
unfolding search_files
main_overruns w program number key argv n digits value right room room' exact =
    main-search_files w program number key argv n digits value right room ∙ rw (overrun, ◌>>=◌) refl
  where
    overrun : copy_key_word w key ≡ fault
    overrun = unfold copy_key_word in ground arith
