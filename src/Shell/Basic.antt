-- ===== src/Shell/Basic.antt =====
-- p2/basic.c: the mode of a line, the blank line and the built-in commands.
use sp.Base.{
  ℕ, suc, ◌+◌, ◌≡◌, refl, Bool, ◌||◌, [], ◌∷◌, ◌==◌, if◌then◌else◌, length, Outcome, ok, fault,
  ◌>>=◌, load, CString, same_string, has_byte, arith,
}
use sp.Shell.Process.{Arg, null, wild, text}
use sp.Shell.Parser.{Argv, blanks}

-- The loop of `getCommandMode` over its two flags.
mode_loop : CString → ℕ → ℕ → ℕ
mode_loop [] sequential parallel = sequential + parallel
mode_loop (c ∷ s) sequential parallel =
    mode_loop s (if c == b';' then 1 else sequential) (if c == b'+' then 2 else parallel)

unfoldable pub get_command_mode : CString → ℕ
unfolding mode_loop
get_command_mode s = mode_loop s 0 0

-- The library's `strspn`: how many bytes at the front are among these.
unfoldable pub strspn : CString → CString → ℕ
strspn [] set = 0
strspn (c ∷ s) set = if has_byte set c then suc (strspn s set) else 0

unfoldable pub is_empty_line : CString → Bool
unfolding strspn
is_empty_line s = strspn s blanks == length s

abbrev pub quit : CString
quit = b'q' ∷ b'u' ∷ b'i' ∷ b't' ∷ []

abbrev pub pwd : CString
pwd = b'p' ∷ b'w' ∷ b'd' ∷ []

abbrev pub cd : CString
cd = b'c' ∷ b'd' ∷ []

-- What is read through a cell of a vector; a null pointer is no string.
unfoldable pub string_of : Arg → Outcome CString
string_of null = fault
string_of wild = fault
string_of (text s) = ok s

unfoldable pub is_built_in : CString → Bool
is_built_in name = same_string name quit || same_string name pwd || same_string name cd

-- `sgl_cmd_argv[0]`, as `strcmp` reads it.
unfoldable pub command_name : Argv → Outcome CString
unfolding string_of
command_name argv = load argv 0 >>= string_of

mode_loop_lem :
    (s : CString) (sequential parallel : ℕ)
    → mode_loop s sequential parallel
      ≡ (if has_byte s b';' then 1 else sequential) + (if has_byte s b'+' then 2 else parallel)
unfolding mode_loop has_byte
mode_loop_lem [] sequential parallel = refl
mode_loop_lem (c ∷ s) sequential parallel = ground (
  arith,
  mode_loop_lem s (if c == b';' then 1 else sequential) (if c == b'+' then 2 else parallel),
)

-- `getCommandMode` returns 1 for a line with a semicolon, 2 for one with a plus sign, 3 for one
-- with both and 0 for one with neither.
pub get_command_mode_lem :
    (s : CString)
    → get_command_mode s ≡ (if has_byte s b';' then 1 else 0) + (if has_byte s b'+' then 2 else 0)
unfolding get_command_mode
get_command_mode_lem s = mode_loop_lem s 0 0
