-- ===== src/Base/Strings.antt =====
-- C strings: the list of the bytes before the terminator. A pointer into one is the rest of the list.
use Prim.Native.Nat.{ℕ}
use mathlib.Core.Bool.{Bool, true, false, ◌&&◌, ◌||◌}
use mathlib.Core.Option.{Option, none, some}
use mathlib.Core.List.{List, [], ◌∷◌}
use sp.Base.Tests.{◌==◌, if◌then◌else◌}

abbrev pub CString : Type 0
CString = List ℕ

-- `strcmp (a, b) == 0`
unfoldable pub same_string : CString → CString → Bool
same_string [] [] = true
same_string [] (d ∷ b) = false
same_string (c ∷ a) [] = false
same_string (c ∷ a) (d ∷ b) = c == d && same_string a b

-- Whether a byte is one of these; `strchr (s, c) != NULL`.
unfoldable pub has_byte : CString → ℕ → Bool
has_byte [] c = false
has_byte (d ∷ s) c = d == c || has_byte s c

abbrev pub is_nonempty : CString → Bool
is_nonempty [] = false
is_nonempty (c ∷ s) = true

unfoldable pub is_prefix : CString → CString → Bool
is_prefix [] s = true
is_prefix (k ∷ key) [] = false
is_prefix (k ∷ key) (c ∷ s) = k == c && is_prefix key s

-- The library's `strstr`: the rest of the string from the first match on.
unfoldable pub strstr : CString → CString → Option CString
strstr [] key = if is_prefix key [] then some [] else none
strstr (c ∷ s) key = if is_prefix key (c ∷ s) then some (c ∷ s) else strstr s key
