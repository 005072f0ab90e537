-- ===== src/Request/Uri.antt =====
-- p5/request.c: the file name and the arguments of a URI.
use sp.Base.{
  ℕ, suc, ◌+◌, ◌≤◌, ◌<◌, ◌≡◌, refl, ap, true, false, [], ◌∷◌, ◌++◌, ◌==◌, if◌then◌else◌, length,
  length-append, arith, lt→ltb, ok, CString, has_byte, Bool-cases, inl, inr,
}
use mathlib.Core.List.{append_assoc}
use sp.Request.{
  max_line, cgi, home, contains, last_byte, before_mark, after_mark, Target, parse_static,
  parse_dynamic, parse_uri,
}

mark_lem : (s : CString) → has_byte s b'?' ≡ true → before_mark s ++ b'?' ∷ after_mark s ≡ s
unfolding has_byte before_mark after_mark
mark_lem [] h = cc
mark_lem (c ∷ s) h = elim (Bool-cases (c == b'?')) [
  | inl end ↦ rw end (ap (λ d. d ∷ s) (ground (arith, end)))
  | inr more ↦ rw more (ap (λ t. c ∷ t) (mark_lem s (ground (arith, h, more))))
]

mark_length :
    (s : CString) → (length (before_mark s) ≤ length s) × (length (after_mark s) ≤ length s)
unfolding before_mark after_mark
mark_length [] = (omega arith, omega arith)
mark_length (c ∷ s) = (ground (arith, mark_length s), ground (arith, mark_length s))

-- On a URI with `cgi` and a question mark that is shorter than 8191 bytes, `requestParseURI` says
-- that it is dynamic, and the file name, a question mark and the arguments make a dot and the URI
-- again.
pub parse_uri-dynamic :
    (uri : CString)
    → contains uri cgi ≡ true
    → has_byte uri b'?' ≡ true
    → length uri + 1 < max_line
    → (t : Target) × (parse_uri uri ≡ ok t)
      × (t.is_static ≡ false)
      × (t.filename ++ b'?' ∷ t.cgiargs ≡ b'.' ∷ uri)
unfolding parse_uri parse_dynamic
parse_uri-dynamic uri dynamic mark lt =
    let (before, after) = mark_length uri in
    (
      record { is_static = false; filename = b'.' ∷ before_mark uri; cgiargs = after_mark uri },
      rw
          (
            dynamic,
            lt→ltb (length (after_mark uri)) max_line (omega arith),
            lt→ltb (suc (length (before_mark uri))) max_line (omega arith),
          )
          refl,
      refl,
      ap (λ s. b'.' ∷ s) (mark_lem uri mark),
    )

-- The file that a URI without "cgi" names: a directory stands for its home page.
abbrev pub static_name : CString → ℕ → CString
static_name dir c = if c == b'/' then b'.' ∷ dir ++ (c ∷ home) else b'.' ∷ dir ++ c ∷ []

last_byte_lem : (dir : CString) (c : ℕ) → last_byte (dir ++ c ∷ []) ≡ ok c
unfolding last_byte
last_byte_lem [] c = refl
last_byte_lem (d ∷ []) c = refl
last_byte_lem (d ∷ e ∷ dir) c = last_byte_lem (e ∷ dir) c

-- On a URI without `cgi` that is not empty and has less than 8182 bytes, `requestParseURI` says
-- that it is static, and the file name is a dot and the URI, and `home.html` after a slash at the
-- end.
pub parse_uri-static :
    (dir : CString) (c : ℕ)
    → contains (dir ++ c ∷ []) cgi ≡ false
    → length dir + 11 < max_line
    → parse_uri (dir ++ c ∷ [])
      ≡ ok (record { is_static = true; filename = static_name dir c; cgiargs = [] })
unfolding parse_uri parse_static
parse_uri-static dir c static lt =
    rw
      (
        static,
        lt→ltb (suc (length (dir ++ c ∷ []))) max_line (omega (arith, length-append dir (c ∷ []))),
        last_byte_lem dir c,
      )
      (elim (Bool-cases (c == b'/')) [
        | inl slash ↦
            rw
              (
                slash,
                append_assoc dir (c ∷ []) home,
                lt→ltb (suc (length (dir ++ c ∷ home))) max_line
                    (omega (arith, length-append dir (c ∷ home))),
              )
              refl
        | inr plain ↦
            rw
              (
                plain,
                lt→ltb (suc (length (dir ++ c ∷ []))) max_line
                    (omega (arith, length-append dir (c ∷ []))),
              )
              refl
      ])
