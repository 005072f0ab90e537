-- ===== src/Request/Error.antt =====
-- p5/request.c: the error pages. `print_on` stands for `sprintf` into the array that it reads, as for the
-- replies.
mod Texts
use sp.Base.{ℕ, List, [], ◌∷◌, ◌++◌, length, pos, Outcome, ok, ◌>>=◌, CString}
use sp.Rio.{Write}
use sp.Request.{Answer, not_implemented, not_found, forbidden_read, forbidden_run}
use sp.Request.Serve.{Printing, print_lines, write_string}
use sp.Request.Error.Texts

-- The arguments of `requestError` behind the descriptor.
pub record Problem : Type 0 where
  pub cause : CString
  pub errnum : CString
  pub shortmsg : CString
  pub longmsg : CString

-- What the calls of `requestError` say.
unfoldable pub problem_of : Answer → Problem
problem_of (not_implemented method) = record {
  cause = method;
  errnum = Texts.not_implemented_num;
  shortmsg = Texts.not_implemented_short;
  longmsg = Texts.not_implemented_long;
}
problem_of (not_found filename) = record {
  cause = filename;
  errnum = Texts.not_found_num;
  shortmsg = Texts.not_found_short;
  longmsg = Texts.not_found_long;
}
problem_of (forbidden_read filename) = record {
  cause = filename;
  errnum = Texts.forbidden_num;
  shortmsg = Texts.forbidden_short;
  longmsg = Texts.read_long;
}
problem_of (forbidden_run filename) = record {
  cause = filename;
  errnum = Texts.forbidden_num;
  shortmsg = Texts.forbidden_short;
  longmsg = Texts.run_long;
}

abbrev pub body_lines : Problem → List CString
body_lines e =
    Texts.body
    ∷ (e.errnum ++ Texts.colon ++ e.shortmsg ++ Texts.crlf)
    ∷ (Texts.paragraph ++ e.longmsg ++ Texts.colon ++ e.cause ++ Texts.crlf)
    ∷ Texts.footer
    ∷ []

abbrev pub status_line : Problem → CString
status_line e = Texts.version ++ e.errnum ++ Texts.space ++ e.shortmsg ++ Texts.crlf

abbrev pub length_line : Printing → ℕ → CString
length_line p n = Texts.content_length ++ p.decimal (pos n) ++ Texts.crlf ++ Texts.crlf

-- The answers of `write` to the four calls of `Rio_writen`.
pub record PageWrites : Type 0 where
  pub status : List Write
  pub kind : List Write
  pub size : List Write
  pub body : List Write

unfoldable pub request_error : Printing → PageWrites → Problem → Outcome (List ℕ)
unfolding print_lines
request_error p ws e = do
  body ← print_lines p Texts.title (body_lines e)
  a ← write_string ws.status (status_line e)
  b ← write_string ws.kind Texts.content_type
  c ← write_string ws.size (length_line p (length body))
  d ← write_string ws.body body
  ok (a ++ b ++ c ++ d)
