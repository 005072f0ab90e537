-- ===== src/Request/Error/Texts.antt =====
-- p5/request.c: the texts of an error page.
use sp.Base.{[], ◌∷◌, CString}

-- "<html><title>CS537 Error</title>"
abbrev pub title : CString
title =
    b'<' ∷ b'h' ∷ b't' ∷ b'm' ∷ b'l' ∷ b'>' ∷ b'<' ∷ b't' ∷ b'i' ∷ b't' ∷ b'l' ∷ b'e' ∷ b'>' ∷ b'C'
    ∷ b'S' ∷ b'5' ∷ b'3' ∷ b'7' ∷ b' ' ∷ b'E' ∷ b'r' ∷ b'r' ∷ b'o' ∷ b'r' ∷ b'<' ∷ b'/' ∷ b't'
    ∷ b'i' ∷ b't' ∷ b'l' ∷ b'e' ∷ b'>' ∷ []

-- "<body bgcolor=fffff>"
abbrev pub body : CString
body =
    b'<' ∷ b'b' ∷ b'o' ∷ b'd' ∷ b'y' ∷ b' ' ∷ b'b' ∷ b'g' ∷ b'c' ∷ b'o' ∷ b'l' ∷ b'o' ∷ b'r' ∷ b'='
    ∷ b'f' ∷ b'f' ∷ b'f' ∷ b'f' ∷ b'f' ∷ b'>' ∷ b'\r' ∷ b'\n' ∷ []

-- ":"
abbrev pub colon : CString
colon = b':' ∷ b' ' ∷ []

-- "<p>"
abbrev pub paragraph : CString
paragraph = b'<' ∷ b'p' ∷ b'>' ∷ []

-- "<hr>CS537 Web Server"
abbrev pub footer : CString
footer =
    b'<' ∷ b'h' ∷ b'r' ∷ b'>' ∷ b'C' ∷ b'S' ∷ b'5' ∷ b'3' ∷ b'7' ∷ b' ' ∷ b'W' ∷ b'e' ∷ b'b' ∷ b' '
    ∷ b'S' ∷ b'e' ∷ b'r' ∷ b'v' ∷ b'e' ∷ b'r' ∷ b'\r' ∷ b'\n' ∷ []

-- "HTTP/1.0"
abbrev pub version : CString
version = b'H' ∷ b'T' ∷ b'T' ∷ b'P' ∷ b'/' ∷ b'1' ∷ b'.' ∷ b'0' ∷ b' ' ∷ []

-- "a blank"
abbrev pub space : CString
space = b' ' ∷ []

-- "Content-Type: text/html"
abbrev pub content_type : CString
content_type =
    b'C' ∷ b'o' ∷ b'n' ∷ b't' ∷ b'e' ∷ b'n' ∷ b't' ∷ b'-' ∷ b'T' ∷ b'y' ∷ b'p' ∷ b'e' ∷ b':' ∷ b' '
    ∷ b't' ∷ b'e' ∷ b'x' ∷ b't' ∷ b'/' ∷ b'h' ∷ b't' ∷ b'm' ∷ b'l' ∷ b'\r' ∷ b'\n' ∷ []

-- "Content-Length:"
abbrev pub content_length : CString
content_length =
    b'C' ∷ b'o' ∷ b'n' ∷ b't' ∷ b'e' ∷ b'n' ∷ b't' ∷ b'-' ∷ b'L' ∷ b'e' ∷ b'n' ∷ b'g' ∷ b't' ∷ b'h'
    ∷ b':' ∷ b' ' ∷ []

-- "a blank"
abbrev pub crlf : CString
crlf = b'\r' ∷ b'\n' ∷ []

-- "501"
abbrev pub not_implemented_num : CString
not_implemented_num = b'5' ∷ b'0' ∷ b'1' ∷ []

-- "Not Implemented"
abbrev pub not_implemented_short : CString
not_implemented_short =
    b'N' ∷ b'o' ∷ b't' ∷ b' ' ∷ b'I' ∷ b'm' ∷ b'p' ∷ b'l' ∷ b'e' ∷ b'm' ∷ b'e' ∷ b'n' ∷ b't' ∷ b'e'
    ∷ b'd' ∷ []

-- "CS537 Server does not implement this method"
abbrev pub not_implemented_long : CString
not_implemented_long =
    b'C' ∷ b'S' ∷ b'5' ∷ b'3' ∷ b'7' ∷ b' ' ∷ b'S' ∷ b'e' ∷ b'r' ∷ b'v' ∷ b'e' ∷ b'r' ∷ b' ' ∷ b'd'
    ∷ b'o' ∷ b'e' ∷ b's' ∷ b' ' ∷ b'n' ∷ b'o' ∷ b't' ∷ b' ' ∷ b'i' ∷ b'm' ∷ b'p' ∷ b'l' ∷ b'e'
    ∷ b'm' ∷ b'e' ∷ b'n' ∷ b't' ∷ b' ' ∷ b't' ∷ b'h' ∷ b'i' ∷ b's' ∷ b' ' ∷ b'm' ∷ b'e' ∷ b't'
    ∷ b'h' ∷ b'o' ∷ b'd' ∷ []

-- "404"
abbrev pub not_found_num : CString
not_found_num = b'4' ∷ b'0' ∷ b'4' ∷ []

-- "Not found"
abbrev pub not_found_short : CString
not_found_short = b'N' ∷ b'o' ∷ b't' ∷ b' ' ∷ b'f' ∷ b'o' ∷ b'u' ∷ b'n' ∷ b'd' ∷ []

-- "CS537 Server could not find this file"
abbrev pub not_found_long : CString
not_found_long =
    b'C' ∷ b'S' ∷ b'5' ∷ b'3' ∷ b'7' ∷ b' ' ∷ b'S' ∷ b'e' ∷ b'r' ∷ b'v' ∷ b'e' ∷ b'r' ∷ b' ' ∷ b'c'
    ∷ b'o' ∷ b'u' ∷ b'l' ∷ b'd' ∷ b' ' ∷ b'n' ∷ b'o' ∷ b't' ∷ b' ' ∷ b'f' ∷ b'i' ∷ b'n' ∷ b'd'
    ∷ b' ' ∷ b't' ∷ b'h' ∷ b'i' ∷ b's' ∷ b' ' ∷ b'f' ∷ b'i' ∷ b'l' ∷ b'e' ∷ []

-- "403"
abbrev pub forbidden_num : CString
forbidden_num = b'4' ∷ b'0' ∷ b'3' ∷ []

-- "Forbidden"
abbrev pub forbidden_short : CString
forbidden_short = b'F' ∷ b'o' ∷ b'r' ∷ b'b' ∷ b'i' ∷ b'd' ∷ b'd' ∷ b'e' ∷ b'n' ∷ []

-- "CS537 Server could not read this file"
abbrev pub read_long : CString
read_long =
    b'C' ∷ b'S' ∷ b'5' ∷ b'3' ∷ b'7' ∷ b' ' ∷ b'S' ∷ b'e' ∷ b'r' ∷ b'v' ∷ b'e' ∷ b'r' ∷ b' ' ∷ b'c'
    ∷ b'o' ∷ b'u' ∷ b'l' ∷ b'd' ∷ b' ' ∷ b'n' ∷ b'o' ∷ b't' ∷ b' ' ∷ b'r' ∷ b'e' ∷ b'a' ∷ b'd'
    ∷ b' ' ∷ b't' ∷ b'h' ∷ b'i' ∷ b's' ∷ b' ' ∷ b'f' ∷ b'i' ∷ b'l' ∷ b'e' ∷ []

-- "CS537 Server could not run this CGI program"
abbrev pub run_long : CString
run_long =
    b'C' ∷ b'S' ∷ b'5' ∷ b'3' ∷ b'7' ∷ b' ' ∷ b'S' ∷ b'e' ∷ b'r' ∷ b'v' ∷ b'e' ∷ b'r' ∷ b' ' ∷ b'c'
    ∷ b'o' ∷ b'u' ∷ b'l' ∷ b'd' ∷ b' ' ∷ b'n' ∷ b'o' ∷ b't' ∷ b' ' ∷ b'r' ∷ b'u' ∷ b'n' ∷ b' '
    ∷ b't' ∷ b'h' ∷ b'i' ∷ b's' ∷ b' ' ∷ b'C' ∷ b'G' ∷ b'I' ∷ b' ' ∷ b'p' ∷ b'r' ∷ b'o' ∷ b'g'
    ∷ b'r' ∷ b'a' ∷ b'm' ∷ []
