-- ===== src/Request/Serve/Texts.antt =====
-- p5/request.c: the texts of a reply.
use sp.Base.{[], ◌∷◌, CString}

-- "HTTP/1.0 200 OK"
abbrev pub status : CString
status =
    b'H' ∷ b'T' ∷ b'T' ∷ b'P' ∷ b'/' ∷ b'1' ∷ b'.' ∷ b'0' ∷ b' ' ∷ b'2' ∷ b'0' ∷ b'0' ∷ b' ' ∷ b'O'
    ∷ b'K' ∷ b'\r' ∷ b'\n' ∷ []

-- "Server: CS537 Web Server"
abbrev pub static_server : CString
static_server =
    b' ' ∷ b'S' ∷ b'e' ∷ b'r' ∷ b'v' ∷ b'e' ∷ b'r' ∷ b':' ∷ b' ' ∷ b'C' ∷ b'S' ∷ b'5' ∷ b'3' ∷ b'7'
    ∷ b' ' ∷ b'W' ∷ b'e' ∷ b'b' ∷ b' ' ∷ b'S' ∷ b'e' ∷ b'r' ∷ b'v' ∷ b'e' ∷ b'r' ∷ b'\r' ∷ b'\n'
    ∷ []

-- "Server: Tiny Web Server"
abbrev pub dynamic_server : CString
dynamic_server =
    b' ' ∷ b'S' ∷ b'e' ∷ b'r' ∷ b'v' ∷ b'e' ∷ b'r' ∷ b':' ∷ b' ' ∷ b'T' ∷ b'i' ∷ b'n' ∷ b'y' ∷ b' '
    ∷ b'W' ∷ b'e' ∷ b'b' ∷ b' ' ∷ b'S' ∷ b'e' ∷ b'r' ∷ b'v' ∷ b'e' ∷ b'r' ∷ b'\r' ∷ b'\n' ∷ []

-- "Stat-req-arrival:"
abbrev pub arrival : CString
arrival =
    b' ' ∷ b'S' ∷ b't' ∷ b'a' ∷ b't' ∷ b'-' ∷ b'r' ∷ b'e' ∷ b'q' ∷ b'-' ∷ b'a' ∷ b'r' ∷ b'r' ∷ b'i'
    ∷ b'v' ∷ b'a' ∷ b'l' ∷ b':' ∷ b' ' ∷ []

-- "Stat-req-dispatch:"
abbrev pub dispatch : CString
dispatch =
    b' ' ∷ b'S' ∷ b't' ∷ b'a' ∷ b't' ∷ b'-' ∷ b'r' ∷ b'e' ∷ b'q' ∷ b'-' ∷ b'd' ∷ b'i' ∷ b's' ∷ b'p'
    ∷ b'a' ∷ b't' ∷ b'c' ∷ b'h' ∷ b':' ∷ b' ' ∷ []

-- "Stat-req-read:"
abbrev pub reading : CString
reading =
    b' ' ∷ b'S' ∷ b't' ∷ b'a' ∷ b't' ∷ b'-' ∷ b'r' ∷ b'e' ∷ b'q' ∷ b'-' ∷ b'r' ∷ b'e' ∷ b'a' ∷ b'd'
    ∷ b':' ∷ b' ' ∷ []

-- "Stat-req-complete:"
abbrev pub complete : CString
complete =
    b' ' ∷ b'S' ∷ b't' ∷ b'a' ∷ b't' ∷ b'-' ∷ b'r' ∷ b'e' ∷ b'q' ∷ b'-' ∷ b'c' ∷ b'o' ∷ b'm' ∷ b'p'
    ∷ b'l' ∷ b'e' ∷ b't' ∷ b'e' ∷ b':' ∷ b' ' ∷ []

-- "Stat-req-age:"
abbrev pub age : CString
age =
    b' ' ∷ b'S' ∷ b't' ∷ b'a' ∷ b't' ∷ b'-' ∷ b'r' ∷ b'e' ∷ b'q' ∷ b'-' ∷ b'a' ∷ b'g' ∷ b'e' ∷ b':'
    ∷ b' ' ∷ []

-- "Stat-thread-id:"
abbrev pub thread_id : CString
thread_id =
    b' ' ∷ b'S' ∷ b't' ∷ b'a' ∷ b't' ∷ b'-' ∷ b't' ∷ b'h' ∷ b'r' ∷ b'e' ∷ b'a' ∷ b'd' ∷ b'-' ∷ b'i'
    ∷ b'd' ∷ b':' ∷ b' ' ∷ []

-- "Stat-thread-count:"
abbrev pub thread_count : CString
thread_count =
    b' ' ∷ b'S' ∷ b't' ∷ b'a' ∷ b't' ∷ b'-' ∷ b't' ∷ b'h' ∷ b'r' ∷ b'e' ∷ b'a' ∷ b'd' ∷ b'-' ∷ b'c'
    ∷ b'o' ∷ b'u' ∷ b'n' ∷ b't' ∷ b':' ∷ b' ' ∷ []

-- "Stat-thread-static:"
abbrev pub thread_static : CString
thread_static =
    b' ' ∷ b'S' ∷ b't' ∷ b'a' ∷ b't' ∷ b'-' ∷ b't' ∷ b'h' ∷ b'r' ∷ b'e' ∷ b'a' ∷ b'd' ∷ b'-' ∷ b's'
    ∷ b't' ∷ b'a' ∷ b't' ∷ b'i' ∷ b'c' ∷ b':' ∷ b' ' ∷ []

-- "Stat-thread-dynamic:"
abbrev pub thread_dynamic : CString
thread_dynamic =
    b' ' ∷ b'S' ∷ b't' ∷ b'a' ∷ b't' ∷ b'-' ∷ b't' ∷ b'h' ∷ b'r' ∷ b'e' ∷ b'a' ∷ b'd' ∷ b'-' ∷ b'd'
    ∷ b'y' ∷ b'n' ∷ b'a' ∷ b'm' ∷ b'i' ∷ b'c' ∷ b':' ∷ b' ' ∷ []

-- "Content-Length:"
abbrev pub content_length : CString
content_length =
    b' ' ∷ b'C' ∷ b'o' ∷ b'n' ∷ b't' ∷ b'e' ∷ b'n' ∷ b't' ∷ b'-' ∷ b'L' ∷ b'e' ∷ b'n' ∷ b'g' ∷ b't'
    ∷ b'h' ∷ b':' ∷ b' ' ∷ []

-- "Content-Type:"
abbrev pub content_type : CString
content_type =
    b' ' ∷ b'C' ∷ b'o' ∷ b'n' ∷ b't' ∷ b'e' ∷ b'n' ∷ b't' ∷ b'-' ∷ b'T' ∷ b'y' ∷ b'p' ∷ b'e' ∷ b':'
    ∷ b' ' ∷ []

abbrev pub crlf : CString
crlf = b'\r' ∷ b'\n' ∷ []

abbrev pub html_name : CString
html_name = b't' ∷ b'e' ∷ b'x' ∷ b't' ∷ b'/' ∷ b'h' ∷ b't' ∷ b'm' ∷ b'l' ∷ []

abbrev pub gif_name : CString
gif_name = b'i' ∷ b'm' ∷ b'a' ∷ b'g' ∷ b'e' ∷ b'/' ∷ b'g' ∷ b'i' ∷ b'f' ∷ []

abbrev pub jpeg_name : CString
jpeg_name = b'i' ∷ b'm' ∷ b'a' ∷ b'g' ∷ b'e' ∷ b'/' ∷ b'j' ∷ b'p' ∷ b'e' ∷ b'g' ∷ []

abbrev pub plain_name : CString
plain_name = b't' ∷ b'e' ∷ b's' ∷ b't' ∷ b'/' ∷ b'p' ∷ b'l' ∷ b'a' ∷ b'i' ∷ b'n' ∷ []
