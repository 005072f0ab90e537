-- ===== src/Request/Serve.antt =====
-- p5/request.c: how a worker replies to a request. What `sprintf` does where it reads the array that it
-- writes, which C leaves undefined, is the parameter `print_on` with the `%d` of `decimal`.
mod Texts
use sp.Base.{
  ℕ, zero, suc, ◌+◌, ◌-◌, ◌*◌, ◌/◌, Bool, true, false, Option, none, some, List, [], ◌∷◌, ◌++◌,
  length, ℤ, pos, pos_part, sub_ℕ, ◌+ℤ◌, ◌-ℤ◌, eqb_ℤ, ltb_ℤ, if◌then◌else◌, Outcome, ok, exit,
  ◌>>=◌, ◌>>◌, Array, load, CString,
}
use sp.Rio.{Write, rio_writen_or_exit}
use sp.Request.{FileType, text_html, image_gif, image_jpeg, test_plain, get_filetype, fits}
use sp.Server.Queue.{Time}
use sp.Server.Workers.{Job}
use sp.Request.Serve.Texts

-- `print_on` is what `sprintf (buf, "%s...", buf)` makes of the string in `buf` and the text behind it.
pub record Printing : Type 0 where
  pub print_on : CString → CString → Outcome CString
  pub decimal : ℤ → CString

-- `open` succeeds, and `mmap` maps so many bytes of a file.
pub record Files : Type 0 where
  pub can_open : CString → Bool
  pub mmap : CString → ℤ → Option (Array ℕ)

pub record Usage : Type 0 where
  pub thread_id : Array ℕ
  pub thread_count : Array ℕ
  pub thread_static : Array ℕ
  pub thread_dynamic : Array ℕ

-- The usage statistics of a worker.
pub record Counts : Type 0 where
  pub id : ℕ
  pub count : ℕ
  pub statics : ℕ
  pub dynamics : ℕ

unfoldable pub load_counts : Usage → ℕ → Outcome Counts
load_counts u i = do
  id ← load u.thread_id i
  count ← load u.thread_count i
  statics ← load u.thread_static i
  dynamics ← load u.thread_dynamic i
  ok (record { id = id; count = count; statics = statics; dynamics = dynamics })

abbrev pub stat_line : Printing → CString → ℤ → CString
stat_line p name value = name ++ p.decimal value ++ Texts.crlf

abbrev pub count_lines : Printing → Counts → List CString
count_lines p n =
    stat_line p Texts.thread_id (pos n.id)
    ∷ stat_line p Texts.thread_count (pos n.count)
    ∷ stat_line p Texts.thread_static (pos n.statics)
    ∷ stat_line p Texts.thread_dynamic (pos n.dynamics)
    ∷ []

-- One `sprintf` for each line.
unfoldable pub print_lines : Printing → CString → List CString → Outcome CString
print_lines p buf [] = ok buf
print_lines p buf (line ∷ lines) = do
  longer ← p.print_on buf line
  fit ← fits longer
  print_lines p fit lines

-- The string as the bytes of an array.
abbrev pub cells : CString → Array ℕ
cells [] i = none
cells (c ∷ s) zero = some c
cells (c ∷ s) (suc i) = cells s i

-- `Rio_writen (fd, buf, strlen (buf))`
abbrev pub write_string : List Write → CString → Outcome (List ℕ)
write_string ws s = rio_writen_or_exit ws (cells s) (length s)

abbrev pub dynamic_lines : Printing → Counts → List CString
dynamic_lines p n =
    Texts.dynamic_server
    ∷ stat_line p Texts.arrival (pos 0)
    ∷ stat_line p Texts.dispatch (pos 0)
    ∷ count_lines p n

-- The process after the reply to a dynamic request: the parent, or the child as another program with its
-- query, whose output goes to the connection. `sent` is what was written before.
pub data Replied : Type 0 where
  parent : (sent : List ℕ) → Replied
  program : (sent : List ℕ) → (filename : CString) → (query : CString) → (stdout : ℤ) → Replied

-- `Fork`, `Execve` and the others end the process with status 0 where the call fails; `forked` is what
-- `fork` returns, and `executes` says whether `execve` succeeds.
unfoldable pub run_program : ℤ → Bool → List ℕ → ℤ → CString → CString → Outcome Replied
run_program forked executes sent fd filename cgiargs =
    if ltb_ℤ forked (pos 0)
    then exit 0
    else (if eqb_ℤ forked (pos 0)
        then (if executes then ok (program sent filename cgiargs fd) else exit 0)
        else ok (parent sent))

unfoldable pub serve_dynamic :
    Printing → Usage → ℤ → Bool → List Write → ℕ → ℤ → CString → CString → Outcome Replied
unfolding load_counts print_lines rio_writen_or_exit run_program
serve_dynamic p u forked executes ws th_index fd filename cgiargs = do
  n ← load_counts u th_index
  buf ← print_lines p Texts.status (dynamic_lines p n)
  sent ← write_string ws buf
  run_program forked executes sent fd filename cgiargs

abbrev pub filetype_name : FileType → CString
filetype_name text_html = Texts.html_name
filetype_name image_gif = Texts.gif_name
filetype_name image_jpeg = Texts.jpeg_name
filetype_name test_plain = Texts.plain_name

-- The loop that touches the bytes from `i` on.
unfoldable pub touch_loop : Array ℕ → ℕ → ℕ → Outcome (Unit {0})
touch_loop srcp i zero = ok tt
touch_loop srcp i (suc n) = load srcp i >>= λ x. touch_loop srcp (suc i) n

-- `stat_req_read`; a quotient of C rounds to 0.
unfoldable pub req_read : Time → Time → ℤ
req_read before after =
    sub_ℕ ((after.tv_sec - before.tv_sec) / 1000) ((before.tv_sec - after.tv_sec) / 1000)
    +ℤ sub_ℕ (after.tv_usec * 1000) (before.tv_usec * 1000)

unfoldable pub req_complete : Time → Job → ℤ
req_complete t job = sub_ℕ (t.tv_sec / 1000 + t.tv_usec * 1000) job.request.stat_req_arrival

-- The times at which `gettimeofday` is called.
pub record Times : Type 0 where
  pub before : Time
  pub after : Time
  pub complete : Time

abbrev pub static_lines : Printing → Counts → Times → Job → List CString
static_lines p n t job =
    Texts.static_server
      ∷ stat_line p Texts.arrival (pos job.request.stat_req_arrival)
      ∷ stat_line p Texts.dispatch job.stat_req_dispatch
      ∷ stat_line p Texts.reading (req_read t.before t.after)
      ∷ stat_line p Texts.complete (req_complete t.complete job)
      ∷ stat_line p Texts.age (sub_ℕ job.stat_req_death job.request.stat_req_birth)
      ∷ count_lines p n
    ++ stat_line p Texts.content_length job.request.st_size
      ∷ (Texts.content_type
          ++ filetype_name (get_filetype job.request.filename)
          ++ Texts.crlf
          ++ Texts.crlf)
      ∷ []

-- `Open` and `Mmap`
unfoldable pub map_file : Files → CString → ℤ → Outcome (Array ℕ)
map_file f filename filesize =
    if f.can_open filename
    then elim (f.mmap filename filesize) [ none ↦ exit 0 | some srcp ↦ ok srcp ]
    else exit 0

-- `requestServeStatic`; `head_writes` and `body_writes` are the answers to `write` for the header and the file.
unfoldable pub serve_static :
    Printing → Files → Usage → Times → List Write → List Write → ℕ → Job → Outcome (List ℕ)
unfolding map_file touch_loop load_counts print_lines rio_writen_or_exit
serve_static p f u t head_writes body_writes th_index job = do
  srcp ← map_file f job.request.filename job.request.st_size
  _ ← touch_loop srcp 0 (pos_part job.request.st_size)
  n ← load_counts u th_index
  buf ← print_lines p Texts.status (static_lines p n t job)
  head ← write_string head_writes buf
  body ← rio_writen_or_exit body_writes srcp (pos_part job.request.st_size)
  ok (head ++ body)
