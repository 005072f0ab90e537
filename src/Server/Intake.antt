-- ===== src/Server/Intake.antt =====
-- p5/server.c and p5/request.c: a connection is accepted, its request read and preprocessed, and queued.
use sp.Base.{
  ℕ, ◌+◌, ◌<◌, ◌%◌, ◌^◌, pos, lt→ltb, arith, ◌≡◌, ◌∙◌, refl, ap, true, false, Option, none, some,
  List, [], ◌∷◌, ◌++◌, length, ℤ, Outcome, ok, ◌>>=◌, CString,
}
use sp.Shell.Parser.Tokens.{tokens}
use sp.Rio.{Read}
use sp.Request.{
  max_line, spaces, cgi, contains, get, same_word, parse_uri, Target, Stat, Stack, check_found,
  check_target, not_found, to_int,
}
use sp.Request.Uri.{static_name, parse_uri-static}
use sp.Request.Whole.{Sends, HasRoom, pre_process_answer_lem}
use sp.Request.Serve.{Printing}
use sp.Request.Error.{PageWrites, problem_of, request_error}
use sp.Request.Preprocess.{send_answer, request_pre_process}
use sp.Server.Queue.{Request, Waiting, Settings, Time, new_request, queue_push}
use sp.Server.Queue.Chain.{Entry, Avoids, IsQueue, arranged}
use sp.Server.Queue.Push.{queue_push_lem}

-- A client sends a GET request for the URI.
pub record Gets (source : List Read) (st : Stack) (k : ℕ) (uri : CString) : Type 0 where
  pub line : CString
  pub headers : List CString
  pub behind : List ℕ
  pub method : CString
  pub others : List CString
  pub sends : Sends source line headers behind
  pub room : HasRoom st
  pub rounds : length headers < k
  pub words : tokens spaces line ≡ method ∷ uri ∷ others
  pub is_get : same_word method get ≡ true

request_pre_process_lem :
    (p : Printing) (ws : PageWrites) (k : ℕ) (stat : CString → Option Stat) (st : Stack)
    (source : List Read) (node : Request) (uri : CString) (target : Target)
    → Gets source st k uri
    → parse_uri uri ≡ ok target
    → request_pre_process p ws k stat st source node
      ≡ send_answer p ws (check_target stat target node).0 (check_target stat target node).1
unfolding request_pre_process
request_pre_process_lem p ws k stat st source node uri target g parses =
    ap (λ o. o >>= λ r. send_answer p ws r.0 r.1)
      (pre_process_answer_lem k stat st source node g.line g.headers g.behind g.method uri g.others
        target g.sends g.room g.rounds g.words g.is_get parses)

to_int_small : (z : ℤ) (n : ℕ) → z ≡ pos n → n < 2 ^ 31 → to_int z ≡ pos n
unfolding to_int
to_int_small z n e lt =
    let whole : n % 2 ^ 32 ≡ n = omega arith in rw (e, whole, lt→ltb n (2 ^ 31) lt) refl

-- The queue is ready for a node at `a`.
pub record Accepts (n a : ℕ) (c : Settings) (q : Waiting) (s : Entry) (es : List Entry)
    : Type 0 where
  pub queue : IsQueue q s es
  pub fresh : Avoids a (s ∷ es)
  pub rounds : length es < n
  pub batch : c.sched_alg_code ≡ 2 → 0 < c.sff_bs_value

-- The run ends with a queue to which the node was added by the code of the policy.
abbrev pub Queued : Settings → Entry → List Entry → Entry → Outcome Waiting → Type 0
Queued c s es new r =
    (after : Waiting) × (r ≡ ok after) × IsQueue after s (arranged c.sched_alg_code c new es)

module _ (p : Printing) (ws : PageWrites) (n k a : ℕ) (stat : CString → Option Stat) (st : Stack)
    (source : List Read) (r : Request) (t : Time) (c : Settings) (q : Waiting) (fd : ℤ) (s : Entry)
    (es : List Entry) (dir : CString) (last : ℕ) where
  -- Where the queue in the heap holds a sequence of requests, with a new node at an address without
  -- one, a round for each waiting request and one more, and a positive batch size under SFF-BS; and
  -- a client sends a line of less than 8192 bytes, none of them zero, that ends in its only newline
  -- and whose first two words are GET, in any case, and a URI without `cgi` that is not empty and
  -- has less than 8182 bytes, then header lines and the empty line; with room in the arrays of
  -- `requestPreProcess` and more rounds than header lines; and `stat` finds a regular file of less
  -- than 2^31 bytes that its owner may read, at a dot and the URI, with `home.html` after a slash
  -- at the end: `queue_push` with `requestPreProcess` ends, and the queue holds the sequence with
  -- the request put in as for any request (`queue_push_lem`), marked as static, with that file name
  -- and the size that `stat` found.
  pub static-Queued :
      (sbuf : Stat) (bytes : ℕ)
      → Accepts n a c q s es
      → Gets source st k (dir ++ last ∷ [])
      → contains (dir ++ last ∷ []) cgi ≡ false
      → length dir + 11 < max_line
      → stat (static_name dir last) ≡ some sbuf
      → sbuf.is_regular ≡ true
      → sbuf.can_read ≡ true
      → sbuf.size ≡ pos bytes
      → bytes < 2 ^ 31
      → Queued c s es
          (record {
            addr = a;
            request = record (new_request c t fd r) {
              is_static = true;
              filename = static_name dir last;
              st_size = pos bytes;
            };
          })
          (queue_push n (request_pre_process p ws k stat st source) (some (a, r)) t c q fd)
  static-Queued sbuf bytes ready g static short found regular readable size small =
      let node = new_request c t fd r in
      let target : Target = record {
        is_static = true;
        filename = static_name dir last;
        cgiargs = [];
      } in
      let file : Request = record node {
        is_static = true;
        filename = static_name dir last;
        st_size = pos bytes;
      } in
      let served : send_answer p ws (check_target stat target node).0
            (check_target stat target node).1
          ≡ ok file =
        unfold check_target check_found send_answer in
        rw (found, regular, readable, to_int_small sbuf.size bytes size small) refl in
      queue_push_lem n (request_pre_process p ws k stat st source) a r t c q fd s es _ ready.queue
        (request_pre_process_lem p ws k stat st source node (dir ++ last ∷ []) target g
            (parse_uri-static dir last static short)
          ∙ served)
        ready.fresh ready.rounds ready.batch

  -- Where the queue in the heap holds a sequence of requests, with a new node at an address without
  -- one, a round for each waiting request and one more, and a positive batch size under SFF-BS; and
  -- a client sends a line of less than 8192 bytes, none of them zero, that ends in its only newline
  -- and whose first two words are GET, in any case, and a URI without `cgi` that is not empty and
  -- has less than 8182 bytes, then header lines and the empty line; with room in the arrays of
  -- `requestPreProcess` and more rounds than header lines; and `stat` finds no file at a dot and
  -- the URI, with `home.html` after a slash at the end; and `requestError` returns for that name:
  -- `queue_push` with `requestPreProcess` ends, and the queue nevertheless holds the sequence with
  -- the request put in as for any request (`queue_push_lem`), its file name as `malloc` left it.
  pub missing-Queued :
      Accepts n a c q s es
      → Gets source st k (dir ++ last ∷ [])
      → contains (dir ++ last ∷ []) cgi ≡ false
      → length dir + 11 < max_line
      → stat (static_name dir last) ≡ none
      → (sent : List ℕ)
      → request_error p ws (problem_of (not_found (static_name dir last))) ≡ ok sent
      → Queued c s es
          (record { addr = a; request = new_request c t fd r })
          (queue_push n (request_pre_process p ws k stat st source) (some (a, r)) t c q fd)
  missing-Queued ready g static short missing sent answers =
      let node = new_request c t fd r in
      let target : Target = record {
        is_static = true;
        filename = static_name dir last;
        cgiargs = [];
      } in
      let refused : send_answer p ws (check_target stat target node).0
            (check_target stat target node).1
          ≡ ok node =
        unfold check_target check_found send_answer in rw (missing, answers) refl in
      queue_push_lem n (request_pre_process p ws k stat st source) a r t c q fd s es node
        ready.queue
        (request_pre_process_lem p ws k stat st source node (dir ++ last ∷ []) target g
            (parse_uri-static dir last static short)
          ∙ refused)
        ready.fresh ready.rounds ready.batch
