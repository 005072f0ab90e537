-- ===== src/Server/Examples.antt =====
-- p5/server.c: the theorems at concrete inputs.
use sp.Base.{
  CString, has_byte, strstr, is_prefix, ◌++◌, calloc, Room-calloc, false, ℕ, ◌+◌, ◌≡◌, refl, true,
  Option, none, some, List, [], ◌∷◌, arith, pos, Outcome, ok, exit, hang, fault, Array, update,
}
use sp.Server.Queue.{
  Request, Cell, Heap, Waiting, Settings, Time, new_request, queue_push, queue_peek, queue_pop,
}
use sp.Server.Queue.Chain.{Entry, IsQueue, arranged, insert_by_size}
use sp.Server.Queue.Push.{queue_push_lem}
use sp.Server.Queue.Pop.{queue_pop_lem}
use sp.Server.Workers.{Threads, idle, admit, begin, run_all}
use sp.Server.Workers.Race.{HasCells, workers_race}
use sp.Rio.{Read, got, wrote, rio_writen_or_exit}
use sp.Request.{not_found, Stack, Stat, contains, same_word}
use sp.Shell.Parser.Tokens.{split}
use sp.Request.Serve.{Printing}
use sp.Request.Error.{Problem, problem_of, PageWrites, request_error}
use sp.Request.Preprocess.{request_pre_process}
use sp.Server.Intake.{Gets, Accepts, Queued, static-Queued, missing-Queued}
use sp.Server.Start.{sff, start_server}
use sp.Server.Start.Ready.{StartedFor, start_server_lem}
use sp.Server.Queue.Smallest.{BySize, queue_push-BySize}

abbrev sized : ℕ → Request
sized n = record {
  val = pos n;
  is_static = true;
  filename = [];
  cgiargs = [];
  st_size = pos n;
  stat_req_arrival = 0;
  stat_req_birth = 0;
}

-- The size of the file that a descriptor asks for is the descriptor.
abbrev sizing : Request → Outcome Request
sizing r = ok (record r { st_size = r.val })

abbrev sentinel : Entry
sentinel = record { addr = 100; request = sized 0 }

abbrev entry : ℕ → Entry
entry n = record { addr = 100 + n; request = sized n }

abbrev cell : ℕ → Option ℕ → Cell
cell n next = record { request = sized n; next = next }

abbrev nothing : Heap
nothing a = none

-- Requests of sizes 2 and 7.
abbrev two_requests : Waiting
two_requests = record {
  heap =
      update (update (update nothing 107 (cell 7 none)) 102 (cell 2 (some 107))) 100
        (cell 0 (some 102));
  head = 100;
  tail = 107;
}

two_requests-IsQueue : IsQueue two_requests sentinel (entry 2 ∷ entry 7 ∷ [])
two_requests-IsQueue = record {
  starts = refl;
  ends = refl;
  linked = (refl, (refl, (refl, tt)));
  distinct = ((omega arith, (omega arith, tt)), ((omega arith, tt), (tt, tt)));
}

abbrev midnight : Time
midnight = record { tv_sec = 0; tv_usec = 0 }

-- SFF-BS with batches of three, one of which has been served: the new request may pass one other.
abbrev batches : Settings
batches = record { sched_alg_code = 2; buffer_head_hist = 1; sff_bs_value = 3 }

abbrev smallest : Settings
smallest = record { sched_alg_code = 1; buffer_head_hist = 0; sff_bs_value = 0 }

abbrev fifth : Settings → Entry
fifth c = record {
  addr = 105;
  request = record (new_request c midnight (pos 5) (sized 0)) { st_size = pos 5 };
}

queue_push_lem_example :
    (after : Waiting) × (queue_push 3 sizing
        (some (105, sized 0))
        midnight
        batches
        two_requests
        (pos 5)
      ≡ ok after)
    × IsQueue after sentinel (arranged 2 batches (fifth batches) (entry 2 ∷ entry 7 ∷ []))
unfolding new_request
queue_push_lem_example =
    queue_push_lem 3 sizing 105 (sized 0) midnight batches two_requests (pos 5) sentinel
      (entry 2 ∷ entry 7 ∷ []) (fifth batches).request two_requests-IsQueue refl
      (omega arith, (omega arith, (omega arith, tt))) (omega arith) (λ two. omega arith)

queue_push-BySize_example :
    (after : Waiting) × (queue_push 3 sizing
        (some (105, sized 0))
        midnight
        smallest
        two_requests
        (pos 5)
      ≡ ok after)
    × IsQueue after sentinel (insert_by_size (fifth smallest) (entry 2 ∷ entry 7 ∷ []))
    × BySize (insert_by_size (fifth smallest) (entry 2 ∷ entry 7 ∷ []))
unfolding new_request
queue_push-BySize_example =
    queue_push-BySize 3 sizing 105 (sized 0) midnight smallest two_requests (pos 5) sentinel
      (entry 2 ∷ entry 7 ∷ []) (fifth smallest).request two_requests-IsQueue ((refl, tt), (tt, tt))
      refl (omega arith, (omega arith, (omega arith, tt))) (omega arith) refl

queue_pop_lem_example :
    (queue_peek two_requests ≡ ok (sized 2))
    × ((after : Waiting) × (queue_pop two_requests ≡ ok after)
        × IsQueue after sentinel (entry 7 ∷ []))
queue_pop_lem_example =
    queue_pop_lem two_requests sentinel (entry 2) (entry 7 ∷ []) two_requests-IsQueue

-- A queue with one request.
abbrev one_request : Waiting
one_request = record {
  heap = update (update nothing 107 (cell 7 none)) 100 (cell 0 (some 107));
  head = 100;
  tail = 107;
}

one_request-IsQueue : IsQueue one_request sentinel (entry 7 ∷ [])
one_request-IsQueue = record {
  starts = refl;
  ends = refl;
  linked = (refl, (refl, tt));
  distinct = ((omega arith, tt), (tt, tt));
}

abbrev counts : Array ℕ
counts a = some 0

abbrev start : Threads
start = record {
  state = record {
    waiting = one_request;
    work_num = pos 0;
    wait_num = pos 1;
    head_hist = 0;
    thread_count = counts;
    thread_static = counts;
    thread_dynamic = counts;
  };
  stages = λ i. idle;
}

start-HasCells : (i : ℕ) → HasCells start.state i
start-HasCells i = record { count = (0, refl); statics = (0, refl); dynamics = (0, refl) }

workers_race_example :
    run_all (admit 0 ∷ admit 1 ∷ begin 0 midnight ∷ begin 1 midnight ∷ []) start ≡ fault
workers_race_example =
    workers_race 0 1 midnight midnight start sentinel (entry 7) (omega arith) refl refl
      one_request-IsQueue refl refl (start-HasCells 0)

-- "GET /a v", and the empty line.
abbrev request_line : CString
request_line = b'G' ∷ b'E' ∷ b'T' ∷ b' ' ∷ b'/' ∷ b'a' ∷ b' ' ∷ b'v' ∷ b'\n' ∷ []

abbrev client : List Read
client = got (request_line ++ b'\r' ∷ b'\n' ∷ []) ∷ got [] ∷ []

abbrev stack : Stack
stack = record {
  rio_buf = calloc 8192 0;
  line = calloc 8192 0;
  header = calloc 8192 0;
  method = [];
  uri = [];
}

client-Gets : Gets client stack 1 (b'/' ∷ b'a' ∷ [])
unfolding split has_byte same_word
client-Gets = record {
  line = request_line;
  headers = [];
  behind = [];
  method = b'G' ∷ b'E' ∷ b'T' ∷ [];
  others = (b'v' ∷ []) ∷ [];
  sends = record {
    stream = ([], refl, omega arith, refl);
    is_line = ground arith;
    short = omega arith;
    no_zero = ground arith;
    are_headers = tt;
  };
  room = record {
    rio_buf = Room-calloc 8192 0 8192 0 (omega arith);
    line = Room-calloc 8192 0 8192 0 (omega arith);
    header = Room-calloc 8192 0 8192 0 (omega arith);
  };
  rounds = omega arith;
  words = refl;
  is_get = refl;
}

abbrev page_stat : Stat
page_stat = record { is_regular = true; can_read = true; can_execute = false; size = pos 5 }

two_requests-Accepts : Accepts 3 105 smallest two_requests sentinel (entry 2 ∷ entry 7 ∷ [])
two_requests-Accepts = record {
  queue = two_requests-IsQueue;
  fresh = (omega arith, (omega arith, (omega arith, tt)));
  rounds = omega arith;
  batch = λ two. omega arith;
}

-- `sprintf` as it behaves where it copies from left to right, and digits of no number.
abbrev appending : Printing
appending = record { print_on = λ b l. ok (b ++ l); decimal = λ z. b'0' ∷ [] }

abbrev missing : Problem
missing = problem_of (not_found (b'.' ∷ b'/' ∷ b'a' ∷ []))

-- The calls of `write` take up each part of the page at once.
abbrev page_writes : PageWrites
page_writes = record {
  status = wrote 24 ∷ [];
  kind = wrote 25 ∷ [];
  size = wrote 21 ∷ [];
  body = wrote 139 ∷ [];
}

abbrev bytes_of : Outcome (List ℕ) → List ℕ
bytes_of (ok bytes) = bytes
bytes_of (exit code) = []
bytes_of fault = []
bytes_of hang = []

abbrev page : List ℕ
page = bytes_of (request_error appending page_writes missing)

page-Sent : request_error appending page_writes missing ≡ ok page
unfolding request_error problem_of rio_writen_or_exit
page-Sent = refl

static-Queued_example :
    Queued smallest sentinel
      (entry 2 ∷ entry 7 ∷ [])
      (record {
        addr = 105;
        request = record (new_request smallest midnight (pos 5) (sized 0)) {
          is_static = true;
          filename = b'.' ∷ b'/' ∷ b'a' ∷ [];
          st_size = pos 5;
        };
      })
      (queue_push 3
        (request_pre_process appending page_writes 1 (λ name. some page_stat) stack client)
        (some (105, sized 0))
        midnight
        smallest
        two_requests
        (pos 5))
unfolding contains strstr is_prefix
static-Queued_example =
    static-Queued appending page_writes 3 1 105 (λ name. some page_stat) stack client (sized 0)
      midnight smallest two_requests (pos 5) sentinel (entry 2 ∷ entry 7 ∷ []) (b'/' ∷ []) b'a'
      page_stat 5 two_requests-Accepts client-Gets refl (omega arith) refl refl refl refl
      (omega arith)

missing-Queued_example :
    Queued smallest sentinel
      (entry 2 ∷ entry 7 ∷ [])
      (record { addr = 105; request = new_request smallest midnight (pos 5) (sized 0) })
      (queue_push 3
        (request_pre_process appending page_writes 1 (λ name. none) stack client)
        (some (105, sized 0))
        midnight
        smallest
        two_requests
        (pos 5))
unfolding contains strstr is_prefix
missing-Queued_example =
    missing-Queued appending page_writes 3 1 105 (λ name. none) stack client (sized 0) midnight
      smallest two_requests (pos 5) sentinel (entry 2 ∷ entry 7 ∷ []) (b'/' ∷ []) b'a'
      two_requests-Accepts client-Gets refl (omega arith) refl page page-Sent

-- Two threads, two buffers, and SFF.
start_server_lem_example :
    StartedFor 1 100
      (sized 0)
      (λ s. pos 2)
      []
      []
      []
      sff
      []
      (start_server
        (λ s. pos 2)
        (λ j. true)
        (λ j. true)
        (some (100, sized 0))
        (λ a. none)
        ([] ∷ [] ∷ [] ∷ sff ∷ []))
start_server_lem_example =
    start_server_lem (λ s. pos 2) (λ j. true) (λ j. true) 100 (sized 0) (λ a. none) [] [] [] sff []
      2 1 refl (omega arith) (omega arith) (λ j. refl) (λ j lt. refl)
