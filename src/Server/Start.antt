-- ===== src/Server/Start.antt =====
-- p5/server.c: the arguments of the server, and its pool of threads. `atoi`, `malloc`, `calloc` and
-- `pthread_create` are parameters.
pub mod Ready
use sp.Base.{
  ℕ, zero, suc, Bool, true, false, Option, none, some, List, [], ◌∷◌, ◌+◌, if◌then◌else◌, ℤ, pos,
  pos_part, Outcome, ok, exit, fault, ◌>>=◌, Array, calloc, store, CString, same_string,
}
use sp.Request.{fits}
use sp.Server.Queue.{Request, Heap, Waiting, queue_init}
use sp.Server.Workers.{Threads, idle}

abbrev pub fifo : CString
fifo = b'F' ∷ b'I' ∷ b'F' ∷ b'O' ∷ []

abbrev pub sff : CString
sff = b'S' ∷ b'F' ∷ b'F' ∷ []

abbrev pub sff_bs : CString
sff_bs = b'S' ∷ b'F' ∷ b'F' ∷ b'-' ∷ b'B' ∷ b'S' ∷ []

pub record Args : Type 0 where
  pub port : ℤ
  pub threads : ℤ
  pub buffers : ℤ
  pub sched_alg_code : ℕ
  pub sff_bs_value : ℤ

-- The code of a policy; another name leaves the code as it was.
unfoldable pub policy_code : ℕ → CString → ℕ
policy_code old name =
    let first = if same_string name fifo then 0 else old in
    let second = if same_string name sff then 1 else first in
    if same_string name sff_bs then 2 else second

-- The batch size, which is given where there are six arguments.
unfoldable pub batch_size : (CString → ℤ) → List CString → ℤ
batch_size atoi [] = pos 0
batch_size atoi (n ∷ []) = atoi n
batch_size atoi (n ∷ m ∷ more) = pos 0

-- `getargs`, from the arguments behind the name of the program. `atoi` or `strcpy` of one that is not there
-- reads through a null pointer.
unfoldable pub getargs : (CString → ℤ) → List CString → Outcome Args
unfolding policy_code batch_size
getargs atoi [] = exit 1
getargs atoi (port ∷ []) = fault
getargs atoi (port ∷ threads ∷ []) = fault
getargs atoi (port ∷ threads ∷ buffers ∷ []) = fault
getargs atoi (port ∷ threads ∷ buffers ∷ name ∷ more) = do
  schedalg ← fits name
  ok (record {
    port = atoi port;
    threads = atoi threads;
    buffers = atoi buffers;
    sched_alg_code = policy_code 0 schedalg;
    sff_bs_value = batch_size atoi more;
  })

-- The arrays with an element for each thread: its handle, its lock, and the usage statistics.
pub record Pool : Type 0 where
  pub work_threads : Array ℕ
  pub work_locks : Array ℕ
  pub thread_id : Array ℕ
  pub thread_count : Array ℕ
  pub thread_static : Array ℕ
  pub thread_dynamic : Array ℕ

-- A null pointer, where `calloc` fails.
unfoldable pub callocs : Bool → ℕ → Array ℕ
callocs true n = calloc n 0
callocs false n = λ i. none

-- The loop that starts the threads from `t` on; `creates` says for which of them `pthread_create` succeeds.
unfoldable pub pool_loop : ℕ → (ℕ → Bool) → ℕ → Pool → Outcome Pool
pool_loop zero creates t p = ok p
pool_loop (suc n) creates t p = do
  locks ← store p.work_locks t 1
  handles ← store p.work_threads t t
  ids ← store p.thread_id t t
  counts ← store p.thread_count t 0
  statics ← store p.thread_static t 0
  dynamics ← store p.thread_dynamic t 0
  if creates t
      then pool_loop n creates (suc t) (record {
        work_threads = handles;
        work_locks = locks;
        thread_id = ids;
        thread_count = counts;
        thread_static = statics;
        thread_dynamic = dynamics;
      })
      else exit 255

-- What the server has when it begins to listen.
pub record Started : Type 0 where
  pub args : Args
  pub threads : Threads
  pub thread_id : Array ℕ

abbrev pub new_pool : (ℕ → Bool) → ℕ → Pool
new_pool allocated n = record {
  work_threads = callocs (allocated 0) n;
  work_locks = callocs (allocated 1) n;
  thread_id = callocs (allocated 2) n;
  thread_count = callocs (allocated 3) n;
  thread_static = callocs (allocated 4) n;
  thread_dynamic = callocs (allocated 5) n;
}

abbrev pub listening : Args → Waiting → Pool → Started
listening args waiting p = record {
  args = args;
  threads = record {
    state = record {
      waiting = waiting;
      work_num = pos 0;
      wait_num = pos 0;
      head_hist = 0;
      thread_count = p.thread_count;
      thread_static = p.thread_static;
      thread_dynamic = p.thread_dynamic;
    };
    stages = λ i. idle;
  };
  thread_id = p.thread_id;
}

-- `main` from the allocation of the pool on. `allocated` says which of its arrays are allocated, in the
-- order of the source.
unfoldable pub start_pool : (ℕ → Bool) → (ℕ → Bool) → Args → Waiting → Outcome Started
unfolding callocs pool_loop
start_pool allocated creates args waiting = do
  p ← pool_loop (pos_part args.threads) creates 0 (new_pool allocated (pos_part args.threads))
  ok (listening args waiting p)

-- `main` up to the socket.
unfoldable pub start_server :
    (CString → ℤ)
    → (ℕ → Bool)
    → (ℕ → Bool)
    → Option (ℕ × Request)
    → Heap
    → List CString
    → Outcome Started
unfolding getargs queue_init start_pool
start_server atoi allocated creates sentinel heap argv = do
  args ← getargs atoi argv
  waiting ← queue_init sentinel heap
  start_pool allocated creates args waiting
