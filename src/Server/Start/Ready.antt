-- ===== src/Server/Start/Ready.antt =====
-- p5/server.c: the server starts with a queue and a pool as the workers need them.
use sp.Base.{
  ℕ, zero, suc, ◌+◌, ◌≤◌, ◌<◌, ◌≡◌, ◌∙◌, refl, sym, ap, subst, Bool, true, false, none, some, List,
  [], ◌∷◌, lt→ltb, arith, length, CString, ℤ, pos, pos_part, Outcome, ok, ◌>>=◌, Array, Room,
  Room-update, Room-calloc, update, update_hit, update_miss, store_lem, ℕ_discrete, same_string,
  Bool-cases, inl, inr,
}
use sp.Request.{max_line}
use sp.Server.Queue.{Request, Heap, Waiting, queue_init}
use sp.Server.Queue.Chain.{IsQueue}
use sp.Server.Start.{
  Args, fifo, sff, sff_bs, policy_code, batch_size, getargs, Pool, callocs, pool_loop, new_pool,
  listening, start_pool, Started, start_server,
}

-- The array `g` is `f` with the values of `v` at `n` indices from `t` on; what is before is as it was.
record Filled (f g : Array ℕ) (t n : ℕ) (v : ℕ → ℕ) : Type 0 where
  inside : (i : ℕ) → t ≤ i → i < t + n → g i ≡ some (v i)
  before : (i : ℕ) → i < t → g i ≡ f i

Filled-suc :
    (f g : Array ℕ) (t n : ℕ) (v : ℕ → ℕ)
    → Filled (update f t (v t)) g (suc t) n v
    → Filled f g t (suc n) v
Filled-suc f g t n v k = record {
  inside = inside;
  before = λ i lt. k.before i (omega arith) ∙ update_miss f t i (v t) (λ e. omega arith);
}
  where
    inside : (i : ℕ) → t ≤ i → i < t + suc n → g i ≡ some (v i)
    inside i lo hi = elim (ℕ_discrete i t) [
      | yes here ↦
          subst (λ j. g j ≡ some (v j)) (sym here) (k.before t (omega arith) ∙ update_hit f t (v t))
      | no there ↦ k.inside i (omega arith) (omega arith)
    ]

Filled-zero : (f : Array ℕ) (t : ℕ) (v : ℕ → ℕ) → Filled f f t 0 v
Filled-zero f t v = record { inside = λ i lo hi. absurd (omega arith); before = λ i lt. refl }

-- All arrays have room for the threads that are still to be started.
record HasRooms (p : Pool) (t n : ℕ) : Type 0 where
  handles : Room p.work_threads t n
  locks : Room p.work_locks t n
  ids : Room p.thread_id t n
  counts : Room p.thread_count t n
  statics : Room p.thread_static t n
  dynamics : Room p.thread_dynamic t n

record Pooled (p : Pool) (t n : ℕ) (r : Outcome Pool) : Type 0 where
  final : Pool
  returns : r ≡ ok final
  ids : Filled p.thread_id final.thread_id t n (λ i. i)
  counts : Filled p.thread_count final.thread_count t n (λ i. 0)
  statics : Filled p.thread_static final.thread_static t n (λ i. 0)
  dynamics : Filled p.thread_dynamic final.thread_dynamic t n (λ i. 0)

-- A round of the loop.
abbrev round : Pool → ℕ → Pool
round p t = record {
  work_threads = update p.work_threads t t;
  work_locks = update p.work_locks t 1;
  thread_id = update p.thread_id t t;
  thread_count = update p.thread_count t 0;
  thread_static = update p.thread_static t 0;
  thread_dynamic = update p.thread_dynamic t 0;
}

pool_loop_first :
    (n : ℕ) (creates : ℕ → Bool) (t : ℕ) (p : Pool)
    → HasRooms p t (suc n)
    → creates t ≡ true
    → pool_loop (suc n) creates t p ≡ pool_loop n creates (suc t) (round p t)
unfolding pool_loop
pool_loop_first n creates t p h created =
    rw
      (
        store_lem p.work_locks t 1 h.locks.0.1,
        store_lem p.work_threads t t h.handles.0.1,
        store_lem p.thread_id t t h.ids.0.1,
        store_lem p.thread_count t 0 h.counts.0.1,
        store_lem p.thread_static t 0 h.statics.0.1,
        store_lem p.thread_dynamic t 0 h.dynamics.0.1,
        created,
      )
      refl

pool_loop_lem :
    (n : ℕ) (creates : ℕ → Bool) (t : ℕ) (p : Pool)
    → HasRooms p t n
    → ((i : ℕ) → t ≤ i → i < t + n → creates i ≡ true)
    → Pooled p t n (pool_loop n creates t p)
pool_loop_lem zero creates t p h created = record {
  final = p;
  returns = unfold pool_loop in refl;
  ids = Filled-zero p.thread_id t (λ i. i);
  counts = Filled-zero p.thread_count t (λ i. 0);
  statics = Filled-zero p.thread_static t (λ i. 0);
  dynamics = Filled-zero p.thread_dynamic t (λ i. 0);
}
pool_loop_lem (suc n) creates t p h created =
    let rooms : HasRooms (round p t) (suc t) n = record {
      handles = Room-update p.work_threads (suc t) n t t h.handles.1;
      locks = Room-update p.work_locks (suc t) n t 1 h.locks.1;
      ids = Room-update p.thread_id (suc t) n t t h.ids.1;
      counts = Room-update p.thread_count (suc t) n t 0 h.counts.1;
      statics = Room-update p.thread_static (suc t) n t 0 h.statics.1;
      dynamics = Room-update p.thread_dynamic (suc t) n t 0 h.dynamics.1;
    } in
    let k =
      pool_loop_lem n creates (suc t) (round p t) rooms
        (λ i lo hi. created i (omega arith) (omega arith)) in
    record {
      final = k.final;
      returns = pool_loop_first n creates t p h (created t (omega arith) (omega arith)) ∙ k.returns;
      ids = Filled-suc p.thread_id k.final.thread_id t n (λ i. i) k.ids;
      counts = Filled-suc p.thread_count k.final.thread_count t n (λ i. 0) k.counts;
      statics = Filled-suc p.thread_static k.final.thread_static t n (λ i. 0) k.statics;
      dynamics = Filled-suc p.thread_dynamic k.final.thread_dynamic t n (λ i. 0) k.dynamics;
    }

-- The code for the name of a policy: 0 for "FIFO", 1 for "SFF", 2 for "SFF-BS", and 0 for any other name.
pub data CodeOf (name : CString) : ℕ → Type 0 where
  is_fifo : same_string name (b'F' ∷ b'I' ∷ b'F' ∷ b'O' ∷ []) ≡ true → CodeOf name 0
  is_sff : same_string name (b'S' ∷ b'F' ∷ b'F' ∷ []) ≡ true → CodeOf name 1
  is_sff_bs : same_string name (b'S' ∷ b'F' ∷ b'F' ∷ b'-' ∷ b'B' ∷ b'S' ∷ []) ≡ true → CodeOf name 2
  is_unknown :
      same_string name (b'F' ∷ b'I' ∷ b'F' ∷ b'O' ∷ []) ≡ false
      → same_string name (b'S' ∷ b'F' ∷ b'F' ∷ []) ≡ false
      → same_string name (b'S' ∷ b'F' ∷ b'F' ∷ b'-' ∷ b'B' ∷ b'S' ∷ []) ≡ false
      → CodeOf name 0

policy_code-CodeOf : (name : CString) → CodeOf name (policy_code 0 name)
unfolding policy_code
policy_code-CodeOf name = elim (Bool-cases (same_string name sff_bs)) [
  | inl bs ↦ rw bs (is_sff_bs bs)
  | inr not_bs ↦ elim (Bool-cases (same_string name sff)) [
    | inl s ↦ rw (not_bs, s) (is_sff s)
    | inr not_s ↦ elim (Bool-cases (same_string name fifo)) [
      | inl f ↦ rw (not_bs, not_s, f) (is_fifo f)
      | inr not_f ↦ rw (not_bs, not_s, not_f) (is_unknown not_f not_s not_bs)
    ]
  ]
]

-- The batch size: the fifth argument where there are just five, and 0 otherwise.
pub data BatchOf (atoi : CString → ℤ) : List CString → ℤ → Type 0 where
  none_given : BatchOf atoi [] (pos 0)
  given : (value : CString) → BatchOf atoi (value ∷ []) (atoi value)
  too_many : (a b : CString) (more : List CString) → BatchOf atoi (a ∷ b ∷ more) (pos 0)

batch_size-BatchOf :
    (atoi : CString → ℤ) (more : List CString) → BatchOf atoi more (batch_size atoi more)
unfolding batch_size
batch_size-BatchOf atoi [] = none_given
batch_size-BatchOf atoi (value ∷ []) = given value
batch_size-BatchOf atoi (a ∷ b ∷ more) = too_many a b more

queue_init-IsQueue :
    (a : ℕ) (r : Request) (heap : Heap)
    → (q : Waiting) × (queue_init (some (a, r)) heap ≡ ok q)
      × IsQueue q (record { addr = a; request = r }) []
unfolding queue_init
queue_init-IsQueue a r heap = (
  record { heap = update heap a (record { request = r; next = none }); head = a; tail = a },
  refl,
  record {
    starts = refl;
    ends = refl;
    linked = (update_hit heap a (record { request = r; next = none }), tt);
    distinct = (tt, tt);
  },
)

getargs_lem :
    (atoi : CString → ℤ) (port threads buffers name : CString) (more : List CString)
    → length name < max_line
    → getargs atoi (port ∷ threads ∷ buffers ∷ name ∷ more)
      ≡ ok (record {
        port = atoi port;
        threads = atoi threads;
        buffers = atoi buffers;
        sched_alg_code = policy_code 0 name;
        sff_bs_value = batch_size atoi more;
      })
unfolding getargs
getargs_lem atoi port threads buffers name more short =
    rw (lt→ltb (length name) max_line short) refl

callocs-Room : (b : Bool) (n : ℕ) → b ≡ true → Room (callocs b n) 0 n
unfolding callocs
callocs-Room true n e = Room-calloc n 0 n 0 (omega arith)
callocs-Room false n e = cc

-- The server has started with these arguments: worker `i` finds an empty queue, its statistics and its index.
pub record StartedFor (i a : ℕ) (r : Request) (atoi : CString → ℤ)
    (port threads buffers name : CString) (more : List CString) (run : Outcome Started)
    : Type 0 where
  pub server : Started
  pub returns : run ≡ ok server
  pub port_number : server.args.port ≡ atoi port
  pub max_threads : server.args.threads ≡ atoi threads
  pub max_buffers : server.args.buffers ≡ atoi buffers
  pub policy : CodeOf name server.args.sched_alg_code
  pub batch : BatchOf atoi more server.args.sff_bs_value
  pub queue : IsQueue server.threads.state.waiting (record { addr = a; request = r }) []
  pub none_waits : server.threads.state.wait_num ≡ pos 0
  pub none_works : server.threads.state.work_num ≡ pos 0
  pub count : server.threads.state.thread_count i ≡ some 0
  pub statics : server.threads.state.thread_static i ≡ some 0
  pub dynamics : server.threads.state.thread_dynamic i ≡ some 0
  pub index : server.thread_id i ≡ some i

-- With four arguments or more, a policy name of less than 8192 bytes, a number of threads above i,
-- a sentinel and arrays that are allocated, and threads that can be created, `main` up to the
-- socket ends with the port, the threads and the buffers as `atoi` reads them; the policy code 0
-- for FIFO, 1 for SFF, 2 for SFF-BS, and 0 for any other name; the batch size that `atoi` reads
-- from the fifth argument where there are just five, and else 0; an empty queue with no request
-- counted as waiting or served; and for worker i its index and zero in all three statistics.
pub start_server_lem :
    (atoi : CString → ℤ) (allocated creates : ℕ → Bool) (a : ℕ) (r : Request) (heap : Heap)
    (port threads buffers name : CString) (more : List CString) (m i : ℕ)
    → atoi threads ≡ pos m
    → i < m
    → length name < max_line
    → ((j : ℕ) → allocated j ≡ true)
    → ((j : ℕ) → j < m → creates j ≡ true)
    → StartedFor i a r atoi port threads buffers name more (
        start_server atoi allocated creates
          (some (a, r))
          heap
          (port ∷ threads ∷ buffers ∷ name ∷ more))
unfolding start_server
start_server_lem atoi allocated creates a r heap port threads buffers name more m i many lt short
      allocates created =
    let (q, inits, isq) = queue_init-IsQueue a r heap in
    let args : Args = record {
      port = atoi port;
      threads = atoi threads;
      buffers = atoi buffers;
      sched_alg_code = policy_code 0 name;
      sff_bs_value = batch_size atoi more;
    } in
    let n = pos_part (atoi threads) in
    let same : n ≡ m = ap pos_part many in
    let room : (j : ℕ) → Room (callocs (allocated j) n) 0 n =
      λ j. callocs-Room (allocated j) n (allocates j) in
    let k =
      pool_loop_lem n creates 0 (new_pool allocated n)
        (record {
          handles = room 0;
          locks = room 1;
          ids = room 2;
          counts = room 3;
          statics = room 4;
          dynamics = room 5;
        })
        (λ j lo hi. created j (omega (arith, same))) in
    let inside : i < 0 + n = omega (arith, same) in
    record {
      server = listening args q k.final;
      returns =
          ap (λ o. o >>= λ b. queue_init (some (a, r)) heap >>= start_pool allocated creates b)
            (getargs_lem atoi port threads buffers name more short)
          ∙ ap (λ o. o >>= start_pool allocated creates args) inits
          ∙ unfold start_pool in ap (λ o. o >>= λ p. ok (listening args q p)) k.returns;
      port_number = refl;
      max_threads = refl;
      max_buffers = refl;
      policy = policy_code-CodeOf name;
      batch = batch_size-BatchOf atoi more;
      queue = isq;
      none_waits = refl;
      none_works = refl;
      count = k.counts.inside i (omega arith) inside;
      statics = k.statics.inside i (omega arith) inside;
      dynamics = k.dynamics.inside i (omega arith) inside;
      index = k.ids.inside i (omega arith) inside;
    }
