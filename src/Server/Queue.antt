-- ===== src/Server/Queue.antt =====
-- p5/server.c, the queue of waiting requests: nodes on a heap behind a sentinel, with a pointer to the last
-- one. Nodes are not freed. `malloc` is the argument `fresh`: an address and what the memory there holds.
-- `pre_process` is `requestPreProcess`, which fills in a request and does not touch its links.
pub mod Chain
pub mod Insert
pub mod Link
pub mod Push
pub mod Pop
pub mod Smallest
use sp.Base.{
  ℕ, zero, suc, ◌+◌, ◌-◌, ◌*◌, ◌/◌, ◌%◌, Bool, true, false, ◌&&◌, Option, none, some, List, ◌==◌,
  ltb, if◌then◌else◌, ℤ, pos, leb_ℤ, Outcome, ok, fault, hang, ◌>>=◌, Array, load, store, update,
}

abbrev pub Ptr : Type 0
Ptr = Option ℕ

-- A node without its link.
pub record Request : Type 0 where
  pub val : ℤ
  pub is_static : Bool
  pub filename : List ℕ
  pub cgiargs : List ℕ
  pub st_size : ℤ
  pub stat_req_arrival : ℕ
  pub stat_req_birth : ℕ

pub record Cell : Type 0 where
  pub request : Request
  pub next : Ptr

abbrev pub Heap : Type 0
Heap = Array Cell

pub record Waiting : Type 0 where
  pub heap : Heap
  pub head : ℕ
  pub tail : ℕ

-- The global variables that the queue reads.
pub record Settings : Type 0 where
  pub sched_alg_code : ℕ
  pub buffer_head_hist : ℕ
  pub sff_bs_value : ℕ

-- `gettimeofday`
pub record Time : Type 0 where
  pub tv_sec : ℕ
  pub tv_usec : ℕ

unfoldable pub queue_init : Option (ℕ × Request) → Heap → Outcome Waiting
queue_init none h = fault
queue_init (some (a, r)) h =
    ok (record { heap = update h a (record { request = r; next = none }); head = a; tail = a })

-- What the three branches of `queue_push` fill in before the pre-processing.
unfoldable pub new_request : Settings → Time → ℤ → Request → Request
new_request c t val r = record r {
  val = val;
  st_size = if c.sched_alg_code == 0 then pos 0 else r.st_size;
  stat_req_arrival = t.tv_sec / 1000 + t.tv_usec * 1000;
  stat_req_birth = c.buffer_head_hist;
}

-- The loops that look for the place of a request of a size. SFF-BS counts the nodes, and goes on while
-- the count is `within` its bound. A round for each node and one more.
unfoldable pub seek : ℕ → (ℕ → Bool) → Heap → ℕ → ℕ → ℤ → Outcome ℕ
seek zero within h tmp count size = hang
seek (suc n) within h tmp count size = do
  cell ← load h tmp
  elim cell.next [
    | none ↦ ok tmp
    | some next ↦ (do
      c ← load h next
      elim (within count && leb_ℤ c.request.st_size size) [
        | true ↦ seek n within h next (suc count) size
        | false ↦ ok tmp
      ])
  ]

-- Links a node in behind `tmp`; the tail moves if it is the last one then.
unfoldable pub link_behind : Waiting → ℕ → Request → ℕ → Outcome Waiting
link_behind q a r tmp = do
  cell ← load q.heap tmp
  let heap1 = update q.heap a (record { request = r; next = cell.next }) in
      do
        cell1 ← load heap1 tmp
        heap2 ← store heap1 tmp (record cell1 { next = some a })
        new_cell ← load heap2 a
        ok (record q { heap = heap2; tail = elim new_cell.next [ none ↦ a | some _ ↦ q.tail ] })

-- Links a node in behind the tail.
unfoldable pub link_last : Waiting → ℕ → Request → Outcome Waiting
link_last q a r =
    let heap1 = update q.heap a (record { request = r; next = none }) in
    do
      cell ← load heap1 q.tail
      heap2 ← store heap1 q.tail (record cell { next = some a })
      ok (record q { heap = heap2; tail = a })

-- `max_search` of SFF-BS; a remainder by 0 is undefined.
unfoldable pub max_search : Settings → Outcome ℕ
max_search c = elim c.sff_bs_value [
  | zero ↦ fault
  | suc v ↦ ok (suc v - c.buffer_head_hist % suc v)
]

-- `queue_push` once the node is there, by the code of the policy.
unfoldable pub place : ℕ → ℕ → Settings → Waiting → ℕ → Request → Outcome Waiting
unfolding seek link_behind link_last max_search
place zero n c q a r = link_last q a r
place (suc zero) n c q a r = do
  tmp ← seek n (λ count. true) q.heap q.head 1 r.st_size
  link_behind q a r tmp
place (suc (suc zero)) n c q a r = do
  bound ← max_search c
  tmp ← seek n (λ count. ltb count bound) q.heap q.head 1 r.st_size
  link_behind q a r tmp
place (suc (suc (suc k))) n c q a r = ok q

unfoldable pub queue_push :
    ℕ
    → (Request → Outcome Request)
    → Option (ℕ × Request)
    → Time
    → Settings
    → Waiting
    → ℤ
    → Outcome Waiting
unfolding place new_request
queue_push n pre_process none t c q val = if ltb 2 c.sched_alg_code then ok q else fault
queue_push n pre_process (some (a, r)) t c q val =
    if ltb 2 c.sched_alg_code
    then ok q
    else pre_process (new_request c t val r) >>= place c.sched_alg_code n c q a

-- Reads through a null pointer on an empty queue.
unfoldable pub queue_peek : Waiting → Outcome Request
queue_peek q = do
  cell ← load q.heap q.head
  elim cell.next [ none ↦ fault | some a ↦ (do c ← load q.heap a; ok c.request) ]

unfoldable pub queue_pop : Waiting → Outcome Waiting
queue_pop q = do
  cell ← load q.heap q.head
  elim cell.next [
    | none ↦ ok q
    | some a ↦ (do
      c ← load q.heap a
      h ← store q.heap q.head (record cell { next = c.next })
      ok (record q { heap = h; tail = elim c.next [ none ↦ q.head | some _ ↦ q.tail ] }))
  ]
