-- ===== src/Server/Workers.antt =====
-- p5/server.c: the handlers of the master and the workers. The master holds `mutex` while it accepts a request, and
-- each worker a lock of its own from its test of `buffer_wait_num` to the end of a request, so no two of them
-- exclude each other. An action is a run of a worker that no other thread interrupts. Every schedule of actions is one
-- of the program; the program has others, in which a thread comes in between two accesses of an action, so
-- nothing that holds of all schedules of actions is known of the program.
pub mod Race
use sp.Base.{
  ℕ, zero, suc, ◌+◌, ◌*◌, ◌/◌, Bool, true, false, ◌&&◌, not, Option, none, some, List, [], ◌∷◌,
  ◌==◌, if◌then◌else◌, ℤ, pos, negsuc, ◌+ℤ◌, ◌-ℤ◌, sub_ℕ, eqb_ℤ, Outcome, ok, ◌>>=◌, Array, load,
  store,
}
use sp.Server.Queue.{Request, Waiting, Settings, Time, queue_push, queue_peek, queue_pop}

-- The global variables that the threads change; `thread_count` and so on are the usage statistics.
pub record Globals : Type 0 where
  pub waiting : Waiting
  pub work_num : ℤ
  pub wait_num : ℤ
  pub head_hist : ℕ
  pub thread_count : Array ℕ
  pub thread_static : Array ℕ
  pub thread_dynamic : Array ℕ

-- What does not change: the policy, the size of its batches, and the preprocessing.
pub record Config : Type 0 where
  pub sched_alg_code : ℕ
  pub sff_bs_value : ℕ
  pub pre_process : Request → Outcome Request

-- A request that a worker serves, with its statistics.
pub record Job : Type 0 where
  pub request : Request
  pub stat_req_dispatch : ℤ
  pub stat_req_death : ℕ

-- `Master_thread_accept_request` behind its wait for a free buffer, with no worker in between.
unfoldable pub accept_request :
    Config → ℕ → Option (ℕ × Request) → Time → Globals → ℤ → Outcome Globals
accept_request c n fresh t s fd = do
  q ←
      queue_push n c.pre_process fresh t
        (record {
          sched_alg_code = c.sched_alg_code;
          buffer_head_hist = s.head_hist;
          sff_bs_value = c.sff_bs_value;
        })
        s.waiting fd
  ok (record s { waiting = q; wait_num = s.wait_num +ℤ pos 1 })

unfoldable pub bump : Array ℕ → ℕ → Outcome (Array ℕ)
bump counts i = load counts i >>= λ x. store counts i (x + 1)

-- `handle_request` after the pop, up to the service.
unfoldable pub take_job : ℕ → Time → Globals → Request → Waiting → Outcome (Option Job × Globals)
unfolding bump
take_job i t s node q = do
  count ← bump s.thread_count i
  kind ← bump (if node.is_static then s.thread_static else s.thread_dynamic) i
  ok (
    some (record {
      request = node;
      stat_req_dispatch = sub_ℕ (t.tv_sec / 1000 + t.tv_usec * 1000) node.stat_req_arrival;
      stat_req_death = s.head_hist;
    }),
    record s {
      waiting = q;
      thread_count = count;
      thread_static = if node.is_static then kind else s.thread_static;
      thread_dynamic = if node.is_static then s.thread_dynamic else kind;
      head_hist = s.head_hist + 1;
      work_num = s.work_num +ℤ pos 1;
      wait_num = s.wait_num -ℤ pos 1;
    },
  )

-- `handle_request` after the peek.
unfoldable pub handle_node : ℕ → Time → Globals → Request → Outcome (Option Job × Globals)
unfolding take_job
handle_node i t s node = elim (eqb_ℤ node.val (negsuc 0)) [
  | true ↦ ok (none, s)
  | false ↦ queue_pop s.waiting >>= take_job i t s node
]

-- `handle_request` up to the service of the request.
unfoldable pub begin_request : ℕ → Time → Globals → Outcome (Option Job × Globals)
unfolding handle_node
begin_request i t s = queue_peek s.waiting >>= handle_node i t s

-- `handle_request` after the service.
unfoldable pub finish_request : Globals → Globals
finish_request s = record s { work_num = s.work_num -ℤ pos 1 }

-- Where a worker is: before its test, behind it, or serving a request.
pub data Stage : Type 0 where
  idle admitted : Stage
  serving : Job → Stage

pub record Threads : Type 0 where
  pub state : Globals
  pub stages : ℕ → Stage

pub data Action : Type 0 where
  admit : ℕ → Action
  begin : ℕ → Time → Action
  finish : ℕ → Action

abbrev pub set_stage : (ℕ → Stage) → ℕ → Stage → ℕ → Stage
set_stage stages i stage j = if i == j then stage else stages j

abbrev pub after_begin : Option Job → Stage
after_begin none = idle
after_begin (some job) = serving job

-- `while (buffer_wait_num == 0) pthread_cond_wait (...)`: the worker goes on where a request waits.
unfoldable pub step_admit : ℕ → Stage → Threads → Threads
step_admit i idle y =
    if eqb_ℤ y.state.wait_num (pos 0)
    then y
    else record y { stages = set_stage y.stages i admitted }
step_admit i admitted y = y
step_admit i (serving job) y = y

unfoldable pub step_begin : ℕ → Time → Stage → Threads → Outcome Threads
unfolding begin_request
step_begin i t idle y = ok y
step_begin i t admitted y = do
  (job, s) ← begin_request i t y.state
  ok (record { state = s; stages = set_stage y.stages i (after_begin job) })
step_begin i t (serving job) y = ok y

unfoldable pub step_finish : ℕ → Stage → Threads → Threads
unfolding finish_request
step_finish i idle y = y
step_finish i admitted y = y
step_finish i (serving job) y = record {
  state = finish_request y.state;
  stages = set_stage y.stages i idle;
}

unfoldable pub step_action : Action → Threads → Outcome Threads
unfolding step_admit step_begin step_finish
step_action (admit i) y = ok (step_admit i (y.stages i) y)
step_action (begin i t) y = step_begin i t (y.stages i) y
step_action (finish i) y = ok (step_finish i (y.stages i) y)

-- A schedule of actions.
unfoldable pub run_all : List Action → Threads → Outcome Threads
unfolding step_action
run_all [] y = ok y
run_all (act ∷ acts) y = step_action act y >>= run_all acts
