-- ===== src/Server/Workers/Race.antt =====
-- p5/server.c: two workers and one waiting request.
use sp.Base.{
  ℕ, ◌+◌, ◌*◌, ◌/◌, ◌≡◌, ◌≢◌, ◌∙◌, refl, sym, ap, Bool, true, false, Option, some, List, [], ◌∷◌,
  if◌then◌else◌, arith, pos, negsuc, eqb_ℤ, sub_ℕ, ◌+ℤ◌, ◌-ℤ◌, Outcome, ok, fault, ◌>>=◌, Array,
  update, update_hit, store_lem,
}
use sp.Server.Queue.{Request, Waiting, Time, queue_peek, queue_pop}
use sp.Server.Queue.Chain.{Entry, IsQueue}
use sp.Server.Queue.Pop.{queue_pop_lem, queue_pop_empty}
use sp.Server.Workers.{
  Globals, Job, bump, take_job, begin_request, handle_node, Stage, idle, admitted, serving, Threads,
  Action, admit, begin, set_stage, after_begin, step_admit, step_begin, step_action, run_all,
}

-- A worker has its statistics.
pub record HasCells (s : Globals) (i : ℕ) : Type 0 where
  pub count : (x : ℕ) × (s.thread_count i ≡ some x)
  pub statics : (x : ℕ) × (s.thread_static i ≡ some x)
  pub dynamics : (x : ℕ) × (s.thread_dynamic i ≡ some x)

bump_lem :
    (counts : Array ℕ) (i x : ℕ) → counts i ≡ some x → bump counts i ≡ ok (update counts i (x + 1))
unfolding bump
bump_lem counts i x e = rw (e, store_lem counts i (x + 1) e) refl

-- What a worker comes to with a request: the job, and the state with the queue `q`.
pub record Taken (i : ℕ) (t : Time) (s : Globals) (node : Request) (q : Waiting) : Type 0 where
  pub job : Job
  pub after : Globals
  pub returns : take_job i t s node q ≡ ok (some job, after)
  pub served : job.request ≡ node
  pub queue : after.waiting ≡ q
  pub fewer : after.wait_num ≡ s.wait_num -ℤ pos 1
  pub more : after.work_num ≡ s.work_num +ℤ pos 1
  pub cells : HasCells after i

Cell : Array ℕ → ℕ → Type 0
Cell counts i = (x : ℕ) × (counts i ≡ some x)

one_of : (b : Bool) (f g : Array ℕ) (i : ℕ) → Cell f i → Cell g i → Cell (if b then f else g) i
unfolding Cell
one_of true f g i p q = p
one_of false f g i p q = q

take_job_lem :
    (i : ℕ) (t : Time) (s : Globals) (node : Request) (q : Waiting)
    → HasCells s i
    → Taken i t s node q
unfolding take_job Cell
take_job_lem i t s node q cells =
    let (x, e) = cells.count in
    let kinds = if node.is_static then s.thread_static else s.thread_dynamic in
    let (y, f) =
      one_of node.is_static s.thread_static s.thread_dynamic i cells.statics cells.dynamics in
    let counted : Cell (update kinds i (y + 1)) i = (y + 1, update_hit kinds i (y + 1)) in
    record {
      job = record {
        request = node;
        stat_req_dispatch = sub_ℕ (t.tv_sec / 1000 + t.tv_usec * 1000) node.stat_req_arrival;
        stat_req_death = s.head_hist;
      };
      after = record s {
        waiting = q;
        thread_count = update s.thread_count i (x + 1);
        thread_static = if node.is_static then update kinds i (y + 1) else s.thread_static;
        thread_dynamic = if node.is_static then s.thread_dynamic else update kinds i (y + 1);
        head_hist = s.head_hist + 1;
        work_num = s.work_num +ℤ pos 1;
        wait_num = s.wait_num -ℤ pos 1;
      };
      returns = rw (bump_lem s.thread_count i x e, bump_lem kinds i y f) refl;
      served = refl;
      queue = refl;
      fewer = refl;
      more = refl;
      cells = record {
        count = (x + 1, update_hit s.thread_count i (x + 1));
        statics =
            one_of node.is_static (update kinds i (y + 1)) s.thread_static i counted cells.statics;
        dynamics =
            one_of node.is_static s.thread_dynamic (update kinds i (y + 1)) i cells.dynamics
              counted;
      };
    }

handle_node_lem :
    (i : ℕ) (t : Time) (s : Globals) (node : Request) (q : Waiting) (r : Option Job × Globals)
    → eqb_ℤ node.val (negsuc 0) ≡ false
    → queue_pop s.waiting ≡ ok q
    → take_job i t s node q ≡ ok r
    → handle_node i t s node ≡ ok r
unfolding handle_node
handle_node_lem i t s node q r valid pops takes = ground (arith, valid, pops, takes)

-- What a worker that was admitted comes to, where a request waits.
begin_request_lem :
    (i : ℕ) (t : Time) (s : Globals) (x e : Entry) (es : List Entry)
    → IsQueue s.waiting x (e ∷ es)
    → eqb_ℤ e.request.val (negsuc 0) ≡ false
    → HasCells s i
    → (q : Waiting) × (k : Taken i t s e.request q) × (begin_request i t s
        ≡ ok (some k.job, k.after))
      × IsQueue q x es
unfolding begin_request
begin_request_lem i t s x e es isq valid cells =
    let (peeks, (q, pops, rest)) = queue_pop_lem s.waiting x e es isq in
    let k = take_job_lem i t s e.request q cells in
    (
      q,
      k,
      rw peeks (handle_node_lem i t s e.request q (some k.job, k.after) valid pops k.returns),
      rest,
    )

set_stage_hit : (stages : ℕ → Stage) (i : ℕ) (stage : Stage) → set_stage stages i stage i ≡ stage
set_stage_hit stages i stage = ground arith

set_stage_miss :
    (stages : ℕ → Stage) (i j : ℕ) (stage : Stage) → i ≢ j → set_stage stages i stage j ≡ stages j
set_stage_miss stages i j stage other = ground arith

-- A worker passes its test where one request waits.
admit_step :
    (i : ℕ) (y : Threads)
    → y.stages i ≡ idle
    → y.state.wait_num ≡ pos 1
    → step_action (admit i) y ≡ ok (record y { stages = set_stage y.stages i admitted })
unfolding step_action step_admit
admit_step i y at_i one = rw (at_i, one) refl

-- A worker that was admitted begins a request.
begin_step :
    (i : ℕ) (t : Time) (y : Threads) (job : Option Job) (after : Globals)
    → y.stages i ≡ admitted
    → begin_request i t y.state ≡ ok (job, after)
    → step_action (begin i t) y
      ≡ ok (record { state = after; stages = set_stage y.stages i (after_begin job) })
unfolding step_action step_begin
begin_step i t y job after at_i begins = rw (at_i, begins) refl

-- A worker that was admitted and finds no request follows a null pointer.
begin_fault :
    (j : ℕ) (u : Time) (y : Threads)
    → y.stages j ≡ admitted
    → queue_peek y.state.waiting ≡ fault
    → step_action (begin j u) y ≡ fault
unfolding step_action step_begin begin_request
begin_fault j u y at_j peeks = rw (at_j, peeks) refl

run_all_cons :
    (act : Action) (acts : List Action) (y z : Threads) (r : Outcome Threads)
    → step_action act y ≡ ok z
    → run_all acts z ≡ r
    → run_all (act ∷ acts) y ≡ r
unfolding run_all
run_all_cons act acts y z r e rest = ap (λ o. o >>= run_all acts) e ∙ rest

-- Where one request waits and is counted, with a descriptor other than -1, and two workers are
-- before their test, one of them with its statistics, both may pass the test before either begins;
-- then the first takes the request, and the second reads through a null pointer.
pub workers_race :
    (i j : ℕ) (t u : Time) (y : Threads) (x e : Entry)
    → i ≢ j
    → y.stages i ≡ idle
    → y.stages j ≡ idle
    → IsQueue y.state.waiting x (e ∷ [])
    → y.state.wait_num ≡ pos 1
    → eqb_ℤ e.request.val (negsuc 0) ≡ false
    → HasCells y.state i
    → run_all (admit i ∷ admit j ∷ begin i t ∷ begin j u ∷ []) y ≡ fault
unfolding run_all
workers_race i j t u y x e other at_i at_j isq one valid cells =
    let (q, k, begins, empty) = begin_request_lem i t y.state x e [] isq valid cells in
    let (peeks, pops) = queue_pop_empty q x empty in
    let stages1 = set_stage y.stages i admitted in
    let stages2 = set_stage stages1 j admitted in
    let y1 : Threads = record y { stages = stages1 } in
    let y2 : Threads = record y { stages = stages2 } in
    let stages3 = set_stage stages2 i (serving k.job) in
    let y3 : Threads = record { state = k.after; stages = stages3 } in
    let first = admit_step i y at_i one in
    let second = admit_step j y1 (set_stage_miss y.stages i j admitted other ∙ at_j) one in
    let third =
      begin_step i t y2 (some k.job) k.after
        (set_stage_miss stages1 j i admitted (λ p. other (sym p))
          ∙ set_stage_hit y.stages i admitted)
        begins in
    let fourth =
      begin_fault j u y3
        (set_stage_miss stages2 i j (serving k.job) other ∙ set_stage_hit stages1 j admitted)
        (ap queue_peek k.queue ∙ peeks) in
    run_all_cons (admit i) (admit j ∷ begin i t ∷ begin j u ∷ []) y y1 fault first (
      run_all_cons (admit j) (begin i t ∷ begin j u ∷ []) y1 y2 fault second (
        run_all_cons (begin i t) (begin j u ∷ []) y2 y3 fault third
          (ap (λ o. o >>= run_all []) fourth)))
