-- ===== src/Request/Preprocess.antt =====
-- p5/request.c: `requestPreProcess` with its error pages. Each call of `requestError` is the last thing it does.
use sp.Base.{ℕ, Option, none, some, List, Outcome, ok, ◌>>=◌, CString}
use sp.Rio.{Read}
use sp.Request.{Stat, Stack, Answer, pre_process_answer}
use sp.Request.Serve.{Printing}
use sp.Request.Error.{problem_of, PageWrites, request_error}
use sp.Server.Queue.{Request}

-- The page is sent, and the node stays as it is.
unfoldable pub send_answer : Printing → PageWrites → Option Answer → Request → Outcome Request
unfolding problem_of request_error
send_answer p ws none node = ok node
send_answer p ws (some page) node = do sent ← request_error p ws (problem_of page); ok node

unfoldable pub request_pre_process :
    Printing
    → PageWrites
    → ℕ
    → (CString → Option Stat)
    → Stack
    → List Read
    → Request
    → Outcome Request
unfolding pre_process_answer send_answer
request_pre_process p ws k stat st source node = do
  (page, filled) ← pre_process_answer k stat st source node
  send_answer p ws page filled
