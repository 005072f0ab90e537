-- ===== src/Request/Targets.antt =====
-- p5/request.c: which requests are served, and what becomes of the others.
use sp.Base.{◌≡◌, ◌↔◌, refl, true, Option, none, some, if◌then◌else◌, arith, CString}
use sp.Request.{Target, Stat, Answer, check_found, check_target}
use sp.Server.Queue.{Request}

-- A regular file that its owner may read, or run where the request is dynamic.
abbrev pub Servable : Option Stat → Target → Type 0
Servable none t = ⊥
Servable (some s) t =
    (s.is_regular ≡ true) × ((if t.is_static then s.can_read else s.can_execute) ≡ true)

abbrev Refused : Option Answer × Request → Request → Type 0
Refused (answer, after) node = (a : Answer) → answer ≡ some a → after ≡ node

check_found_lem :
    (found : Option Stat) (t : Target) (node : Request)
    → (((check_found found t node).0 ≡ none) ↔ Servable found t)
      × Refused (check_found found t node) node
unfolding check_found
check_found_lem none t node = ((λ h. cc h, λ f. elim f [ ]), λ a e. refl)
check_found_lem (some s) t node =
    ((λ h. (ground arith, ground arith), λ (regular, allowed). ground arith), λ a e. ground arith)

-- The last part of `requestPreProcess` sends no error page exactly when `stat` finds a regular file
-- that its owner may read, or run for a dynamic request; where it sends one, the node stays as it
-- was.
pub check_target_lem :
    (stat : CString → Option Stat) (t : Target) (node : Request)
    → (((check_target stat t node).0 ≡ none) ↔ Servable (stat t.filename) t)
      × ((a : Answer) → (check_target stat t node).0 ≡ some a → (check_target stat t node).1 ≡ node)
unfolding check_target
check_target_lem stat t node = check_found_lem (stat t.filename) t node
