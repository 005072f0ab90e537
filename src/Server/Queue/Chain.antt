-- ===== src/Server/Queue/Chain.antt =====
-- p5/server.c: how the nodes on the heap stand for a sequence of requests, and where a request goes in it.
use sp.Base.{
  ℕ, zero, suc, ◌-◌, ◌%◌, ◌≡◌, ◌≢◌, ◌∙◌, sym, Bool, true, ◌&&◌, none, some, List, [], ◌∷◌, ◌++◌,
  if◌then◌else◌, All, leb_ℤ, take, drop, update, update_miss,
}
use sp.Server.Queue.{Ptr, Request, Cell, Heap, Waiting, Settings}

pub record Entry : Type 0 where
  pub addr : ℕ
  pub request : Request

abbrev pub first : List Entry → Ptr
first [] = none
first (e ∷ es) = some e.addr

abbrev pub last_addr : Entry → List Entry → ℕ
last_addr s [] = s.addr
last_addr s (e ∷ es) = last_addr e es

abbrev pub Linked : Heap → List Entry → Type 0
Linked h [] = Unit
Linked h (e ∷ es) =
    (h e.addr ≡ some (record { request = e.request; next = first es })) × Linked h es

abbrev pub Avoids : ℕ → List Entry → Type 0
Avoids a = All (λ e. e.addr ≢ a)

abbrev pub Distinct : List Entry → Type 0
Distinct [] = Unit
Distinct (e ∷ es) = Avoids e.addr es × Distinct es

-- The queue with the sentinel `s` holds these entries, the next to be served first.
pub record IsQueue (q : Waiting) (s : Entry) (es : List Entry) : Type 0 where
  pub starts : q.head ≡ s.addr
  pub ends : q.tail ≡ last_addr s es
  pub linked : Linked q.heap (s ∷ es)
  pub distinct : Distinct (s ∷ es)

-- A write elsewhere leaves a chain.
pub Linked-update :
    (h : Heap) (a : ℕ) (c : Cell) (es : List Entry)
    → Avoids a es
    → Linked h es
    → Linked (update h a c) es
Linked-update h a c [] v l = tt
Linked-update h a c (e ∷ es) v l =
    (update_miss h a e.addr c (λ p. v.0 (sym p)) ∙ l.0, Linked-update h a c es v.1 l.1)

abbrev pub linked_cell : Entry → List Entry → Cell
linked_cell e es = record { request = e.request; next = first es }

-- A request goes behind those that are not larger, as far as the count is `within` its bound.
abbrev pub insert_within : (ℕ → Bool) → ℕ → Entry → List Entry → List Entry
insert_within within count new [] = new ∷ []
insert_within within count new (e ∷ es) =
    if within count && leb_ℤ e.request.st_size new.request.st_size
    then e ∷ insert_within within (suc count) new es
    else new ∷ e ∷ es

-- A request goes behind those that are not larger.
abbrev pub insert_by_size : Entry → List Entry → List Entry
insert_by_size = insert_within (λ count. true) 1

-- What each policy makes of the waiting requests: FIFO puts the new one last, SFF behind those that are not
-- larger, and SFF-BS does so among as many at the front as its batch has left, less one.
abbrev pub arranged : ℕ → Settings → Entry → List Entry → List Entry
arranged zero c new es = es ++ new ∷ []
arranged (suc zero) c new es = insert_by_size new es
arranged (suc (suc zero)) c new es =
    let left = c.sff_bs_value - c.buffer_head_hist % c.sff_bs_value - 1 in
    insert_by_size new (take left es) ++ drop left es
arranged (suc (suc (suc k))) c new es = es
