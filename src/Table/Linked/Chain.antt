-- ===== src/Table/Linked/Chain.antt =====
-- p4-final/handin/list.c: how a chain of nodes in the heap stands for a list of entries.
use sp.Base.{ℕ, ◌≡◌, ◌≢◌, ◌∙◌, none, some, List, [], ◌∷◌, ◌==◌, if◌then◌else◌, All}
use sp.Table.Linked.{Ptr, Node, Heap}

pub record Entry : Type 0 where
  pub addr : ℕ
  pub key : ℕ
  pub element : Ptr

abbrev pub first : List Entry → Ptr
first [] = none
first (e ∷ es) = some e.addr

abbrev pub node_of : Entry → Ptr → Node
node_of e next = record { key = e.key; element = e.element; next = next }

-- Each entry has its node, which points to the node of the next one.
abbrev pub Linked : Heap → List Entry → Type 0
Linked h [] = Unit
Linked h (e ∷ es) = (h e.addr ≡ some (node_of e (first es))) × Linked h es

-- No entry has its node at `a`.
abbrev pub Avoids : ℕ → List Entry → Type 0
Avoids a = All (λ e. e.addr ≢ a)

abbrev pub Distinct : List Entry → Type 0
Distinct [] = Unit
Distinct (e ∷ es) = Avoids e.addr es × Distinct es

-- The list with this head holds the entries, newest first.
pub record IsList (h : Heap) (head : Ptr) (es : List Entry) : Type 0 where
  pub starts : head ≡ first es
  pub linked : Linked h es
  pub distinct : Distinct es

-- A heap that agrees on all the nodes of a chain holds the chain.
pub Linked-agree :
    (g h : Heap) (es : List Entry) → All (λ e. g e.addr ≡ h e.addr) es → Linked h es → Linked g es
Linked-agree g h [] same l = tt
Linked-agree g h (e ∷ es) same l = (same.0 ∙ l.0, Linked-agree g h es same.1 l.1)

-- What a client of the list sees: the element of the newest entry with the key, and the entries
-- that are left when it goes.
abbrev pub lookup_entry : ℕ → List Entry → Ptr
lookup_entry key [] = none
lookup_entry key (e ∷ es) = if e.key == key then e.element else lookup_entry key es

abbrev pub remove_entry : ℕ → List Entry → List Entry
remove_entry key [] = []
remove_entry key (e ∷ es) = if e.key == key then es else e ∷ remove_entry key es

-- Where the entry that goes had its node.
abbrev pub victim : ℕ → List Entry → Ptr
victim key [] = none
victim key (e ∷ es) = if e.key == key then some e.addr else victim key es
