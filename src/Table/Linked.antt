-- ===== src/Table/Linked.antt =====
-- p4-final/handin/list.c. The heap maps addresses to nodes; a null pointer is `none`. Each operation
-- runs between the acquire and the release of the list's lock, so it is one step here; what the lock
-- gives is proved in Counter. `fresh` is what `malloc` returns.
pub mod Chain
pub mod Laws
pub mod Delete
use sp.Base.{
  ℕ, zero, suc, Bool, true, false, Option, none, some, ◌==◌, if◌then◌else◌, Outcome, ok, fault,
  hang, ◌>>=◌, Array, load, update,
}

abbrev pub Ptr : Type 0
Ptr = Option ℕ

pub record Node : Type 0 where
  pub key : ℕ
  pub element : Ptr
  pub next : Ptr

abbrev pub Heap : Type 0
Heap = Array Node

-- `List_Init`: the head of a new list.
unfoldable pub list_init : Ptr
list_init = none

-- `List_Insert`: the new heap and the new head. Without memory it only prints a message.
unfoldable pub list_insert : Ptr → Heap → Ptr → Ptr → ℕ → Heap × Ptr
list_insert none h head element key = (h, head)
list_insert (some a) h head element key =
    (update h a (record { key = key; element = element; next = head }), some a)

-- The node with the next pointer of `prev_node` replaced. The head has no node before it.
pub set_next : Heap → Ptr → Ptr → Outcome Heap
set_next h none next = fault
set_next h (some p) next = do n ← load h p; ok (update h p (record n { next = next }))

-- `list->head == curr_node`
pub same_ptr : Ptr → ℕ → Bool
same_ptr none a = false
same_ptr (some b) a = b == a

pub free : Heap → ℕ → Heap
free h a j = if a == j then none else h j

-- Unlinks `curr_node` and frees it.
pub unlink : Heap → Ptr → Ptr → ℕ → Ptr → Outcome (Heap × Ptr)
unfolding set_next same_ptr free
unlink h head prev curr next =
    if same_ptr head curr
    then ok (free h curr, next)
    else (do h' ← set_next h prev next; ok (free h' curr, head))

-- The loop of `List_Delete`, with a round for each node and one more.
unfoldable pub delete_loop : ℕ → Heap → Ptr → Ptr → Ptr → ℕ → Outcome (Heap × Ptr)
unfolding unlink
delete_loop zero h head prev curr key = hang
delete_loop (suc n) h head prev none key = ok (h, head)
delete_loop (suc n) h head prev (some a) key = do
  node ← load h a
  elim (node.key == key) [
    | true ↦ unlink h head prev a node.next
    | false ↦ delete_loop n h head (some a) node.next key
  ]

unfoldable pub list_delete : ℕ → Heap → Ptr → ℕ → Outcome (Heap × Ptr)
unfolding delete_loop
list_delete n h head key = delete_loop n h head none head key

-- The loop of `List_Lookup`; the element of the first node with the key, or null.
unfoldable pub list_lookup : ℕ → Heap → Ptr → ℕ → Outcome Ptr
list_lookup zero h curr key = hang
list_lookup (suc n) h none key = ok none
list_lookup (suc n) h (some a) key = do
  node ← load h a
  elim (node.key == key) [ true ↦ ok node.element | false ↦ list_lookup n h node.next key ]
