-- ===== src/Allocator/Free.antt =====
-- p3/mem.c, `Mem_Free`: the checks, the place in the free list, and the merges with its neighbours.
pub mod Release
pub mod Join
pub mod Place
pub mod Whole
pub mod Back
pub mod RoundTrip
use sp.Base.{
  ℕ, zero, suc, ◌+◌, ◌-◌, ◌*◌, Bool, true, false, not, ◌&&◌, ◌||◌, none, some, ◌==◌, ltb, leb,
  if◌then◌else◌, ℤ, pos, negsuc, ◌+ℤ◌, sub_ℕ, eqb_ℤ, Outcome, ok, hang, ◌>>=◌, load, store,
}
use sp.Allocator.{
  Ptr, Memory, State, e_bad_pointer, e_padding_overwritten, free_pattern, padding_pattern, offset,
  rounds, fill, is_filled, next_of,
}

-- The loop that walks to the last free chunk before `ptr_new`, and returns it with its successor.
unfoldable pub place_loop : ℕ → Memory → ℕ → ℕ → Outcome (ℕ × Ptr)
place_loop zero mem ptr_new prev = hang
place_loop (suc n) mem ptr_new prev = do
  next ← next_of mem prev
  elim next [
    | none ↦ ok (prev, none)
    | some q ↦ elim (ltb ptr_new q) [
      | true ↦ ok (prev, some q)
      | false ↦ place_loop n mem ptr_new q
    ]
  ]

-- `*(int*)q != -1 ? *(int*)p + *(int*)q : -1`
abbrev pub join_next : ℤ → ℤ → ℤ
join_next d e = if eqb_ℤ e (negsuc 0) then negsuc 0 else d +ℤ e

-- The header of the chunk `q`, which follows the chunk `p`, is given up to it.
pub join : (debug : ℕ) → Memory → ℕ → ℕ → Outcome Memory
join debug mem p q = do
  d ← load mem p
  e ← load mem q
  mem1 ← store mem p (join_next d e)
  a ← load mem1 (p + 4)
  b ← load mem1 (q + 4)
  mem2 ← store mem1 (p + 4) (a +ℤ b +ℤ pos 8)
  if debug == 1 then fill (rounds q (q + 8)) mem2 q free_pattern else ok mem2

-- The merge with the next free chunk.
pub merge_next : (debug : ℕ) → Memory → ℕ → ℕ → Ptr → Outcome Memory
unfolding join
merge_next debug mem ptr_new additional none = ok mem
merge_next debug mem ptr_new additional (some next) = do
  d ← load mem ptr_new
  if not (eqb_ℤ d (negsuc 0)) && ptr_new + 8 + additional == next
      then join debug mem ptr_new next
      else ok mem

-- The merge with the free chunk before.
pub merge_prev : (debug : ℕ) → Memory → ℕ → ℕ → Outcome Memory
unfolding join
merge_prev debug mem prev ptr_new = do
  a ← load mem (prev + 4)
  if offset (prev + 8) a == ptr_new then join debug mem prev ptr_new else ok mem

-- The chunk is linked in behind `prev`, and merged.
unfoldable pub insert_chunk : (debug : ℕ) → Memory → ℕ → ℕ → ℕ × Ptr → Outcome Memory
unfolding merge_next merge_prev
insert_chunk debug mem ptr_new additional (prev, next) = do
  mem1 ← store mem ptr_new (elim next [ none ↦ negsuc 0 | some q ↦ sub_ℕ q ptr_new ])
  mem2 ← store mem1 (ptr_new + 4) (pos additional)
  mem3 ← if debug == 1 then fill (rounds 0 additional) mem2 (ptr_new + 8) free_pattern else ok mem2
  mem4 ← store mem3 prev (sub_ℕ ptr_new prev)
  mem5 ← merge_next debug mem4 ptr_new additional next
  merge_prev debug mem5 prev ptr_new

-- Whether both paddings of a block still hold their pattern, where debug mode asks for it.
pub paddings_are_filled : State → ℕ → ℕ → Outcome Bool
paddings_are_filled s ptr size =
    if s.debug_enable == 1
    then (do
      above ← is_filled (rounds 0 s.padding_size) s.mem (ptr - s.padding_size) padding_pattern
      elim above [
        | true ↦ is_filled (rounds 0 s.padding_size) s.mem (ptr + size) padding_pattern
        | false ↦ ok false
      ])
    else ok true

-- From the size of the block on.
unfoldable pub free_block : ℕ → State → ℕ → ℕ → ℤ → Outcome (ℤ × State)
unfolding paddings_are_filled insert_chunk place_loop
free_block n s header ptr (negsuc size) = ok (negsuc 0, record s { m_error = e_bad_pointer })
free_block n s header ptr (pos size) =
    let ptr_new = ptr - s.padding_size - 8 in
    do
      intact ← paddings_are_filled s ptr size
      elim intact [
        | false ↦ ok (negsuc 0, record s { m_error = e_padding_overwritten })
        | true ↦ (do
          place ← place_loop n s.mem ptr_new header
          mem ← insert_chunk s.debug_enable s.mem ptr_new (size + 2 * s.padding_size) place
          ok (pos 0, record s { mem = mem }))
      ]

unfoldable pub mem_free : ℕ → State → Ptr → Outcome (ℤ × State)
unfolding free_block
mem_free n s none = ok (pos 0, s)
mem_free n s (some ptr) = elim s.ptr_header [
  | none ↦ ok (negsuc 0, record s { m_error = e_bad_pointer })
  | some header ↦
      if ltb ptr header || leb (header + s.total_size) ptr
      then ok (negsuc 0, record s { m_error = e_bad_pointer })
      else load s.mem (ptr - s.padding_size - 8) >>= free_block n s header ptr
]
