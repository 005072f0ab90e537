-- ===== src/Allocator.antt =====
-- p3/mem.c. `mem` is the memory as it is read through `int` pointers: an address that is not aligned,
-- or not mapped, has no cell, and an access to it is a fault. A request whose sum with its header
-- overflows an `int` is undefined; the chunks lie in a region whose size is an `int`. `mmap` is a parameter.
pub mod Free
pub mod FreeList
pub mod Search
pub mod Blocks
pub mod Alloc
pub mod Init
mod Examples
use sp.Base.{
  ℕ, zero, suc, ◌+◌, ◌-◌, ◌*◌, ◌/◌, ◌^◌, Bool, true, false, not, ◌&&◌, ◌||◌, Option, none, some,
  ◌==◌, ltb, leb, if◌then◌else◌, ℤ, pos, negsuc, ◌+ℤ◌, ◌-ℤ◌, ltb_ℤ, leb_ℤ, eqb_ℤ, Outcome, ok,
  fault, hang, ◌>>=◌, Array, load, store,
}

abbrev pub Ptr : Type 0
Ptr = Option ℕ

abbrev pub Memory : Type 0
Memory = Array ℤ

-- The global variables.
pub record State : Type 0 where
  pub debug_enable : ℕ
  pub m_error : ℕ
  pub ptr_header : Ptr
  pub initialized : ℕ
  pub padding_size : ℕ
  pub total_size : ℕ
  pub mem : Memory

abbrev pub e_no_space : ℕ
e_no_space = 1

abbrev pub e_corrupt_freespace : ℕ
e_corrupt_freespace = 2

abbrev pub e_padding_overwritten : ℕ
e_padding_overwritten = 3

abbrev pub e_bad_args : ℕ
e_bad_args = 4

abbrev pub e_bad_pointer : ℕ
e_bad_pointer = 5

-- The patterns as `int`: 0xDEADBEEF and 0xABCDDCBA, minus 2^32.
abbrev pub free_pattern : ℤ
free_pattern = negsuc (2 ^ 32 - 0xDEADBEEF - 1)

abbrev pub padding_pattern : ℤ
padding_pattern = negsuc (2 ^ 32 - 0xABCDDCBA - 1)

-- `(char*)p + n`
unfoldable pub offset : ℕ → ℤ → ℕ
offset p (pos n) = p + n
offset p (negsuc n) = p - suc n

-- The rounds of a loop from `from` below `to` by four bytes.
abbrev pub rounds : ℕ → ℕ → ℕ
rounds from to = (to - from + 3) / 4

-- `for (tmp = p; tmp < to; tmp++) *tmp = v;`
unfoldable pub fill : ℕ → Memory → ℕ → ℤ → Outcome Memory
fill zero mem p v = ok mem
fill (suc n) mem p v = do mem' ← store mem p v; fill n mem' (p + 4) v

-- Whether every cell of a range has the value.
unfoldable pub is_filled : ℕ → Memory → ℕ → ℤ → Outcome Bool
is_filled zero mem p v = ok true
is_filled (suc n) mem p v = do
  x ← load mem p
  elim (eqb_ℤ x v) [ true ↦ is_filled n mem (p + 4) v | false ↦ ok false ]

-- `*(int*)p != -1 ? (char*)p + *(int*)p : NULL`
unfoldable pub next_of : Memory → ℕ → Outcome Ptr
unfolding offset
next_of mem p = do d ← load mem p; ok (if eqb_ℤ d (negsuc 0) then none else some (offset p d))

pub record Mapping : Type 0 where
  pub base : ℕ
  pub cells : Memory

-- `Mem_Init`; the pointer MAP_FAILED is -1, which names no cell.
unfoldable pub mem_init : (mmap : ℕ → Option Mapping) → State → ℤ → ℕ → Outcome (ℤ × State)
unfolding fill
mem_init mmap s (negsuc region) debug = ok (negsuc 0, record s { m_error = e_bad_args })
mem_init mmap s (pos region) debug =
    if s.initialized == 1 || region == 0
    then ok (negsuc 0, record s { m_error = e_bad_args })
    else (let total = region + 8 in
        elim (mmap total) [
          | none ↦ ok (
            negsuc 0,
            record s {
              initialized = 1;
              total_size = total;
              ptr_header = some (2 ^ 64 - 1);
              m_error = e_bad_args;
            },
          )
          | some m ↦ (do
            mem1 ← store m.cells m.base (negsuc 0)
            mem2 ← store mem1 (m.base + 4) (pos region)
            mem3 ←
                if debug == 1 then fill (rounds 8 total) mem2 (m.base + 8) free_pattern else ok mem2
            ok (
              pos 0,
              record s {
                initialized = 1;
                total_size = total;
                ptr_header = some m.base;
                padding_size = if debug == 1 then 64 else 0;
                debug_enable = if debug == 1 then 1 else s.debug_enable;
                mem = mem3;
              },
            ))
        ])

-- Takes the block from the end of a free chunk with more space than needed. The size of the chunk is
-- read again after each store.
unfoldable pub take_end : Memory → ℕ → ℤ → ℕ → ℕ → Outcome (Ptr × Memory)
unfolding offset
take_end mem w avail size pad = do
  mem1 ← store mem (w + 4) (avail -ℤ pos (size + pad * 2 + 8))
  a ← load mem1 (w + 4)
  mem2 ← store mem1 (offset (w + 8) a) (pos size)
  b ← load mem2 (w + 4)
  ok (some (offset (w + 8) b + 8 + pad), mem2)

-- Unlinks a free chunk with exactly the space needed.
unfoldable pub take_whole : Memory → ℕ → Ptr → ℕ → Outcome (Ptr × Memory)
take_whole mem w none size = fault
take_whole mem w (some prev) size = do
  d ← load mem w
  e ← load mem prev
  mem1 ← store mem prev (if eqb_ℤ d (negsuc 0) then negsuc 0 else e +ℤ d)
  mem2 ← store mem1 w (pos size)
  ok (some (w + 8), mem2)

-- The search of `Mem_Alloc` for the first chunk that fits, with a round for each chunk and one more.
unfoldable pub search_loop : ℕ → Memory → ℕ → ℕ → ℕ → Ptr → Ptr → Outcome (Ptr × Memory)
search_loop zero mem header size pad w prev = hang
search_loop (suc n) mem header size pad none prev = ok (none, mem)
search_loop (suc n) mem header size pad (some w) prev = do
  avail ← load mem (w + 4)
  elim (ltb_ℤ (pos (size + pad * 2 + 8)) (avail +ℤ pos 8)) [
    | true ↦ take_end mem w avail size pad
    | false ↦ elim (not (w == header) && eqb_ℤ (avail +ℤ pos 8) (pos (size + pad * 2 + 8))) [
      | true ↦ take_whole mem w prev size
      | false ↦ next_of mem w >>= λ next. search_loop n mem header size pad next (some w)
    ]
  ]

-- Whether every free chunk still holds the pattern.
pub free_is_filled : ℕ → Memory → Ptr → Outcome Bool
unfolding is_filled next_of offset
free_is_filled zero mem w = hang
free_is_filled (suc n) mem none = ok true
free_is_filled (suc n) mem (some w) = do
  avail ← load mem (w + 4)
  filled ← is_filled (rounds (w + 8) (offset (w + 8) avail)) mem (w + 8) free_pattern
  next ← next_of mem w
  elim filled [ true ↦ free_is_filled n mem next | false ↦ ok false ]

-- The part of `Mem_Alloc` that debug mode adds, after a block is found.
pub debug_alloc : ℕ → State → ℕ → ℕ → ℕ → Outcome (Ptr × State)
unfolding fill free_is_filled
debug_alloc n s header ret size = do
  mem1 ← fill (rounds 0 s.padding_size) s.mem (ret - s.padding_size) padding_pattern
  mem2 ← fill (rounds 0 s.padding_size) mem1 (ret + size) padding_pattern
  filled ← free_is_filled n mem2 (some header)
  ok (
    if filled then some ret else none,
    if filled
        then record s { mem = mem2 }
        else record s { mem = mem2; m_error = e_corrupt_freespace },
  )

-- What follows the search. With `debug_enable` neither 0 nor 1 a block found is not returned.
unfoldable pub finish_alloc : ℕ → State → ℕ → ℕ → Ptr × Memory → Outcome (Ptr × State)
unfolding debug_alloc
finish_alloc n s header size (none, mem) = ok (none, record s { mem = mem; m_error = e_no_space })
finish_alloc n s header size (some ret, mem) =
    if s.debug_enable == 0
    then ok (some ret, record s { mem = mem })
    else (if s.debug_enable == 1
        then debug_alloc n (record s { mem = mem }) header ret size
        else ok (none, record s { mem = mem }))

-- `((size-1)/4+1) *4`
abbrev pub round_up : ℕ → ℕ
round_up size = ((size - 1) / 4 + 1) * 4

-- `Mem_Alloc` once the region is there, with rounds for its two walks along the free list. A request that with
-- its header and padding is no `int` overflows, which is undefined.
unfoldable pub alloc_from : ℕ → State → ℕ → ℤ → Outcome (Ptr × State)
unfolding search_loop finish_alloc
alloc_from n s header (negsuc size) = ok (none, s)
alloc_from n s header (pos zero) = ok (none, s)
alloc_from n s header (pos (suc k)) =
    if ltb (round_up (suc k) + s.padding_size * 2 + 8) (2 ^ 31)
    then (do
      found ← search_loop n s.mem header (round_up (suc k)) s.padding_size (some header) none
      finish_alloc n s header (round_up (suc k)) found)
    else fault

unfoldable pub mem_alloc : ℕ → State → ℤ → Outcome (Ptr × State)
unfolding alloc_from
mem_alloc n s size = elim s.ptr_header [
  | none ↦ ok (none, record s { m_error = e_no_space })
  | some header ↦ alloc_from n s header size
]
