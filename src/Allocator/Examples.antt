-- ===== src/Allocator/Examples.antt =====
-- p3/mem.c: the theorems at concrete inputs.
use sp.Base.{
  ℕ, ◌+◌, ◌%◌, ◌≤◌, ◌<◌, ◌≡◌, refl, ◌&&◌, none, some, List, [], ◌∷◌, arith, ◌==◌, ltb, leb,
  if◌then◌else◌, ℤ, pos, negsuc, ok, ℕ_discrete,
}
use sp.Allocator.{State, Mapping, mem_alloc}
use sp.Allocator.FreeList.{Chunk, fit}
use sp.Allocator.Alloc.{Ready, Serves, mem_alloc_lem, mem_alloc_sliver}
use sp.Allocator.Free.{mem_free}
use sp.Allocator.Free.Release.{release, Coalesced}
use sp.Allocator.Free.Place.{IsBlock}
use sp.Allocator.Free.Whole.{Returned, mem_free_lem}
use sp.Allocator.Free.RoundTrip.{alloc_then_free, Restored, alloc_then_free_lem, mem_free-Coalesced}

-- A mapping at the second page, all zero.
abbrev zeros : ℕ → Mapping
zeros total = record {
  base = 4096;
  cells = λ a. if leb 4096 a && ltb a (4096 + total) && a % 4 == 0 then some (pos 0) else none;
}

abbrev fresh_state : State
fresh_state = record {
  debug_enable = 0;
  m_error = 0;
  ptr_header = none;
  initialized = 0;
  padding_size = 0;
  total_size = 0;
  mem = λ a. none;
}

-- One chunk at the second page.
abbrev whole : ℕ → List Chunk
whole region = record { at = 4096; avail = region } ∷ []

-- The memory right after `Mem_Init`.
abbrev started : ℕ → State
started region = record fresh_state {
  ptr_header = some 4096;
  mem = λ a.
      if a == 4096
      then some (negsuc 0)
      else if a == 4100
      then some (pos region)
      else (zeros (region + 8)).cells a;
}

started-Ready : (region : ℕ) → region % 4 ≡ 0 → Ready (started region) (whole region)
started-Ready region words = record {
  header = refl;
  list = (
    record { next = refl; size = refl; aligned = refl; whole = words; room = room; before = tt },
    tt,
  );
  no_padding = refl;
  no_debug = refl;
}
  where
    room :
        (a : ℕ)
        → 4096 ≤ a
        → a < 4096 + 8 + region
        → a % 4 ≡ 0
        → (x : ℤ) × ((started region).mem a ≡ some x)
    room a lo hi al = elim (ℕ_discrete a 4096) [
      | yes e ↦ (negsuc 0, ground arith)
      | no ne ↦ elim (ℕ_discrete a 4100) [
        | yes e ↦ (pos region, ground arith)
        | no ne' ↦ (pos 0, ground arith)
      ]
    ]

mem_alloc_lem_example :
    Serves (started 32) 4096 (whole 32) 8 (fit 4096 8 (whole 32)) (mem_alloc 3 (started 32) (pos 8))
mem_alloc_lem_example =
    mem_alloc_lem 3 (started 32) 7 (record { at = 4096; avail = 32 }) [] (omega arith) (omega arith)
      (started-Ready 32 refl) (omega arith)

-- A region of 12 bytes, and a request for 8: the block starts behind the region.
mem_alloc_sliver_example :
    (s : State) × (mem_alloc 2 (started 12) (pos 8) ≡ ok (some 4120, s))
    × (s.mem 4100 ≡ some (pos 8))
mem_alloc_sliver_example =
    mem_alloc_sliver 1 (started 12) 7 (record { at = 4096; avail = 12 }) [] (started-Ready 12 refl)
      refl (omega arith)

-- A chunk of 16 bytes at the second page, and behind it a block of 8.
abbrev served : State
served = record fresh_state {
  ptr_header = some 4096;
  total_size = 40;
  mem = λ a.
      if a == 4096
      then some (negsuc 0)
      else if a == 4100
      then some (pos 16)
      else if a == 4120
      then some (pos 8)
      else (zeros 40).cells a;
}

served_cell : (a : ℕ) → 4096 ≤ a → a < 4136 → a % 4 ≡ 0 → (x : ℤ) × (served.mem a ≡ some x)
served_cell a lo hi al = elim (ℕ_discrete a 4096) [
  | yes e ↦ (negsuc 0, ground arith)
  | no ne ↦ elim (ℕ_discrete a 4100) [
    | yes e ↦ (pos 16, ground arith)
    | no ne' ↦ elim (ℕ_discrete a 4120) [
      | yes e ↦ (pos 8, ground arith)
      | no ne'' ↦ (pos 0, ground arith)
    ]
  ]
]

abbrev free_chunk : Chunk
free_chunk = record { at = 4096; avail = 16 }

abbrev served_block : Chunk
served_block = record { at = 4120; avail = 8 }

served-Ready : Ready served (free_chunk ∷ [])
served-Ready = record {
  header = refl;
  list = (
    record {
      next = refl;
      size = refl;
      aligned = refl;
      whole = refl;
      room = λ a lo hi al. served_cell a lo (omega arith) al;
      before = tt;
    },
    tt,
  );
  no_padding = refl;
  no_debug = refl;
}

served-IsBlock : IsBlock served.mem served_block
served-IsBlock = record {
  aligned = refl;
  whole = refl;
  room = λ a lo hi al. served_cell a (omega arith) (omega arith) al;
}

mem_free_lem_example :
    Returned served served_block
      (free_chunk ∷ [])
      (release served_block free_chunk [])
      (mem_free 1 served (some 4128))
mem_free_lem_example =
    mem_free_lem 1 served served_block free_chunk [] (omega arith) served-Ready served-IsBlock refl
      (omega arith) tt (omega arith)

mem_free-Coalesced_example :
    (after : State) × (new : List Chunk) × (mem_free 1 served (some 4128) ≡ ok (pos 0, after))
    × Ready after new
    × Coalesced new
mem_free-Coalesced_example =
    mem_free-Coalesced 1 served served_block free_chunk [] (omega arith) served-Ready (tt, tt)
      served-IsBlock refl (omega arith) tt (omega arith)

abbrev with_region : State
with_region = record (started 32) { total_size = 40 }

with_region-Ready : Ready with_region (whole 32)
with_region-Ready =
    let r = started-Ready 32 refl in
    record { header = r.header; list = r.list; no_padding = r.no_padding; no_debug = r.no_debug }

alloc_then_free_lem_example : Restored (whole 32) (alloc_then_free 3 with_region (pos 8))
alloc_then_free_lem_example =
    alloc_then_free_lem 3 with_region 7 (record { at = 4096; avail = 32 }) [] (omega arith)
      (omega arith) with_region-Ready (omega arith) (tt, tt) (omega arith, tt)
