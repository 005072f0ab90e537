-- ===== src/Allocator/Init.antt =====
-- p3/mem.c: `Mem_Init` outside debug mode makes one free chunk of the whole region.
use sp.Base.{ℕ, ◌+◌, ◌%◌, ◌≤◌, ◌<◌, ◌≡◌, some, ℤ}
use sp.Allocator.{Mapping}

-- What `mmap` documents of a mapping: it starts at a page, and each word of it can be accessed.
pub record IsMapped (total : ℕ) (m : Mapping) : Type 0 where
  pub aligned : m.base % 4096 ≡ 0
  pub cells : (a : ℕ) → m.base ≤ a → a < m.base + total → a % 4 ≡ 0 → (x : ℤ) × (m.cells a ≡ some x)
