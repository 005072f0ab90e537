-- ===== src/Table.antt =====
-- p4-final/handin/list.c and hash.c, and their first versions in p4: a linked list under a lock, and
-- a hash table whose buckets are such lists.
pub mod Linked
pub mod Hash
mod Examples
