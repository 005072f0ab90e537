-- ===== src/Search.antt =====
-- p1/search.c: counting a keyword in files, and sorting the files by their counts.
pub mod Merge
pub mod Count
pub mod Main
mod Examples
