-- ===== src/Json.antt =====
-- JSON as the program's Python code sees it.
pub mod Value
pub mod Equality
