-- ===== src/Tests.antt =====
-- Concrete inputs: a row group of two columns, predicates on it, and the theorems at them.
mod Sort
mod Predicates
mod Columns
mod Rows
mod Strings
mod Files
mod Query
mod Closing
mod Groups
mod Calls
