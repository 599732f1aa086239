-- ===== src/Myjql.antt =====
-- src/myjql.c: the store, on an index, a table of records and a table of strings.
--
-- The operations of the two tables are parameters, and the index is that of src/b_tree.c over them.
-- Rows: the records, the comparisons and the handlers of the index. Ops: the operations. Stored: the
-- table of records in one of src/table.c. Keys: what the comparison of rows compares. Index: the index
-- under it. `none` is undefined behaviour.
pub mod Rows
pub mod Ops
pub mod Keys
pub mod Index
pub mod Stored
mod Sample
mod Tests
