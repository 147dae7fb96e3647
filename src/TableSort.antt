-- ===== src/TableSort.antt =====
-- webapps/admin/js/standardista-table-sorting.js: tables that are sorted by a click on a heading.
pub mod Inner
pub mod Keys
pub mod Order
pub mod Kinds
pub mod Table
pub mod Making
pub mod Loading
pub mod Ascending
pub mod InOrder
pub mod Descending
pub mod Sorted
