-- ===== src/Paging/Descend.antt =====
-- One step of a mapping down the tree: the next table is found or made, and the tree stays a tree.
mod Link
mod Step
pub use Link.{Linked, linked, entry-linked, Linked-IsTree, walk-Linked, not_a_table}
pub use Step.{Kept, Kept-trans, Descended, next_table-present, next_table-Descended, Reaches-Kept}
