-- ===== src/Visit.antt =====
-- Parts of the walk over the syntax tree of a file: src/visit.rs. What `syn` gives for an attribute is
-- in the data.
pub mod Operators
pub mod Attrs
pub mod Mods
pub mod Statements
pub mod Collect
pub mod Memo
mod Examples
