-- ===== src/Syntax.antt =====
-- syntax/: the concrete syntax tree, its builder, and the category of a token.
pub mod NodeKind
pub mod NodeNames
pub mod NodeValue
pub mod View
pub mod ViewEdges
pub mod Category
pub mod Tree
pub mod Calls
pub mod Leaves
pub mod Ids
pub mod Spans
pub mod Highlight
mod Tests
