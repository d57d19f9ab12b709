-- ===== src/Semantic.antt =====
-- semantic/sem_types.c: the arena of types; semantic/sem_model.c: the tables of facts about nodes.
pub mod TypeNode
pub mod Arena
pub mod Interning
pub mod Usable
pub mod Columns
pub mod Model
pub mod Facts
pub mod Tables
pub mod Setters
pub mod Hints
pub mod HintFacts
pub mod HintSetters
mod Tests
