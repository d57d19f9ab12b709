-- ===== src/Parser/Procs.antt =====
-- The routines of parser/parser.c that others call recursively, as those others take them.
use arche.Base.{ℕ, Bool}
use arche.Syntax.NodeKind.{SyntaxNodeKind}
use arche.Parser.Recursion.{Proc}

pub record TypeForm : Type 0 where
  pub syntax_kind : SyntaxNodeKind
  pub is_type_meta : Bool

-- The routines, for states with less than `n` left.
pub record Procs (n : ℕ) : Type 0 where
  pub type_form : Proc n TypeForm
  pub unary_expr : Proc n (Unit {0})
  -- a `parse_binary_rhs` that has an operator before it, with its checkpoint and its least precedence
  pub operator_rest : ℕ → ℕ → Proc n (Unit {0})
  pub expression : Proc n (Unit {0})
  pub statement : Proc n (Unit {0})
  -- with the kind of the declaration
  pub decl : Proc n SyntaxNodeKind
