-- ===== src/Parser/Grammar.antt =====
-- Where the routines of parser/parser.c stop: an expression takes every operator that it can, and a
-- block every statement.
use arche.Base.{ℕ, ◌≡◌, refl, arith, false, none}
use arche.Lexer.Kind.{TokenKind, tok_star, tok_rbrace}
use arche.Parser.State.{Parser}
use arche.Parser.Monad.{Stage, moved, at_inside, Begun, Ran, returned, failed, M}
use arche.Parser.Monad.{reads, stop, At}
use arche.Parser.Routines.{syntax_cp}
use arche.Parser.Procs.{Procs}
use arche.Parser.Expressions.{binop_prec, binds, binary_operand, parse_binary_rhs}
use arche.Parser.Expressions.{parse_unary_expr}
use arche.Parser.Expressions.{parse_binary_expr, parse_expression}
use arche.Parser.Forms.{statements}
use arche.Parser.Measure.{left}
use arche.Parser.Results.{Anything, Yielding, Returns, Succeeds, Ensures, Ensures-bind}
use arche.Parser.Results.{Ensures-when}
use arche.Parser.Results.{Yielding-loop}
use arche.Parser.Results.{while_each-Succeeds, Closed}

-- The token behind binds less tightly than `min_prec`.
abbrev pub Unbound : ℕ → Unit {0} → Parser → Type 0
Unbound min_prec _ q = binds min_prec q.current.kind ≡ false

module _ {n : ℕ} (r : Procs n) where
  binary_rhs-Unbound :
      (o : ℕ) (left_cp min_prec : ℕ)
      → Ensures (Unbound min_prec) (parse_binary_rhs r {o = o} left_cp min_prec)
  unfolding parse_binary_rhs binds
  binary_rhs-Unbound o left_cp min_prec =
      Yielding-loop o Anything (Unbound min_prec) _
        (λ o again ih s. Ensures-bind (Unbound min_prec) (reads (λ p. p.current.kind)) _ (λ op.
          Ensures-when at_inside (Unbound min_prec) (binds min_prec) _ (stop tt) refl
            (Ensures-bind (Unbound min_prec) (binary_operand r left_cp op) _ (λ _. ih tt))
            (λ p h f. f)))
        tt

-- Every operator binds at least as tightly as 1.
unbound-none : (k : TokenKind) → binds 1 k ≡ false → binop_prec k ≡ none
unfolding binds binop_prec
unbound-none tok_star e = cc
unbound-none _ e = ground arith

abbrev pub NoOperator : Unit {0} → Parser → Type 0
NoOperator _ q = binop_prec q.current.kind ≡ none

Returns-none :
    {p : Parser} {n o : ℕ} {j : Stage} (x : Ran p n o j (Unit {0}))
    → Returns (Unbound 1) x
    → Returns NoOperator x
Returns-none (returned a q s h) y = unbound-none q.current.kind y
Returns-none (failed q s) y = tt

Ensures-none :
    {n o : ℕ} {i j : Stage} (m : M n o i j (Unit {0}))
    → Ensures (Unbound 1) m
    → Ensures NoOperator m
unfolding Yielding
Ensures-none m e p h = Returns-none (m.run p h) (e p h)

module _ {n : ℕ} (r : Procs n) where
  expression-Ensures :
      (o : ℕ) {i : Stage} (b : Begun i) → Ensures NoOperator (parse_expression r {o = o} ⦃b = b⦄)
  unfolding parse_expression parse_binary_expr
  expression-Ensures o b = Ensures-none _ (
      Ensures-bind (Unbound 1) syntax_cp _ (λ left_cp.
        Ensures-bind (Unbound 1) (parse_unary_expr r ⦃b = b⦄) _
          (λ _. binary_rhs-Unbound r o left_cp 1)))

  -- An expression that parses is as long as it can be: the token behind it is no binary operator.
  pub expression-maximal :
      (o : ℕ) {i : Stage} (b : Begun i) (p : Parser) (h : At i n o (left p))
      → Returns NoOperator ((parse_expression r ⦃b = b⦄).run p h)
  unfolding Yielding
  expression-maximal o b p h = expression-Ensures o b p h

  -- The statements of a block end at its `}`, or at the end of the source, and the loop over them does
  -- not fail, from any state and whatever the routine for a statement does: where a statement fails,
  -- the loop recovers and goes on.
  pub statements-Closed :
      (o : ℕ) (p : Parser) (h : At moved n o (left p))
      → Succeeds (Closed tok_rbrace) ((statements r).run p h)
  unfolding statements Yielding
  statements-Closed o p h = while_each-Succeeds o tok_rbrace _ p h
