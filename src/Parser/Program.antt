-- ===== src/Parser/Program.antt =====
-- parser/parser.c: `parse_program` and `parse_source`. Every recursive call of a routine is at a
-- state with less left than its caller had, so the routines for all states are built from those for
-- states with less left.
use arche.Base.{ℕ, zero, suc, refl, arith, true, List}
use arche.Base.{if◌then◌else◌, Bytes}
use arche.Lexer.State.{lexer_init}
use arche.Lexer.Next.{is_eof}
use arche.Syntax.NodeKind.{sn_error}
use arche.Syntax.Tree.{SyntaxNode, syntax_builder_finish, count}
use arche.Parser.State.{Parser, ParseError, wrap, synchronize, parser_create}
use arche.Parser.Measure.{left}
use arche.Parser.Steps.{synchronizes, flags, wraps, Steps, none_made, one_made, joined}
use arche.Parser.Monad.{fresh, inside, moved, fresh_begun, Ran, returned, failed, M}
use arche.Parser.Recursion.{Proc, called}
use arche.Parser.Procs.{Procs}
use arche.Parser.Types.{parse_type_form}
use arche.Parser.Expressions.{parse_unary_expr, binary_fold, parse_expression}
use arche.Parser.Blocks.{parse_statement}
use arche.Parser.Regions.{parse_decl, decl_item}

-- A routine for a state at which `n` bounds what is left.
unfoldable pub begin : {n : ℕ} {A : Type 0} → ((o : ℕ) → M n o fresh moved A) → Proc (suc n) A
begin m p h = called ((m (left p)).run p (omega arith, omega arith)) refl

-- The routines of the file, for states with less than `n` left.
unfoldable pub routines : (n : ℕ) → Procs n
unfolding begin
routines zero = record {
  type_form = λ p h. elim h [ ];
  unary_expr = λ p h. elim h [ ];
  operator_rest = λ cp min_prec p h. elim h [ ];
  expression = λ p h. elim h [ ];
  statement = λ p h. elim h [ ];
  decl = λ p h. elim h [ ];
}
routines (suc n) =
    let r = routines n in
    record {
      type_form = begin (λ o. parse_type_form r);
      unary_expr = begin (λ o. parse_unary_expr r);
      operator_rest = λ cp min_prec. begin (λ o. binary_fold r cp min_prec);
      expression = begin (λ o. parse_expression r);
      statement = begin (λ o. parse_statement r);
      decl = begin (λ o. parse_decl r);
    }

-- A state, and the steps from `p` to it.
abbrev pub Reached : Parser → Type 0
Reached p = (q : Parser) × Steps p q

-- What `parse_program` does with a declaration that began at the checkpoint `cp`.
abbrev pub settle : {p : Parser} {n o : ℕ} → ℕ → Ran p n o moved (Unit {0}) → Reached p
settle cp (returned a q s h) = (q, s)
settle cp (failed q s) = (
  wrap cp sn_error (synchronize q),
  joined s (joined (one_made (synchronizes q)) (one_made (wraps (synchronize q) cp sn_error))),
)

-- `parse_decl` at the state `p`, and the node of the declaration.
unfoldable pub decl_run : (p : Parser) → Ran p (suc (left p)) (left p) moved (Unit {0})
decl_run p =
    let item : M (suc (left p)) (left p) inside moved (Unit {0}) =
      decl_item (routines (suc (left p))) (count p.builder.items) in
    item.run p (omega arith, omega arith)

-- A round of the loop of `parse_program`.
unfoldable pub top_level_decl : (p : Parser) → Reached p
top_level_decl p = settle (count p.builder.items) (decl_run p)

-- The loop, with the rounds of MAX_DECL_LOOP that are left.
unfoldable pub decl_loop : ℕ → (p : Parser) → Reached p
decl_loop zero p =
    if is_eof p.current.kind
    then (p, none_made p)
    else (record p { had_error = true }, one_made (flags p))
decl_loop (suc rounds) p =
    let this = top_level_decl p in
    let rest = decl_loop rounds this.0 in
    if is_eof p.current.kind then (p, none_made p) else (rest.0, joined this.1 rest.1)

pub record ParseResult : Type 0 where
  pub errors : List ParseError
  pub syntax_root : SyntaxNode

abbrev pub max_decl_loop : ℕ
max_decl_loop = 10000

unfoldable pub parse_program : Parser → ParseResult
unfolding syntax_builder_finish
parse_program p =
    let q = (decl_loop max_decl_loop p).0 in
    record { errors = q.errors; syntax_root = (syntax_builder_finish q.builder).0 }

-- The counter of node ids stands at `g`.
unfoldable pub parse_source : ℕ → Bytes → ParseResult
parse_source g src = parse_program (parser_create g (lexer_init src))
