-- ===== src/Parser/Statements.antt =====
-- parser/parser.c: bindings, assignments and calls, which are the simple statements.
use arche.Parser.State.{syntax_single_node_kind}
use arche.Parser.Shared.{ℕ, Bool, true, false, ◌&&◌, ◌||◌, if◌then◌else◌, Stage, inside, moved}
use arche.Parser.Shared.{Begun, fresh_begun, inside_begun, moved_begun, M, ◌>>=◌, ◌>>◌, done}
use arche.Parser.Shared.{stop}
use arche.Parser.Shared.{when, call, Procs, refuse, syntax_wrap, syntax_cp, if_state, on}
use arche.Parser.Shared.{expect}
use arche.Parser.Shared.{take, accept, repeat, optional_list, TokenKind, is, SyntaxNodeKind}
use arche.Lexer.Kind.{tok_eof, tok_ident, tok_alias, tok_lparen, tok_rparen, tok_comma}
use arche.Lexer.Kind.{tok_colon}
use arche.Lexer.Kind.{tok_eq, tok_plus_eq, tok_minus_eq, tok_star_eq, tok_slash_eq}
use arche.Lexer.Kind.{tok_percent_eq}
use arche.Syntax.NodeKind.{sn_out_arg, sn_bind_stmt, sn_assign_stmt, sn_expr_stmt}
use arche.Syntax.NodeKind.{sn_multi_bind_stmt, sn_proc_call_stmt, sn_name_expr, sn_call_expr}
use arche.Syntax.NodeKind.{sn_arch_expr}
use arche.Parser.Types.{parse_type}
use arche.Parser.Expressions.{parse_expression}

abbrev is_arch_expr : SyntaxNodeKind → Bool
is_arch_expr sn_arch_expr = true
is_arch_expr _ = false

abbrev is_name_expr : SyntaxNodeKind → Bool
is_name_expr sn_name_expr = true
is_name_expr _ = false

abbrev is_call_expr : SyntaxNodeKind → Bool
is_call_expr sn_call_expr = true
is_call_expr _ = false

module _ {n : ℕ} (r : Procs n) {o : ℕ} where
  -- Behind the first comma of `a, b := e`.
  unfoldable pub multi_bind : M n o moved moved SyntaxNodeKind
  multi_bind = do
    repeat λ o again.
        if_state
          (λ p.
            is tok_colon p.current.kind || is tok_eq p.current.kind || is tok_eof p.current.kind)
          (stop tt)
          (do
            expect tok_ident "Expected variable name in multi-value binding"
            on tok_comma again (stop tt))
    on tok_colon (expect tok_eq "Expected '=' after ':' in multi-value binding")
        (expect tok_eq "Expected ':=' or '=' in multi-value binding")
    call r.expression
    done sn_multi_bind_stmt

  -- The value of `x := e` or `x :: e`, which is no archetype.
  unfoldable pub local_value : M n o moved moved (Unit {0})
  local_value = do
    rhs_cp ← syntax_cp
    call r.expression
    if_state (λ p. is_arch_expr (syntax_single_node_kind rhs_cp p))
        (refuse
          "archetypes must be declared at global scope — move this `arche { … }` shape out of the proc/block (anonymous `arche { … }` literals in expressions are fine)")
        (done tt)

  -- Behind the colon of `x : T`, `x : T = e` or `x : T : e`.
  unfoldable pub typed_binding : M n o moved moved (Unit {0})
  typed_binding = do
    tf ← call r.type_form
    on tok_colon (if tf.is_type_meta then parse_type r else call r.expression)
        (on tok_eq (call r.expression) (done tt))

  unfoldable pub parse_binding_tail : M n o moved moved SyntaxNodeKind
  parse_binding_tail = on tok_comma multi_bind (do
    on tok_colon
        (on tok_eq local_value (on tok_colon (accept tok_alias >> local_value) typed_binding))
        (on tok_eq (call r.expression) (refuse "Expected ':' or '=' after variable name"))
    done sn_bind_stmt)

  -- An argument `name`, `name:` or `name: T` of the list of outs.
  unfoldable pub out_argument_type : M n o moved moved (Unit {0})
  out_argument_type =
      if_state (λ p. is tok_rparen p.current.kind || is tok_comma p.current.kind) (done tt)
        (parse_type r)

module _ {n : ℕ} (r : Procs n) {o : ℕ} where
  unfoldable pub out_argument : M n o inside moved (Unit {0})
  out_argument = do
    out_arg_cp ← syntax_cp
    expect tok_ident "Expected out-argument name"
    on tok_colon (out_argument_type r) (done tt)
    syntax_wrap out_arg_cp sn_out_arg

module _ {n : ℕ} (r : Procs n) {o : ℕ} where
  -- Behind the second `(` of `foo(in)(out)`.
  unfoldable pub proc_call : M n o moved moved SyntaxNodeKind
  proc_call = do
    optional_list tok_rparen (λ o. out_argument r)
    expect tok_rparen "Expected ')' after out-arguments"
    done sn_proc_call_stmt

abbrev assigns : TokenKind → Bool
assigns k =
    is tok_eq k
    || is tok_plus_eq k
    || is tok_minus_eq k
    || is tok_star_eq k
    || is tok_slash_eq k
    || is tok_percent_eq k

module _ {n : ℕ} (r : Procs n) {o : ℕ} where
  -- What follows the expression that begins at `target_cp`.
  unfoldable pub after_target : ℕ → M n o moved moved SyntaxNodeKind
  after_target target_cp =
      if_state
        (λ p.
          is_name_expr (syntax_single_node_kind target_cp p)
          && (is tok_colon p.current.kind || is tok_comma p.current.kind))
        (parse_binding_tail r)
        (if_state
          (λ p. is_call_expr (syntax_single_node_kind target_cp p) && is tok_lparen p.current.kind)
          (take tok_lparen >> proc_call r)
          (when assigns (call r.expression >> done sn_assign_stmt) (done sn_expr_stmt)))

module _ {n : ℕ} (r : Procs n) {o : ℕ} {i : Stage} ⦃b : Begun i⦄ where
  unfoldable pub parse_simple_statement : M n o i moved SyntaxNodeKind
  parse_simple_statement = do target_cp ← syntax_cp; parse_expression r; after_target r target_cp
