-- ===== src/Parser/Operands.antt =====
-- parser/parser.c, `parse_primary_expr`: entity literals, names and what follows them, and the other
-- operands of an expression.
use arche.Parser.Shared.{ℕ, Bool, not, ◌&&◌, ◌||◌, if◌then◌else◌, ◌+◌, ltb, Stage, inside}
use arche.Parser.Shared.{moved}
use arche.Parser.Shared.{Begun, fresh_begun, inside_begun, moved_begun, M, ◌>>=◌, ◌>>◌, done}
use arche.Parser.Shared.{stop}
use arche.Parser.Shared.{reads, when, call, call_first, loop, Procs, syntax_wrap, syntax_cp}
use arche.Parser.Shared.{if_state, if_at, cur_ident_is, on, expect, take, accept, repeat}
use arche.Parser.Shared.{optional_list, trailing_list, is, SyntaxNodeKind}
use arche.Lexer.Kind.{tok_ident, tok_lparen, tok_rparen, tok_lbrace, tok_rbrace, tok_lbracket}
use arche.Lexer.Kind.{tok_comma, tok_dot, tok_colon, tok_plus, tok_star, tok_lt, tok_gt}
use arche.Syntax.NodeKind.{sn_literal_expr, sn_name_expr, sn_field_expr, sn_index_expr}
use arche.Syntax.NodeKind.{sn_slice_expr, sn_call_expr, sn_entity_expr, sn_tuple_lit}
use arche.Syntax.NodeKind.{sn_paren_expr, sn_field_name, sn_callee_name}
use arche.Parser.Kernels.{parse_bracket_index_or_slice, sum_expr}

abbrev pub paren_kind : ℕ → SyntaxNodeKind
paren_kind nelem = if ltb 1 nelem then sn_tuple_lit else sn_paren_expr

abbrev pub bracket_kind : Bool → SyntaxNodeKind
bracket_kind is_slice = if is_slice then sn_slice_expr else sn_index_expr

module _ {n : ℕ} (r : Procs n) where
  abbrev pub expression_first : {o : ℕ} → M n o inside moved (Unit {0})
  expression_first = call_first r.expression

  module _ {o : ℕ} where
    -- `if (!check(TOK_RPAREN)) do { parse_expression; nelem++; } while (…);`: how many.
    unfoldable pub tuple_elements : M n o moved moved ℕ
    tuple_elements = if_at tok_rparen (done 0) (
        loop
          (λ o again nelem. do
            call_first r.expression
            on tok_comma (if_at tok_rparen (stop (nelem + 1)) (again (nelem + 1)))
                (stop (nelem + 1)))
          0)

    -- The elements between parentheses, where a comma may stand before the closing one.
    unfoldable pub paren_elements : M n o moved moved ℕ
    paren_elements = if_at tok_rparen (done 0) (
        loop
          (λ o again nelem.
            if_at tok_rparen (stop nelem)
              (do call_first r.expression; on tok_comma (again (nelem + 1)) (stop (nelem + 1))))
          0)

  module _ {o : ℕ} where
    -- The value of a field: a tuple in parentheses, or an expression.
    unfoldable pub field_value : M n o moved moved (Unit {0})
    field_value = do
      tup_cp ← syntax_cp
      on tok_lparen
          (do
            nelem ← tuple_elements
            expect tok_rparen "Expected ')' to close tuple value"
            syntax_wrap tup_cp (paren_kind nelem))
          (call r.expression)

  module _ {o : ℕ} where
    unfoldable pub entity_field : M n o inside moved (Unit {0})
    entity_field = do
      field_name_cp ← syntax_cp
      expect tok_ident "Expected field name in entity literal"
      syntax_wrap field_name_cp sn_field_name
      expect tok_colon "Expected ':' after field name in entity literal"
      field_value

  module _ {o : ℕ} where
    -- Behind the `{`.
    unfoldable pub entity_expr : M n o moved moved SyntaxNodeKind
    entity_expr = do
      trailing_list tok_rbrace (λ o. entity_field)
      expect tok_rbrace "Expected '}' to close entity literal"
      done sn_entity_expr

    -- Arguments behind the `(`, up to and with the `)`.
    unfoldable pub call_arguments : M n o moved moved SyntaxNodeKind
    call_arguments = do
      optional_list tok_rparen (λ o. expression_first)
      expect tok_rparen "Expected ')' after arguments"
      done sn_call_expr

  -- A field's name behind a `.`.
  unfoldable pub field_name : {o : ℕ} {i : Stage} ⦃b : Begun i⦄ → M n o i moved (Unit {0})
  field_name = do
    field_name_cp ← syntax_cp
    expect tok_ident "Expected field name after '.'"
    syntax_wrap field_name_cp sn_field_name

  module _ {o : ℕ} where
    -- Behind the first `.`: `a.b.c`, then an index, a slice or a call.
    unfoldable pub field_access : M n o moved moved SyntaxNodeKind
    field_access = do
      repeat λ o again. field_name >> on tok_dot again (stop tt)
      on tok_lbracket (do is_slice ← parse_bracket_index_or_slice r; done (bracket_kind is_slice))
          (on tok_lparen call_arguments (done sn_field_expr))

    -- `+` or `*` as the first argument of `reduce` or `scan`.
    unfoldable pub monoid_operator : M n o moved moved (Unit {0})
    monoid_operator = do
      op_cp ← syntax_cp
      when (λ k. is tok_plus k || is tok_star k)
          (do syntax_wrap op_cp sn_literal_expr; accept tok_comma) (done tt)

    -- Behind the `(` of a call by name.
    unfoldable pub named_call : Bool → M n o moved moved SyntaxNodeKind
    named_call is_collective = do
      if_at tok_rparen (done tt) (do
        if is_collective then monoid_operator else done tt
        repeat λ o again.
            if_at tok_rparen (stop tt)
              (do expression_first; on tok_comma (if_at tok_rparen (stop tt) again) (stop tt)))
      expect tok_rparen "Expected ')' after arguments"
      done sn_call_expr

  module _ {o : ℕ} where
    -- Behind the `<` of `table<Name>`.
    unfoldable pub table_name : M n o moved moved SyntaxNodeKind
    table_name = do
      expect tok_ident "Expected archetype name in 'table<'"
      expect tok_gt "Expected '>' after archetype name in 'table<...>'"
      done sn_name_expr

    -- What follows a name, whose node would begin at `prim_name_cp`.
    unfoldable pub after_name : ℕ → Bool → M n o moved moved SyntaxNodeKind
    after_name prim_name_cp is_collective = on tok_dot field_access (
        on tok_lbracket (do is_slice ← parse_bracket_index_or_slice r; done (bracket_kind is_slice))
          (if_at tok_lparen
            (do syntax_wrap prim_name_cp sn_callee_name; take tok_lparen; named_call is_collective)
            (done sn_name_expr)))

  module _ {o : ℕ} {i : Stage} ⦃b : Begun i⦄ where
    unfoldable pub name_expr : M n o i moved SyntaxNodeKind
    name_expr = do
      prim_name_cp ← syntax_cp
      is_table ← cur_ident_is "table"
      is_sum ← cur_ident_is "sum"
      is_reduce ← cur_ident_is "reduce"
      is_scan ← cur_ident_is "scan"
      take tok_ident
      no_brace_lit ← reads (λ p. p.no_brace_lit)
      if_state (λ p. is_table && is tok_lt p.current.kind) (take tok_lt >> table_name)
          (if_state (λ p. is_sum && is tok_lbrace p.current.kind) (take tok_lbrace >> sum_expr r)
            (if_state (λ p. is tok_lbrace p.current.kind && not no_brace_lit)
              (take tok_lbrace >> entity_expr) (after_name prim_name_cp (is_reduce || is_scan))))
