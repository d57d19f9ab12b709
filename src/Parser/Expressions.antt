-- ===== src/Parser/Expressions.antt =====
-- parser/parser.c: primary, unary and binary expressions.
use arche.Base.{Option, none, some, leb}
use arche.Parser.State.{syntax_single_node}
use Prim.Native.String.{String}
use arche.Parser.Shared.{ℕ, Bool, true, false, ◌&&◌, ◌||◌, ◌+◌, Stage, moved, Begun}
use arche.Parser.Shared.{fresh_begun}
use arche.Parser.Shared.{inside_begun, moved_begun, M, ◌>>=◌, ◌>>◌, done, fail, stop, reads}
use arche.Parser.Shared.{when}
use arche.Parser.Shared.{call, call_first, loop, Procs, refuse, syntax_wrap, syntax_cp}
use arche.Parser.Shared.{if_state}
use arche.Parser.Shared.{if_at, on, expect, take, expect_or_report, repeat, optional_list}
use arche.Parser.Shared.{TokenKind, is, SyntaxNodeKind}
use arche.Lexer.Kind.{tok_ident, tok_number, tok_string, tok_char_lit, tok_archetype, tok_proc}
use arche.Lexer.Kind.{tok_map, tok_system, tok_query, tok_func, tok_move, tok_copy, tok_enum}
use arche.Lexer.Kind.{tok_policy, tok_lparen, tok_rparen, tok_lbrace, tok_rbrace, tok_lbracket}
use arche.Lexer.Kind.{tok_dot, tok_plus, tok_minus, tok_star, tok_slash, tok_percent, tok_eq_eq}
use arche.Lexer.Kind.{tok_bang_eq, tok_lt, tok_gt, tok_lt_eq, tok_gt_eq, tok_amp_amp}
use arche.Lexer.Kind.{tok_pipe_pipe, tok_pipe_gt, tok_bang, tok_question}
use arche.Syntax.NodeKind.{sn_literal_expr, sn_name_expr, sn_field_expr, sn_index_expr}
use arche.Syntax.NodeKind.{sn_slice_expr, sn_binary_expr, sn_unary_expr, sn_call_expr}
use arche.Syntax.NodeKind.{sn_array_lit_expr, sn_string_expr, sn_arch_expr, sn_query_expr}
use arche.Syntax.NodeKind.{sn_policy_ref}
use arche.Parser.Forms.{parse_query_columns, parse_group_form, arch_fields, parse_proc_form}
use arche.Parser.Forms.{parse_func_form, parse_policy_form}
use arche.Parser.Kernels.{parse_bracket_index_or_slice, map_expr, system_expr, enum_expr}
use arche.Parser.Operands.{paren_kind, bracket_kind, expression_first, paren_elements}
use arche.Parser.Operands.{field_name}
use arche.Parser.Operands.{name_expr}

module _ {n : ℕ} (r : Procs n) {o : ℕ} where
  -- Behind `archetype` in an expression.
  unfoldable pub arch_expr : M n o moved moved SyntaxNodeKind
  arch_expr = do
    expect tok_lbrace "Expected '{' after 'archetype'"
    arch_fields r
    expect_or_report tok_rbrace "Expected '}'"
    done sn_arch_expr

  -- Behind the `{` of an array literal.
  unfoldable pub array_literal : M n o moved moved SyntaxNodeKind
  array_literal = do
    optional_list tok_rbrace (λ o. expression_first r)
    expect tok_rbrace "Expected '}' after array literal"
    done sn_array_lit_expr

  -- Behind `proc`, whose form depends on the region it stands in.
  unfoldable pub proc_expr : M n o moved moved SyntaxNodeKind
  proc_expr =
      if_at tok_lbrace parse_group_form
        (do in_foreign ← reads (λ p. p.in_foreign); parse_proc_form r in_foreign)

  -- Behind the `(` of an operand that begins at `prim_start`. The kind is the one with which
  -- `parse_unary_expr` calls, since the operand is a node already.
  unfoldable pub paren_expr : ℕ → M n o moved moved SyntaxNodeKind
  paren_expr prim_start = do
    nelem ← paren_elements r
    expect_or_report tok_rparen "Expected ')' after expression"
    syntax_wrap prim_start (paren_kind nelem)
    done sn_name_expr

module _ {n : ℕ} (r : Procs n) {o : ℕ} {i : Stage} ⦃b : Begun i⦄ where
  -- The branches of `parse_primary_expr` from `policy` on.
  unfoldable pub keyword_expr : M n o i moved SyntaxNodeKind
  keyword_expr = on tok_policy (parse_policy_form r) (
      on tok_archetype (arch_expr r) (
        on tok_query (parse_query_columns >> done sn_query_expr) (
          on tok_map (map_expr r) (
            on tok_system (system_expr r) (
              on tok_enum enum_expr (
                if_at tok_ident (name_expr r) (do
                  prim_start ← syntax_cp
                  on tok_lparen (paren_expr r prim_start) (refuse "Expected expression"))))))))

  unfoldable pub parse_primary_expr : M n o i moved SyntaxNodeKind
  parse_primary_expr = on tok_number (done sn_literal_expr) (
      on tok_string (done sn_string_expr) (
        on tok_char_lit (done sn_literal_expr) (
          on tok_lbrace (array_literal r) (
            on tok_proc (proc_expr r)
              (on tok_func (if_at tok_lbrace parse_group_form (parse_func_form r)) keyword_expr)))))

-- The kinds behind which a policy may stand.
abbrev takes_policy : SyntaxNodeKind → Bool
takes_policy sn_index_expr = true
takes_policy sn_slice_expr = true
takes_policy sn_call_expr = true
takes_policy _ = false

-- The kinds that a further `.field` or `[index]` may follow.
abbrev may_continue : SyntaxNodeKind → Bool
may_continue sn_index_expr = true
may_continue sn_slice_expr = true
may_continue sn_call_expr = true
may_continue sn_field_expr = true
may_continue _ = false

-- The sigil's name, and the node of both.
unfoldable pub policy_name : {n o : ℕ} → ℕ → String → M n o moved moved (Unit {0})
policy_name pol_cp msg = expect tok_ident msg >> syntax_wrap pol_cp sn_policy_ref

unfoldable pub parse_opt_policy : {n o : ℕ} → SyntaxNodeKind → M n o moved moved (Unit {0})
parse_opt_policy kind = do
  pol_cp ← syntax_cp
  when (λ k. takes_policy kind && (is tok_bang k || is tok_question k))
      (policy_name pol_cp
        "Expected a policy name after the sigil (e.g. `a[i] !clamp`, `insert(P,x) ?reject`)")
      (done tt)

module _ {n : ℕ} (r : Procs n) {o : ℕ} where
  -- An index or slice behind the `[`, with its policy; its kind.
  unfoldable pub chained_bracket : M n o moved moved SyntaxNodeKind
  chained_bracket = do
    is_slice ← parse_bracket_index_or_slice r
    parse_opt_policy (bracket_kind is_slice)
    done (bracket_kind is_slice)

module _ {n : ℕ} (r : Procs n) {o : ℕ} where
  -- What follows an operand that begins at `p_cp` and has a kind so far: each round makes it the
  -- base of a field, an index or a slice. The kind of the last, whose node is not made yet.
  unfoldable pub postfix_chain : ℕ → SyntaxNodeKind → M n o moved moved SyntaxNodeKind
  postfix_chain p_cp = loop λ o again prim_kind.
      if_state
        (λ p.
          may_continue prim_kind && (is tok_dot p.current.kind || is tok_lbracket p.current.kind))
        (do
          syntax_wrap p_cp prim_kind
          on tok_dot
              (do repeat λ o again. field_name r >> on tok_dot again (stop tt); again sn_field_expr)
              (do take tok_lbracket; kind ← chained_bracket r; again kind))
        (stop prim_kind)

module _ {n : ℕ} (r : Procs n) {o : ℕ} {i : Stage} ⦃b : Begun i⦄ where
  -- An operand with its postfixes, as one node.
  unfoldable pub postfix_expr : M n o i moved (Unit {0})
  postfix_expr = do
    p_cp ← syntax_cp
    first_kind ← parse_primary_expr r
    parse_opt_policy first_kind
    prim_kind ← postfix_chain r p_cp first_kind
    if_state (syntax_single_node p_cp) (done tt) (syntax_wrap p_cp prim_kind)

  unfoldable pub parse_unary_expr : M n o i moved (Unit {0})
  parse_unary_expr = do
    u_cp ← syntax_cp
    when (λ k. is tok_move k || is tok_copy k) (call r.unary_expr >> syntax_wrap u_cp sn_unary_expr)
        (when (λ k. is tok_minus k || is tok_bang k)
          (call r.unary_expr >> syntax_wrap u_cp sn_unary_expr) postfix_expr)

-- `none` for the -1 of a token that is no binary operator.
unfoldable pub binop_prec : TokenKind → Option ℕ
binop_prec tok_star = some 5
binop_prec tok_slash = some 5
binop_prec tok_percent = some 5
binop_prec tok_plus = some 4
binop_prec tok_minus = some 4
binop_prec tok_lt = some 3
binop_prec tok_gt = some 3
binop_prec tok_lt_eq = some 3
binop_prec tok_gt_eq = some 3
binop_prec tok_eq_eq = some 3
binop_prec tok_bang_eq = some 3
binop_prec tok_amp_amp = some 2
binop_prec tok_pipe_pipe = some 1
binop_prec tok_pipe_gt = some 1
binop_prec _ = none

-- Whether a token binds at least as tightly as `min_prec`, which is at least 1.
unfoldable pub binds : ℕ → TokenKind → Bool
unfolding binop_prec
binds min_prec k = elim (binop_prec k) [ none ↦ false | some prec ↦ leb min_prec prec ]

-- `prec + 1`, for the precedence of an operator.
unfoldable pub tighter : TokenKind → ℕ
unfolding binop_prec
tighter op = elim (binop_prec op) [ none ↦ 0 | some prec ↦ prec + 1 ]

module _ {n : ℕ} (r : Procs n) {o : ℕ} where
  -- `while (binop_prec(current) > prec) parse_binary_rhs(right_cp, prec + 1)`
  unfoldable pub fold_tighter : ℕ → TokenKind → M n o moved moved (Unit {0})
  fold_tighter right_cp op = repeat λ o again.
      if_state (λ p. binds (tighter op) p.current.kind)
        (call_first (r.operator_rest right_cp (tighter op)) >> again) (stop tt)

module _ {n : ℕ} (r : Procs n) {o : ℕ} where
  -- Behind the operator `op`: its right operand, its policy, and the node from `left_cp` on.
  unfoldable pub binary_operand : ℕ → TokenKind → M n o moved moved (Unit {0})
  binary_operand left_cp op = do
    right_cp ← syntax_cp
    call r.unary_expr
    fold_tighter r right_cp op
    pol_cp ← syntax_cp
    when (λ k. (is tok_slash op || is tok_percent op) && is tok_bang k)
        (policy_name pol_cp "Expected a policy name after '!' (e.g. `a / b !zero`)") (done tt)
    syntax_wrap left_cp sn_binary_expr

module _ {n : ℕ} (r : Procs n) {o : ℕ} where
  -- `parse_binary_rhs` behind a left operand that was parsed.
  unfoldable pub parse_binary_rhs : ℕ → ℕ → M n o moved moved (Unit {0})
  parse_binary_rhs left_cp min_prec = repeat λ o again. do
    op ← reads (λ p. p.current.kind)
    when (binds min_prec) (binary_operand r left_cp op >> again) (stop tt)

module _ {n : ℕ} (r : Procs n) {o : ℕ} {i : Stage} ⦃b : Begun i⦄ where
  -- `parse_binary_rhs` where the caller has found an operator that binds as tightly as `min_prec`.
  unfoldable pub binary_fold : ℕ → ℕ → M n o i moved (Unit {0})
  binary_fold left_cp min_prec = do
    op ← reads (λ p. p.current.kind)
    when (binds min_prec) (do binary_operand r left_cp op; parse_binary_rhs r left_cp min_prec) fail

  unfoldable pub parse_binary_expr : M n o i moved (Unit {0})
  parse_binary_expr = do left_cp ← syntax_cp; parse_unary_expr r; parse_binary_rhs r left_cp 1

  unfoldable pub parse_expression : M n o i moved (Unit {0})
  parse_expression = parse_binary_expr
