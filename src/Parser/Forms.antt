-- ===== src/Parser/Forms.antt =====
-- parser/parser.c: the braces and parentheses of declarations: tuple groups, the fields of an
-- archetype, the columns of a query, blocks, and the forms of procs, funcs, policies and groups.
use arche.Parser.Shared.{ℕ, Bool, false, ◌||◌, if◌then◌else◌, ◌+◌, ◌==◌, Stage, inside, moved}
use arche.Parser.Shared.{Begun, fresh_begun, inside_begun, moved_begun, M, ◌>>=◌, ◌>>◌, done}
use arche.Parser.Shared.{stop}
use arche.Parser.Shared.{branch, call, call_first, loop, Procs, report, refuse, syntax_wrap}
use arche.Parser.Shared.{syntax_cp, drain_pending_trivia, if_state, if_at, if_spells, on}
use arche.Parser.Shared.{expect}
use arche.Parser.Shared.{take, accept, expect_or_report, repeat, while_each, if_closed}
use arche.Parser.Shared.{trailing_list, TokenKind, is, SyntaxNodeKind}
use arche.Lexer.Kind.{tok_ident, tok_number, tok_string, tok_lparen, tok_rparen, tok_lbrace}
use arche.Lexer.Kind.{tok_rbrace, tok_comma, tok_colon, tok_minus, tok_arrow}
use arche.Syntax.NodeKind.{sn_param, sn_proc_expr, sn_func_expr, sn_policy_expr, sn_group_expr}
use arche.Syntax.NodeKind.{sn_type_proc, sn_type_func, sn_field_name, sn_param_name}
use arche.Parser.Types.{parse_type, parse_param_list_body, parse_proc_sig, parse_func_sig}

abbrev starts_value : TokenKind → Bool
starts_value k = is tok_lparen k || is tok_number k || is tok_string k || is tok_minus k

-- The names, and how many there are.
unfoldable pub tuple_names : {n o : ℕ} → ℕ → M n o moved moved ℕ
tuple_names = loop λ o again name_count. if_closed tok_rparen (stop name_count) (
    on tok_ident (on tok_comma (again (name_count + 1)) (stop (name_count + 1)))
      (do report "Expected a name in tuple group `(a, b, …)`"; stop name_count))

module _ {n : ℕ} (r : Procs n) {o : ℕ} where
  unfoldable pub parse_tuple_name_group : M n o moved moved (Unit {0})
  parse_tuple_name_group = do
    take tok_lparen
    name_count ← tuple_names 0
    if name_count == 0
        then refuse
            "Empty tuple group `()`: a tuple needs at least one name, e.g. `pos (x, y) :: T`"
        else done tt
    expect tok_rparen "Expected ')' to close tuple name group"
    expect tok_colon "Expected `::` and a shared type after tuple name group `(a, b) :: T`"
    expect tok_colon "Expected `::` and a shared type after tuple name group `(a, b) :: T`"
    if_state (λ p. starts_value p.current.kind) (call r.expression) (parse_type r)

-- The separators of a component that is defined in place, behind its first colon.
unfoldable pub arch_field_separator : {n o : ℕ} → M n o moved moved (Unit {0})
arch_field_separator = on tok_colon (done tt) (
    if_spells "type"
      (do take tok_ident; expect tok_colon "expected `:` after `type`: write `name : type : T`")
      (refuse
        "archetype components are types: write `name :: type` to define a component, or a bare type name to reference one (`name: type` is not valid)"))

module _ {n : ℕ} (r : Procs n) {o : ℕ} {i : Stage} ⦃b : Begun i⦄ where
  unfoldable pub parse_arch_field : M n o i moved (Unit {0})
  parse_arch_field = do
    field_decl_name_cp ← syntax_cp
    expect tok_ident "Expected field name"
    syntax_wrap field_decl_name_cp sn_field_name
    if_at tok_lparen (parse_tuple_name_group r >> accept tok_comma)
        (on tok_colon (do arch_field_separator; parse_type r; accept tok_comma) (accept tok_comma))

-- A column of a query.
unfoldable pub query_column : {n o : ℕ} → M n o inside moved (Unit {0})
query_column = do
  param_cp ← syntax_cp
  param_name_cp ← syntax_cp
  expect tok_ident "Expected a column name"
  syntax_wrap param_name_cp sn_param_name
  syntax_wrap param_cp sn_param

unfoldable pub parse_query_columns : {n o : ℕ} → M n o moved moved (Unit {0})
parse_query_columns = do
  expect tok_lbrace "Expected '{' after 'query'"
  trailing_list tok_rbrace (λ o. query_column)
  expect tok_rbrace "Expected '}' to close query"

-- The members of a group, behind its `{`; a trailing comma is allowed.
unfoldable pub parse_group_form : {n o : ℕ} → M n o moved moved SyntaxNodeKind
parse_group_form = do
  take tok_lbrace
  if_at tok_rbrace (refuse "group must have at least one member") (done tt)
  repeat λ o again. do
    expect tok_ident "Expected member name in group"
    on tok_comma (if_at tok_rbrace (stop tt) again) (stop tt)
  expect tok_rbrace "Expected '}' or ',' in group member list"
  done sn_group_expr

module _ {n : ℕ} (r : Procs n) {o : ℕ} where
  -- `while (!check(TOK_RBRACE) && !check(TOK_EOF)) { drain; if (!parse_arch_field) break; }`
  unfoldable pub arch_fields : M n o moved moved (Unit {0})
  arch_fields = repeat λ o again.
      if_closed tok_rbrace (stop tt)
        (do drain_pending_trivia; branch (parse_arch_field r) (λ _. again) (stop tt))

  -- `while (!check(TOK_RBRACE) && !check(TOK_EOF)) { if (!parse_statement) synchronize; }`
  unfoldable pub statements : M n o moved moved (Unit {0})
  statements = while_each tok_rbrace (λ o cp. call_first r.statement) (λ o cp. done tt)

module _ {n : ℕ} (r : Procs n) {o : ℕ} {i : Stage} ⦃b : Begun i⦄ where
  unfoldable pub parse_block_body : M n o i moved (Unit {0})
  parse_block_body = do
    expect tok_lbrace "Expected '{'"
    statements r
    expect_or_report tok_rbrace "Expected '}'"

module _ {n : ℕ} (r : Procs n) {o : ℕ} where
  unfoldable pub parse_proc_form : Bool → M n o moved moved SyntaxNodeKind
  parse_proc_form is_extern = do
    parse_proc_sig r is_extern
    if_at tok_lbrace
        (if is_extern
          then refuse
              "a proc inside a `#foreign` region is an FFI declaration and has no body — remove the `{ ... }` (or move it out of the `#foreign` region)"
          else do parse_block_body r; done sn_proc_expr)
        (done (if is_extern then sn_proc_expr else sn_type_proc))

  unfoldable pub parse_func_form : M n o moved moved SyntaxNodeKind
  parse_func_form = do
    parse_func_sig r false
    if_at tok_lbrace (parse_block_body r >> done sn_func_expr) (done sn_type_func)

  unfoldable pub parse_policy_form : M n o moved moved SyntaxNodeKind
  parse_policy_form = do
    expect tok_lparen "Expected '(' after 'policy'"
    parse_param_list_body r false
    expect tok_rparen "Expected ')' after policy parameters"
    on tok_arrow (parse_type r) (done tt)
    if_at tok_lbrace (parse_block_body r >> done sn_policy_expr)
        (refuse "a `policy` must have a body `{ ... }`")
