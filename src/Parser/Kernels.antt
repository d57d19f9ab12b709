-- ===== src/Parser/Kernels.antt =====
-- parser/parser.c: maps, systems, enums and sums, and an index or slice in brackets.
use Prim.Native.String.{String}
use arche.Parser.Shared.{ℕ, Bool, true, false, if◌then◌else◌, Stage, inside, moved, Begun}
use arche.Parser.Shared.{fresh_begun, inside_begun, moved_begun, M, ◌>>=◌, ◌>>◌, done, fail}
use arche.Parser.Shared.{stop}
use arche.Parser.Shared.{attempt, call, Procs, refuse, syntax_wrap, syntax_cp, if_at, if_spells}
use arche.Parser.Shared.{on, expect, take, accept, repeat, commas, if_closed, optional_list}
use arche.Parser.Shared.{trailing_list, ignore, SyntaxNodeKind}
use arche.Lexer.Kind.{tok_ident, tok_number, tok_query, tok_lparen, tok_rparen, tok_lbrace}
use arche.Lexer.Kind.{tok_rbrace, tok_rbracket, tok_comma, tok_colon, tok_eq}
use arche.Syntax.NodeKind.{sn_write_param, sn_map_expr, sn_system_expr, sn_each_expr}
use arche.Syntax.NodeKind.{sn_query_expr, sn_enum_expr, sn_enum_variant, sn_sum_expr}
use arche.Syntax.NodeKind.{sn_sum_variant, sn_query_ref, sn_query_bind, sn_eff}
use arche.Parser.Types.{parse_type_first}
use arche.Parser.Forms.{parse_query_columns, parse_block_body}

module _ {n : ℕ} (r : Procs n) {o : ℕ} where
  -- The upper bound of a slice, which may be missing.
  unfoldable pub slice_end : M n o moved moved (Unit {0})
  slice_end = if_at tok_rbracket (done tt) (call r.expression)

  -- Behind the `[`; whether it is a slice.
  unfoldable pub parse_bracket_index_or_slice : M n o moved moved Bool
  parse_bracket_index_or_slice = do
    is_slice ← on tok_colon (slice_end >> done true) (do
      call r.expression
      on tok_colon (slice_end >> done true) (
          if_at tok_comma
            (refuse
              "multi-dimensional indexing is chained `a[i][j]` (one index per bracket), not comma `a[i, j]` — so each index can take its own failure policy")
            (done false)))
    expect tok_rbracket "Expected ']'"
    done is_slice

-- The C function returns 0 where there is no `eff`.
unfoldable pub parse_opt_eff : {n o : ℕ} → M n o moved moved (Unit {0})
parse_opt_eff = do
  e_cp ← syntax_cp
  if_spells "eff" (take tok_ident >> syntax_wrap e_cp sn_eff) fail

unfoldable pub parse_opt_row_bind : {n o : ℕ} → M n o moved moved (Unit {0})
parse_opt_row_bind =
    if_spells "as"
      (do
        take tok_ident
        b_cp ← syntax_cp
        expect tok_ident
            "Expected a name after 'as' — `map (query {…} as w) eff` binds the matched row as `w`"
        syntax_wrap b_cp sn_query_bind)
      fail

-- A column of the list of writes.
unfoldable pub write_param : {n o : ℕ} → M n o inside moved (Unit {0})
write_param = do
  w_cp ← syntax_cp
  expect tok_ident "Expected a column name in the `(writes)` list — `map (Movers) (pos, vel) { … }`"
  syntax_wrap w_cp sn_write_param

unfoldable pub parse_opt_writes : {n o : ℕ} → M n o moved moved (Unit {0})
parse_opt_writes =
    on tok_lparen
      (do
        optional_list tok_rparen (λ o. write_param)
        expect tok_rparen "Expected ')' to close the `(writes)` list")
      fail

-- The query that a map or a system runs over: a literal or a name.
unfoldable pub query_source :
    {n o : ℕ} {i : Stage} ⦃b : Begun i⦄ → String → M n o i moved (Unit {0})
query_source msg = do
  cp ← syntax_cp
  on tok_query (parse_query_columns >> syntax_wrap cp sn_query_expr)
      (on tok_ident (syntax_wrap cp sn_query_ref) (refuse msg))

-- One of the queries that a system joins.
unfoldable pub system_query : {n o : ℕ} → M n o inside moved (Unit {0})
system_query = do
  query_source
      "Expected a query in `system(...)` — a name `system(Drawables)` or a literal `system(query {…})`"
  ignore parse_opt_row_bind

module _ {n : ℕ} (r : Procs n) {o : ℕ} where
  -- Behind `map`.
  unfoldable pub map_expr : M n o moved moved SyntaxNodeKind
  map_expr = do
    expect tok_lparen "Expected '(' after 'map'"
    query_source
        "Expected a query in `map(...)` — a name `map(Movers)` or a literal `map(query {…})`"
    ignore parse_opt_row_bind
    if_at tok_comma
        (refuse
          "maps don't support joins — a map runs over ONE query; to combine pools, nest a `map (…) eff` inside another (cross-pool work is explicit nesting, not a join)")
        (done tt)
    expect tok_rparen "Expected ')'"
    ignore parse_opt_writes
    has_eff ← attempt parse_opt_eff
    parse_block_body r
    done (if has_eff then sn_each_expr else sn_map_expr)

  -- Behind `system`.
  unfoldable pub system_expr : M n o moved moved SyntaxNodeKind
  system_expr = do
    on tok_lparen
        (do commas (λ o. system_query); expect tok_rparen "Expected ')'"; ignore parse_opt_writes)
        (done tt)
    ignore parse_opt_eff
    parse_block_body r
    done sn_system_expr

-- A variant of an enum, with its value if it has one.
unfoldable pub enum_variant : {n o : ℕ} → M n o inside moved (Unit {0})
enum_variant = do
  v_cp ← syntax_cp
  expect tok_ident "Expected enum variant name"
  on tok_eq (expect tok_number "Expected integer after '=' in enum variant") (done tt)
  syntax_wrap v_cp sn_enum_variant

-- Behind `enum`.
unfoldable pub enum_expr : {n o : ℕ} → M n o moved moved SyntaxNodeKind
enum_expr = do
  expect tok_lbrace "Expected '{' after 'enum'"
  trailing_list tok_rbrace (λ o. enum_variant)
  expect tok_rbrace "Expected '}' to close enum"
  done sn_enum_expr

module _ {n : ℕ} (r : Procs n) {o : ℕ} where
  -- A variant of a sum, with the types that it holds.
  unfoldable pub sum_variant : M n o inside moved (Unit {0})
  sum_variant = do
    v_cp ← syntax_cp
    expect tok_ident "Expected sum variant name"
    on tok_lparen
        (do
          if_at tok_rparen (done tt) (commas (λ o. parse_type_first r))
          expect tok_rparen "Expected ')' to close sum variant payload")
        (done tt)
    syntax_wrap v_cp sn_sum_variant
    accept tok_comma

module _ {n : ℕ} (r : Procs n) {o : ℕ} where
  -- Behind the `{` of a sum.
  unfoldable pub sum_expr : M n o moved moved SyntaxNodeKind
  sum_expr = do
    repeat λ o again. if_closed tok_rbrace (stop tt) (sum_variant r >> again)
    expect tok_rbrace "Expected '}' to close sum"
    done sn_sum_expr
