-- ===== src/Parser/Decls.antt =====
-- parser/parser.c: top-level bindings and pools (`parse_static_decl`).
use arche.Parser.Shared.{ℕ, Bool, true, false, not, ◌&&◌, ◌||◌, if◌then◌else◌, Stage, inside}
use arche.Parser.Shared.{moved, Begun, fresh_begun, inside_begun, moved_begun, M, ◌>>=◌, ◌>>◌}
use arche.Parser.Shared.{done, fail, stop, orelse, branch, call, Procs, report, refuse}
use arche.Parser.Shared.{syntax_wrap, syntax_cp, if_state, if_at, on, expect, accept}
use arche.Parser.Shared.{expect_or_report, repeat, is, SyntaxNodeKind}
use arche.Lexer.Kind.{tok_ident, tok_archetype, tok_alias, tok_lparen, tok_rparen, tok_lbrace}
use arche.Lexer.Kind.{tok_rbrace, tok_lbracket, tok_rbracket, tok_comma, tok_dot, tok_colon}
use arche.Lexer.Kind.{tok_semi, tok_eq, tok_question}
use arche.Syntax.NodeKind.{sn_static_decl, sn_const_decl, sn_arch_expr, sn_policy_ref}
use arche.Parser.Types.{parse_type}
use arche.Parser.Forms.{parse_tuple_name_group, arch_fields}

unfoldable pub require_decl_terminator : {n o : ℕ} → M n o moved moved (Unit {0})
require_decl_terminator = on tok_semi (done tt) (
    if_state (λ p. is tok_rbrace p.previous.kind) (done tt)
      (report "expected `;` to end the declaration"))

-- `.Name` as often as it follows, in the name of a pool's archetype.
unfoldable pub qualified_name : {n o : ℕ} → M n o moved moved (Unit {0})
qualified_name = repeat λ o again.
    on tok_dot
      (do expect tok_ident "expected an identifier after `.` in a qualified pool name"; again)
      (stop tt)

module _ {n : ℕ} (r : Procs n) {o : ℕ} where
  -- The shape of a pool, anonymous or named; whether it is the former.
  unfoldable pub pool_shape : M n o moved moved Bool
  pool_shape = do
    arch_cp ← syntax_cp
    on tok_archetype
        (do
          expect tok_lbrace "Expected '{' after 'archetype'"
          arch_fields r
          expect tok_rbrace "Expected '}' after archetype fields"
          syntax_wrap arch_cp sn_arch_expr
          done true)
        (do
          expect tok_ident
              "Expected an archetype name or `arche {…}` after pool capacity (e.g. `[8]Particle`)"
          qualified_name
          done false)

  unfoldable pub live_count : M n o moved moved (Unit {0})
  live_count =
      on tok_lparen
        (do
          call r.expression
          expect_or_report tok_rparen "Expected ')' after pool live-count in `[C]Name(N)`")
        (done tt)

  unfoldable pub pool_field : M n o inside moved (Unit {0})
  pool_field = do
    expect tok_ident "Expected field name in pool init block"
    expect tok_colon "Expected ':' after field name in pool init block"
    orelse (call r.expression) (refuse "Expected expression after ':' in pool init block")

module _ {n : ℕ} (r : Procs n) {o : ℕ} where
  -- The fields of an init block, up to one that is malformed.
  unfoldable pub pool_fields : M n o moved moved (Unit {0})
  pool_fields = if_at tok_rbrace (done tt) (
      repeat λ o again.
        branch (pool_field r) (λ _. on tok_comma (if_at tok_rbrace (stop tt) again) (stop tt))
          (stop tt))

  -- The init block of a pool; whether there is one.
  unfoldable pub pool_init : M n o moved moved Bool
  pool_init =
      on tok_lbrace
        (do
          pool_fields
          expect_or_report tok_rbrace "Expected '}' after pool init block"
          done true)
        (done false)

-- `?handler`.
unfoldable pub pool_handler : {n o : ℕ} → M n o moved moved (Unit {0})
pool_handler = do
  pol_cp ← syntax_cp
  on tok_question
      (do
        expect tok_ident
            "Expected a handler name after '?' on a pool decl (e.g. `[8]Foo ?evict_oldest`)"
        syntax_wrap pol_cp sn_policy_ref)
      (done tt)

module _ {n : ℕ} (r : Procs n) {o : ℕ} where
  -- Behind the `[` of a pool.
  unfoldable pub pool_decl : M n o moved moved (Unit {0})
  pool_decl = do
    call r.expression
    expect tok_rbracket "Expected ']' after pool capacity in `[C]Name`"
    anonymous ← pool_shape r
    live_count r
    has_init ← pool_init r
    pool_handler
    if anonymous || has_init then accept tok_semi else require_decl_terminator

  -- Behind the separator of a constant, whose declared type may be `type`.
  unfoldable pub const_value : Bool → M n o moved moved (Unit {0})
  const_value decl_type_is_meta =
      if decl_type_is_meta
      then parse_type r
      else do accept tok_alias; if_at tok_lbracket (parse_type r) (call r.expression)

  -- Behind the `=` of a mutable global.
  unfoldable pub global_value : M n o moved moved SyntaxNodeKind
  global_value = do call r.expression; require_decl_terminator; done sn_static_decl

  -- The declared type, if there is one: whether there is, and whether it is `type`.
  unfoldable pub declared_type : M n o moved moved (Bool × Bool)
  declared_type =
      if_at tok_colon (done (false, false))
        (do type_form ← call r.type_form; done (true, type_form.is_type_meta))

  -- Behind the first colon of a binding.
  unfoldable pub colon_decl : M n o moved moved SyntaxNodeKind
  colon_decl = on tok_eq global_value (do
    (have_type, decl_type_is_meta) ← declared_type
    on tok_eq global_value (
        if_state (λ p. have_type && not (is tok_colon p.current.kind))
          (require_decl_terminator >> done sn_static_decl)
          (do
            expect tok_colon "expected `:` and a value: write `name :: value` or `name : T : value`"
            const_value decl_type_is_meta
            require_decl_terminator
            done sn_const_decl)))

  -- Behind the name of a binding.
  unfoldable pub binding_decl : M n o moved moved SyntaxNodeKind
  binding_decl =
      if_at tok_lparen (do parse_tuple_name_group r; require_decl_terminator; done sn_const_decl)
        (on tok_colon colon_decl fail)

module _ {n : ℕ} (r : Procs n) {o : ℕ} {i : Stage} ⦃b : Begun i⦄ where
  unfoldable pub parse_static_decl : M n o i moved SyntaxNodeKind
  parse_static_decl =
      on tok_lbracket (pool_decl r >> done sn_static_decl) (on tok_ident (binding_decl r) fail)
