-- ===== src/Parser/Blocks.antt =====
-- parser/parser.c: `parse_statement`.
use Prim.Native.String.{String}
use arche.Parser.State.{deeper, shallower, too_deep}
use arche.Parser.Shared.{ℕ, true, ◌||◌, if◌then◌else◌, ◌+◌, ltb, Stage, inside, moved, Begun}
use arche.Parser.Shared.{fresh_begun, inside_begun, moved_begun, M, ◌>>=◌, ◌>>◌, done, fail}
use arche.Parser.Shared.{stop}
use arche.Parser.Shared.{reads, orelse, when, branch, call, call_first, loop, Procs, report}
use arche.Parser.Shared.{refuse, syntax_wrap, syntax_cp, drain_pending_trivia, set_depth}
use arche.Parser.Shared.{set_no_brace_lit, if_state, if_at, current_spells, synchronize_here}
use arche.Parser.Shared.{on}
use arche.Parser.Shared.{expect, take, accept, expect_or_report, repeat, if_closed, ignore, is}
use arche.Parser.Shared.{SyntaxNodeKind}
use arche.Lexer.Kind.{tok_ident, tok_number, tok_string, tok_char_lit, tok_let, tok_for, tok_if}
use arche.Lexer.Kind.{tok_else, tok_in, tok_break, tok_continue, tok_return, tok_each_field}
use arche.Lexer.Kind.{tok_match, tok_lparen, tok_rparen, tok_lbrace, tok_rbrace, tok_comma}
use arche.Lexer.Kind.{tok_dot, tok_colon, tok_semi, tok_eq}
use arche.Syntax.NodeKind.{sn_for_stmt, sn_if_stmt, sn_break_stmt, sn_continue_stmt}
use arche.Syntax.NodeKind.{sn_return_stmt, sn_multi_bind_stmt, sn_each_field_stmt, sn_block}
use arche.Syntax.NodeKind.{sn_match_stmt, sn_match_arm}
use arche.Parser.Types.{parse_type}
use arche.Parser.Forms.{statements, parse_block_body}
use arche.Parser.Statements.{parse_simple_statement}

module _ {n : ℕ} (r : Procs n) {o : ℕ} where
  -- A body behind its `{`.
  unfoldable pub braced_body : String → M n o moved moved (Unit {0})
  braced_body msg = statements r >> expect_or_report tok_rbrace msg

  -- A body that is a block or one statement, whose failure is not looked at.
  unfoldable pub branch_body : String → M n o moved moved (Unit {0})
  branch_body msg = on tok_lbrace (braced_body msg) (ignore (call r.statement))

  -- Behind `if`.
  unfoldable pub if_statement : M n o moved moved SyntaxNodeKind
  if_statement = do
    expect tok_lparen "Expected '(' after 'if'"
    call r.expression
    expect tok_rparen "Expected ')' after if condition"
    branch_body "Expected '}' after if body"
    on tok_else (branch_body "Expected '}' after else body") (done tt)
    done sn_if_stmt

  -- The first or last part of the header of a `for`, a statement with its node.
  unfoldable pub for_part : M n o moved moved (Unit {0})
  for_part = do
    part_cp ← syntax_cp
    part_kind ← parse_simple_statement r
    syntax_wrap part_cp part_kind

  -- Behind the `(` of a `for`.
  unfoldable pub for_header : M n o moved moved (Unit {0})
  for_header = do
    if_at tok_semi (done tt) for_part
    expect tok_semi "Expected ';' in for loop"
    if_at tok_semi (done tt) (call r.expression)
    expect tok_semi "Expected ';' in for loop"
    if_at tok_rparen (done tt) for_part
    expect tok_rparen "Expected ')' after for clause"
    expect tok_lbrace "Expected '{'"

  -- Behind `for`.
  unfoldable pub for_statement : M n o moved moved SyntaxNodeKind
  for_statement = do
    on tok_lbrace (done tt) (
        on tok_lparen for_header (
          refuse
            "for-in is not supported — iterate with a `map` (over an archetype) or a C-style `for (init; cond; incr)`"))
    braced_body "Expected '}'"
    done sn_for_stmt

  -- `while (!check(TOK_RBRACE) && !check(TOK_EOF)) { if (!parse_statement) break; }`
  unfoldable pub statements_or_break : M n o moved moved (Unit {0})
  statements_or_break = repeat λ o again.
      if_closed tok_rbrace (stop tt) (branch (call_first r.statement) (λ _. again) (stop tt))

  -- Behind `each_field`.
  unfoldable pub each_field_statement : M n o moved moved SyntaxNodeKind
  each_field_statement = do
    expect tok_ident "Expected binding name after 'each_field'"
    on tok_colon (parse_type r) (done tt)
    expect tok_in "Expected 'in' after each_field binding"
    expect tok_ident "Expected archetype parameter name after 'in'"
    expect tok_lbrace "Expected '{' to start each_field body"
    statements_or_break
    expect_or_report tok_rbrace "Expected '}' to close each_field body"
    done sn_each_field_stmt

  -- Behind `return`.
  unfoldable pub return_statement : M n o moved moved SyntaxNodeKind
  return_statement = do
    if_at tok_semi (done tt) (do
      orelse (call r.expression) (refuse "Expected expression after 'return'")
      repeat λ o again.
          on tok_comma
            (if_at tok_semi (stop tt) (do
              orelse (call r.expression)
                  (refuse "Expected expression after ',' in return statement")
              again))
            (stop tt))
    expect_or_report tok_semi "Expected ';' after return statement"
    done sn_return_stmt

-- An arm's pattern and colon. Where it fails the loop over the arms ends.
unfoldable pub arm_pattern : {n o : ℕ} → M n o inside moved (Unit {0})
arm_pattern = do
  is_wild ← current_spells "_"
  when (λ k. is tok_number k || is tok_string k || is tok_char_lit k) (done tt)
      (on tok_ident
        (on tok_dot (expect tok_ident "Expected an enum case after '.' in a match pattern") (
          if is_wild
          then done tt
          else refuse
              "a match arm names an enum value — qualify it `Enum.case` (a bare case name is not a value)"))
        (refuse "Expected match pattern (`Enum.case`, literal, or '_')"))
  expect tok_colon "Expected ':' after match pattern"

module _ {n : ℕ} (r : Procs n) {o : ℕ} where
  unfoldable pub match_arms : M n o moved moved (Unit {0})
  match_arms = repeat λ o again. if_closed tok_rbrace (stop tt) (do
    arm_cp ← syntax_cp
    branch arm_pattern
        (λ _.
          let next = do syntax_wrap arm_cp sn_match_arm; accept tok_comma; again
          in if_at tok_lbrace (branch (parse_block_body r) (λ _. next) (stop tt))
            (branch (call r.statement) (λ _. next) (synchronize_here >> next)))
        (stop tt))

  -- Behind `match`.
  unfoldable pub match_statement : M n o moved moved SyntaxNodeKind
  match_statement = do
    prev_nbl ← reads (λ p. p.no_brace_lit)
    set_no_brace_lit true
    orelse (call r.expression) (set_no_brace_lit prev_nbl >> fail)
    set_no_brace_lit prev_nbl
    expect tok_lbrace "Expected '{' after match scrutinee"
    match_arms
    expect_or_report tok_rbrace "Expected '}' to close match"
    done sn_match_stmt

module _ {n : ℕ} (r : Procs n) {o : ℕ} where
  -- The type of a target `name:` or `name: T`.
  unfoldable pub target_type : M n o moved moved (Unit {0})
  target_type =
      on tok_colon
        (if_state (λ p. is tok_comma p.current.kind || is tok_rparen p.current.kind) (done tt)
          (parse_type r))
        (done tt)

module _ {n : ℕ} (r : Procs n) {o : ℕ} where
  -- The targets of `(x, y:, n: int) = e`, of which no more than MAX_TARGETS are read.
  unfoldable pub binding_targets : ℕ → M n o moved moved (Unit {0})
  binding_targets = loop λ o again loop_count. if_closed tok_rparen (stop tt) (
      if ltb 1000 (loop_count + 1)
      then report "Too many binding targets" >> stop tt
      else on tok_ident (do target_type r; on tok_comma (again (loop_count + 1)) (stop tt))
          (do report "Expected variable name in binding"; stop tt))

  -- Behind the `(`.
  unfoldable pub paren_binding : M n o moved moved SyntaxNodeKind
  paren_binding = do
    binding_targets 0
    expect tok_rparen "Expected ')' after binding targets"
    expect tok_eq "Expected '=' after binding targets"
    call r.expression
    expect_or_report tok_semi "Expected ';' after binding statement"
    done sn_multi_bind_stmt

-- A keyword that is a statement by itself.
unfoldable pub keyword_statement :
    {n o : ℕ} → String → SyntaxNodeKind → M n o moved moved SyntaxNodeKind
keyword_statement msg kind = do expect_or_report tok_semi msg; done kind

-- `parser->recursion_depth--;`
abbrev pub leave : {n o : ℕ} {k : Stage} → M n o k k (Unit {0})
leave = do depth ← reads (λ p. p.recursion_depth); set_depth (shallower depth)

module _ {n : ℕ} (r : Procs n) {o : ℕ} {i : Stage} ⦃b : Begun i⦄ where
  -- A simple statement and its `;`.
  unfoldable pub terminated_statement : M n o i moved SyntaxNodeKind
  terminated_statement = do
    stmt_kind ← parse_simple_statement r
    expect_or_report tok_semi "Expected ';' after statement"
    done stmt_kind

  -- The branches of `parse_statement` for a statement that is not empty; its kind.
  unfoldable pub nonempty_statement : M n o i moved SyntaxNodeKind
  nonempty_statement = on tok_break (keyword_statement "Expected ';' after break" sn_break_stmt) (
      on tok_continue (keyword_statement "Expected ';' after continue" sn_continue_stmt) (
        on tok_each_field (each_field_statement r) (
          on tok_return (return_statement r) (
            on tok_match (match_statement r) (
              if_at tok_lbrace (parse_block_body r >> done sn_block) (
                on tok_lparen (paren_binding r) (
                  if_at tok_let
                    (do
                      report
                          "`let` was removed — write a bare binding: `x := expr`, `x: T = expr`, or `a, b := expr`"
                      take tok_let
                      fail)
                    (on tok_if (if_statement r)
                      (on tok_for (for_statement r) terminated_statement)))))))))

  -- An empty statement fails.
  unfoldable pub statement_form : M n o i moved SyntaxNodeKind
  statement_form = on tok_semi fail nonempty_statement

  -- The statement up to `cleanup`, with the limit on the depth.
  unfoldable pub guarded_statement : M n o i moved SyntaxNodeKind
  guarded_statement = do
    depth ← reads (λ p. p.recursion_depth)
    if too_deep depth
        then refuse "Recursion limit exceeded"
        else do set_depth (deeper depth); drain_pending_trivia; statement_form

  unfoldable pub parse_statement : M n o i moved (Unit {0})
  parse_statement = do
    stmt_cp ← syntax_cp
    stmt_kind ← orelse guarded_statement (leave >> fail)
    leave
    syntax_wrap stmt_cp stmt_kind
