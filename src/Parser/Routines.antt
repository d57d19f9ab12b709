-- ===== src/Parser/Routines.antt =====
-- The primitives of parser/parser.c as routines, and the patterns in which they are used.
use arche.Base.{ℕ, Bool, []}
use arche.Base.{◌&&◌, ◌||◌, if◌then◌else◌}
use arche.Base.Int.{ℤ}
use Prim.Native.String.{String}
use arche.Lexer.Kind.{TokenKind, tok_eof, tok_ident, tok_comma}
use arche.Syntax.NodeKind.{SyntaxNodeKind}
use arche.Syntax.Tree.{count}
use arche.Parser.Kinds.{is}
use arche.Parser.State.{Parser, spells, error, wrap, synchronize}
use arche.Parser.Steps.{synchronizes, reports, wraps, drains, counts_depth}
use arche.Parser.Steps.{restricts, marks_foreign, one_made}
use arche.Parser.Steps.{left-Steps}
use arche.Parser.Monad.{Stage, inside, moved, ended, At-le, Begun}
use arche.Parser.Monad.{returned}
use arche.Parser.Recursion.{loop, each}
use arche.Parser.Monad.{fresh_begun, inside_begun, moved_begun}
use arche.Parser.Monad.{attempt, M, ◌>>=◌, ◌>>◌, done, fail, stop}
use arche.Parser.Monad.{primitive, reads, when}

module _ {n o : ℕ} {i : Stage} where
  abbrev pub report : String → M n o i i (Unit {0})
  report msg = primitive (error msg) (λ p. reports p msg)

  -- `error(msg); return 0;`
  abbrev pub refuse : {j : Stage} {A : Type 0} → String → M n o i j A
  refuse msg = report msg >> fail

  abbrev pub syntax_wrap : ℕ → SyntaxNodeKind → M n o i i (Unit {0})
  syntax_wrap cp kind = primitive (wrap cp kind) (λ p. wraps p cp kind)

  abbrev pub syntax_cp : M n o i i ℕ
  syntax_cp = reads (λ p. count p.builder.items)

  -- `drain_pending_trivia`, and `take_pending_as_leading` whose result is freed.
  abbrev pub drain_pending_trivia : M n o i i (Unit {0})
  drain_pending_trivia = primitive (λ p. record p { pending_trivia = [] }) drains

  abbrev pub set_depth : ℤ → M n o i i (Unit {0})
  set_depth d = primitive (λ p. record p { recursion_depth = d }) (λ p. counts_depth p d)

  abbrev pub set_no_brace_lit : Bool → M n o i i (Unit {0})
  set_no_brace_lit b = primitive (λ p. record p { no_brace_lit = b }) (λ p. restricts p b)

  abbrev pub set_in_foreign : Bool → M n o i i (Unit {0})
  set_in_foreign b = primitive (λ p. record p { in_foreign = b }) (λ p. marks_foreign p b)

  abbrev pub check : TokenKind → M n o i i Bool
  check k = reads (λ p. is k p.current.kind)

  -- `parser->current.length == strlen(kw) && strncmp(parser->current.start, kw, strlen(kw)) == 0`
  abbrev pub current_spells : String → M n o i i Bool
  current_spells kw = reads (λ p. spells kw p.lexer.src p.current)

  -- `cur_ident_is`
  abbrev pub cur_ident_is : String → M n o i i Bool
  cur_ident_is kw = reads (λ p. is tok_ident p.current.kind && spells kw p.lexer.src p.current)

  -- `if (test) … else …`
  abbrev pub if_state :
      {j : Stage} {A : Type 0} → (Parser → Bool) → M n o i j A → M n o i j A → M n o i j A
  if_state test t e = record { run = λ p h. if test p then t.run p h else e.run p h }

  -- `if (check(k)) … else …`
  abbrev pub if_at : {j : Stage} {A : Type 0} → TokenKind → M n o i j A → M n o i j A → M n o i j A
  if_at k t e = if_state (λ p. is k p.current.kind) t e

  -- `if (check(k) || check(TOK_EOF)) … else …`, the end of a loop
  abbrev pub if_closed :
      {j : Stage} {A : Type 0} → TokenKind → M n o i j A → M n o i j A → M n o i j A
  if_closed k t e = if_state (λ p. is k p.current.kind || is tok_eof p.current.kind) t e

  abbrev pub if_spells : {j : Stage} {A : Type 0} → String → M n o i j A → M n o i j A → M n o i j A
  if_spells kw t e =
      if_state (λ p. is tok_ident p.current.kind && spells kw p.lexer.src p.current) t e

  abbrev pub synchronize_here : M n o i i (Unit {0})
  synchronize_here = record {
    run = λ p h.
        returned tt (synchronize p) (one_made (synchronizes p))
          (At-le i n o h (left-Steps (one_made (synchronizes p))));
  }

  module _ ⦃b : Begun i⦄ where
    -- `if (match(k)) … else …`
    abbrev pub on :
        {j : Stage} {A : Type 0} → TokenKind → M n o moved j A → M n o i j A → M n o i j A
    on k t e = when (is k) t e

    -- `if (!match(k)) { error(msg); return 0; }`
    abbrev pub expect : TokenKind → String → M n o i moved (Unit {0})
    expect k msg = on k (done tt) (refuse msg)

    -- The `advance` of a token that the code has tested; on others the model fails.
    abbrev pub take : TokenKind → M n o i moved (Unit {0})
    take k = on k (done tt) fail

    -- `match(k)` whose result is not read, and one whose result is.
    abbrev pub match : TokenKind → M n o i i Bool
    match k = attempt (take k)

    abbrev pub accept : TokenKind → M n o i i (Unit {0})
    accept k = match k >>= λ _. done tt

-- `if (!match(k)) error(msg);`
abbrev pub expect_or_report : {n o : ℕ} → TokenKind → String → M n o moved moved (Unit {0})
expect_or_report k msg = match k >>= λ b. if b then done tt else report msg

abbrev pub repeat :
    {n o : ℕ}
    → ((o : ℕ) → M n o moved ended (Unit {0}) → M n o inside ended (Unit {0}))
    → M n o moved moved (Unit {0})
repeat body = loop (λ o again _. body o (again tt)) tt

-- `do { item } while (match(TOK_COMMA) && !check(closes));`
abbrev pub comma_list :
    {n o : ℕ} → TokenKind → ((o : ℕ) → M n o inside moved (Unit {0})) → M n o moved moved (Unit {0})
comma_list closes item =
    repeat (λ o again. item o >> on tok_comma (if_at closes (stop tt) again) (stop tt))

-- `if (!check(closes)) do { item } while (match(TOK_COMMA) && !check(closes));`
abbrev pub optional_list :
    {n o : ℕ} → TokenKind → ((o : ℕ) → M n o inside moved (Unit {0})) → M n o moved moved (Unit {0})
optional_list closes item = if_at closes (done tt) (comma_list closes item)

-- The same, where the loop's body begins with `if (check(closes)) break;`.
abbrev pub trailing_list :
    {n o : ℕ} → TokenKind → ((o : ℕ) → M n o inside moved (Unit {0})) → M n o moved moved (Unit {0})
trailing_list closes item = if_at closes (done tt) (
    repeat λ o again.
      if_at closes (stop tt) (item o >> on tok_comma (if_at closes (stop tt) again) (stop tt)))

-- A routine called for its effect.
abbrev pub ignore : {n o : ℕ} {A : Type 0} → M n o moved moved A → M n o moved moved (Unit {0})
ignore m = attempt m >>= λ _. done tt

-- `do { item } while (match(TOK_COMMA));`
abbrev pub commas :
    {n o : ℕ} → ((o : ℕ) → M n o inside moved (Unit {0})) → M n o moved moved (Unit {0})
commas item = repeat (λ o again. item o >> on tok_comma again (stop tt))

-- `while (!check(closes) && !check(TOK_EOF)) { if (!item) { synchronize; recover } }`
abbrev pub while_each :
    {n o : ℕ}
    → TokenKind
    → ((o : ℕ) → ℕ → M n o inside moved (Unit {0}))
    → ((o : ℕ) → ℕ → M n o moved moved (Unit {0}))
    → M n o moved moved (Unit {0})
while_each closes item recover = repeat (λ o again. each closes (item o) (recover o) again)
