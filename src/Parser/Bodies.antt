-- ===== src/Parser/Bodies.antt =====
-- `parse_block_body` of parser/parser.c: how a body ends.
use Prim.Native.String.{String}
use arche.Base.{◌≡◌, Bool, true, false, ◌⊎◌}
use arche.Base.{◌||◌}
use arche.Lexer.Kind.{TokenKind, tok_rbrace}
use arche.Lexer.Next.{is_eof}
use arche.Parser.Kinds.{is}
use arche.Parser.State.{Parser, advance}
use arche.Parser.Procs.{Procs}

-- A `}` has just been consumed, or the source has ended and the parser is in error.
pub data BodyEnds (q : Parser) : Type 0 where
  by_brace : (p : Parser) → is tok_rbrace p.current.kind ≡ true → q ≡ advance p → BodyEnds q
  unclosed : is_eof q.current.kind ≡ true → (q.had_error || q.panic_mode) ≡ true → BodyEnds q

-- `match(k)` at the state `p`.
abbrev Taken : TokenKind → Parser → Unit {0} → Parser → Type 0
Taken k p _ q = (is k p.current.kind ≡ true) × (q ≡ advance p)

abbrev Refused : TokenKind → Parser → Parser → Type 0
Refused k p q = (q ≡ p) × ((is_eof p.current.kind ≡ true) ⊎ (is k p.current.kind ≡ false))

abbrev Told : (Unit {0} → Parser → Type 0) → (Parser → Type 0) → Bool → Parser → Type 0
Told P F true q = P tt q
Told P F false q = F q

abbrev Whatever : Unit {0} → Parser → Type 0
Whatever _ q = Unit
