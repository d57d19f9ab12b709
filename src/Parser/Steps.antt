-- ===== src/Parser/Steps.antt =====
-- The steps of which every run of parser/parser.c consists: its primitives. A routine of the model
-- comes with the steps that it makes, so what every step keeps, every routine keeps.
use arche.Base.{ℕ, ◌≤◌, ◌≡◌, Bool, true, false, [], arith}
use arche.Base.Int.{ℤ}
use Prim.Native.String.{String}
use arche.Lexer.Next.{is_eof}
use arche.Syntax.NodeKind.{SyntaxNodeKind}
use arche.Parser.State.{Parser, advance, error, wrap, synchronize}
use arche.Parser.Recovery.{left-synchronize}
use arche.Parser.Measure.{left, advance-lt-left}

pub data Step : Parser → Parser → Type 0 where
  advances : (p : Parser) → is_eof p.current.kind ≡ false → Step p (advance p)
  synchronizes : (p : Parser) → Step p (synchronize p)
  -- the limit of the declarations
  flags : (p : Parser) → Step p (record p { had_error = true })
  reports : (p : Parser) (msg : String) → Step p (error msg p)
  wraps : (p : Parser) (checkpoint : ℕ) (kind : SyntaxNodeKind) → Step p (wrap checkpoint kind p)
  drains : (p : Parser) → Step p (record p { pending_trivia = [] })
  counts_depth : (p : Parser) (depth : ℤ) → Step p (record p { recursion_depth = depth })
  restricts : (p : Parser) (b : Bool) → Step p (record p { no_brace_lit = b })
  marks_foreign : (p : Parser) (b : Bool) → Step p (record p { in_foreign = b })

pub data Steps : Parser → Parser → Type 0 where
  none_made : (p : Parser) → Steps p p
  one_made : {p q : Parser} → Step p q → Steps p q
  joined : {p q r : Parser} → Steps p q → Steps q r → Steps p r

left-Step : {p q : Parser} → Step p q → left q ≤ left p
unfolding error wrap
left-Step (advances p live) = omega (arith, advance-lt-left p live)
left-Step (synchronizes p) = omega (arith, left-synchronize p)
left-Step (flags p) = omega arith
left-Step (reports p msg) = ground arith
left-Step (wraps p checkpoint kind) = omega arith
left-Step (drains p) = omega arith
left-Step (counts_depth p depth) = omega arith
left-Step (restricts p b) = omega arith
left-Step (marks_foreign p b) = omega arith

-- No step gives back what was consumed.
pub left-Steps : {p q : Parser} → Steps p q → left q ≤ left p
left-Steps (none_made p) = omega arith
left-Steps (one_made s) = left-Step s
left-Steps (joined a b) = omega (arith, left-Steps a, left-Steps b)
