-- ===== src/Parser/Runs.antt =====
-- Every run of parser/parser.c, whatever its routines decide: what the tree holds of the source.
use arche.Base.{ℕ, ◌≤◌, ◌≡◌, refl, ap, arith}
use arche.Base.{List, [], ◌∷◌}
use Prim.Native.String.{String}
use arche.Syntax.NodeKind.{SyntaxNodeKind}
use arche.Lexer.Token.{Token}
use arche.Lexer.State.{Lexer}
use Prim.Native.String.{String}
use arche.Syntax.NodeKind.{SyntaxNodeKind}
use arche.Syntax.Tree.{syntax_builder_new}
use arche.Syntax.Calls.{wrap_from, perform, perform_all, tokens_of}
use arche.Parser.State.{Parser, advance, error, wrap, parser_create, fetch}
use arche.Parser.State.{consume}
use arche.Parser.State.{new_parser, emit, leaf, max_comment_loop}
use arche.Parser.Measure.{left, size, left-fetch, left-advance}
use arche.Parser.Steps.{Step, advances, synchronizes, flags, reports, wraps, drains}
use arche.Parser.Steps.{counts_depth}
use arche.Parser.Steps.{restricts, marks_foreign, Steps, none_made, one_made, joined}
use arche.Parser.Steps.{left-Steps}
use arche.Parser.Ahead.{leaf_tokens, Yields, Ahead, Ahead-same, fetch-Ahead}
use arche.Parser.Reads.{Reads, Reads-none, Reads-trans}
use arche.Parser.Reading.{after_fetch-Reads, advance-Reads, synchronize-Reads}

error_keeps :
    (msg : String) (p : Parser)
    → ((error msg p).current ≡ p.current)
      × ((error msg p).lexer ≡ p.lexer)
      × ((error msg p).builder ≡ p.builder)
unfolding error
error_keeps msg p = ground arith

module _ (b : ℕ) where
  wrap-Reads :
      (p : Parser) (cp : ℕ) (kind : SyntaxNodeKind) (ts : List Token)
      → Ahead b p ts
      → Reads b p (wrap cp kind p) ts
  unfolding wrap perform_all perform tokens_of leaf_tokens
  wrap-Reads p cp kind ts a = record {
    read = [];
    rest = ts;
    split = refl;
    ahead = Ahead-same p _ refl refl a;
    calls = wrap_from cp kind ∷ [];
    built = refl;
    emitted = refl;
  }

  Step-Reads :
      {p q : Parser} → Step p q → (ts : List Token) → Ahead b p ts → left p ≤ b → Reads b p q ts
  Step-Reads (advances p live) ts a h = advance-Reads b p ts live a h
  Step-Reads (synchronizes p) ts a h = synchronize-Reads b p ts a h
  Step-Reads (flags p) ts a h = Reads-none b p _ ts refl (Ahead-same p _ refl refl a)
  Step-Reads (reports p msg) ts a h =
      let (c, l, e) = error_keeps msg p in Reads-none b p _ ts e (Ahead-same p _ c l a)
  Step-Reads (wraps p cp kind) ts a h = wrap-Reads p cp kind ts a
  Step-Reads (drains p) ts a h = Reads-none b p _ ts refl (Ahead-same p _ refl refl a)
  Step-Reads (counts_depth p d) ts a h = Reads-none b p _ ts refl (Ahead-same p _ refl refl a)
  Step-Reads (restricts p v) ts a h = Reads-none b p _ ts refl (Ahead-same p _ refl refl a)
  Step-Reads (marks_foreign p v) ts a h = Reads-none b p _ ts refl (Ahead-same p _ refl refl a)

  -- Whatever steps a run makes, it consumes tokens in their order, and the builder is given their
  -- leaves in that order.
  pub Steps-Reads :
      {p q : Parser} → Steps p q → (ts : List Token) → Ahead b p ts → left p ≤ b → Reads b p q ts
  Steps-Reads (none_made p) ts a h = Reads-none b p p ts refl a
  Steps-Reads (one_made s) ts a h = Step-Reads s ts a h
  Steps-Reads (joined s t) ts a h =
      let x = Steps-Reads s ts a h in
      Reads-trans x (Steps-Reads t x.rest x.ahead (omega (arith, left-Steps s)))

advance-fetches :
    (b : ℕ) (p : Parser) (us : List Token)
    → Ahead b (fetch (consume p)) us
    → left (fetch (consume p)) ≤ b
    → Reads b (fetch (consume p)) (advance p) us
unfolding advance
advance-fetches b p us a h =
    after_fetch-Reads b max_comment_loop p.current.line (fetch (consume p)) us a (omega arith)

first-builder :
    (g : ℕ) (l : Lexer) → (fetch (consume (new_parser g l))).builder ≡ syntax_builder_new g
unfolding fetch consume new_parser emit leaf
first-builder g l = refl

first-lexer : (g : ℕ) (l : Lexer) → (consume (new_parser g l)).lexer ≡ l
unfolding consume new_parser
first-lexer g l = refl

-- The run that begins where the first token is fetched, with an empty builder.
pub parser_create-Reads :
    (g : ℕ) (l : Lexer) (us : List Token)
    → Yields l us
    → (q : Parser) × (q.builder ≡ syntax_builder_new g) × Reads (size l) q (parser_create g l) us
unfolding parser_create
parser_create-Reads g l us y =
    let p = new_parser g l in
    let e = first-lexer g l in
    (
      fetch (consume p),
      first-builder g l,
      advance-fetches (size l) p us (fetch-Ahead (size l) (consume p) us (rw e y))
          (omega (arith, left-fetch (consume p), ap size e)),
    )

pub left-parser_create : (g : ℕ) (l : Lexer) → left (parser_create g l) ≤ size l
unfolding parser_create new_parser
left-parser_create g l = left-advance (new_parser g l)
