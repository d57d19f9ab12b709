-- ===== src/Parser/Kept.antt =====
-- Which leaves a syntax tree is to have for the tokens of a source, told apart from the routine of
-- parser/parser.c that makes them.
use arche.Base.{ℕ, ◌%◌, ◌≡◌, ◌≢◌, refl, List, [], ◌∷◌, ◌++◌, inl, inr, ◌⊎◌, Bytes}
use arche.Base.{none, some}
use arche.Lexer.Kind.{TokenKind, tok_eof, tok_error}
use arche.Lexer.Token.{Token, offset}
use arche.Lexer.Tokenize.{Placed, Tiles, last, more}
use arche.Syntax.Tree.{SyntaxToken, u32_mod}
use arche.Parser.State.{leaf, leaf_of}
use arche.Parser.Ahead.{leaf_list, leaf_tokens}

-- The leaf has the kind, the place in the source, the length, the line and the column of the token.
pub record StandsFor (t : Token) (l : SyntaxToken) : Type 0 where
  pub place : ℕ
  pub starts : t.start ≡ offset place
  pub kind_is : l.kind ≡ t.kind
  pub offset_is : l.offset ≡ place % u32_mod
  pub length_is : l.length ≡ t.length % u32_mod
  pub line_is : l.line ≡ t.line
  pub column_is : l.column ≡ t.column

-- The tokens have these leaves, in their order: each token but end marks and errors has one.
pub data LeavesOf : List Token → List SyntaxToken → Type 0 where
  no_more : LeavesOf [] []
  left_out :
      {t : Token} {ts : List Token} {ls : List SyntaxToken}
      → (t.kind ≡ tok_eof) ⊎ (t.kind ≡ tok_error)
      → LeavesOf ts ls
      → LeavesOf (t ∷ ts) ls
  kept :
      {t : Token} {l : SyntaxToken} {ts : List Token} {ls : List SyntaxToken}
      → t.kind ≢ tok_eof
      → t.kind ≢ tok_error
      → StandsFor t l
      → LeavesOf ts ls
      → LeavesOf (t ∷ ts) (l ∷ ls)

-- The token is an error, or its text is in the source.
abbrev InSource : Token → Type 0
InSource t = (t.kind ≡ tok_error) ⊎ ((n : ℕ) × (t.start ≡ offset n))

abbrev leaf_at : Token → ℕ → SyntaxToken
leaf_at t n = record {
  kind = t.kind;
  offset = n % u32_mod;
  length = t.length % u32_mod;
  line = t.line;
  column = t.column;
}

-- The leaf that the routine makes.
abbrev Made : Token → Type 0
Made t =
    (((t.kind ≡ tok_eof) ⊎ (t.kind ≡ tok_error)) × (leaf t ≡ none))
    ⊎ ((n : ℕ) × (t.start ≡ offset n)
        × (t.kind ≢ tok_eof)
        × (t.kind ≢ tok_error)
        × (leaf t ≡ some (leaf_at t n)))

leaf-Made : (k : TokenKind) (t : Token) → t.kind ≡ k → InSource t → Made t
unfolding leaf leaf_of
leaf-Made tok_eof t e s = inl (inl e, rw e refl)
leaf-Made tok_error t e s = inl (inr e, rw e refl)
leaf-Made _ t e (inl err) = absurd (cc)
leaf-Made _ t e (inr (n, at)) = inr (n, at, (λ h. cc), (λ h. cc), rw (e, at) refl)

leaf-LeavesOf :
    (t : Token) (ts : List Token) (ls : List SyntaxToken)
    → InSource t
    → LeavesOf ts ls
    → LeavesOf (t ∷ ts) (leaf_list (leaf t) ++ ls)
leaf-LeavesOf t ts ls s r = elim (leaf-Made t.kind t refl s) [
  | inl (out, e) ↦ rw e (left_out out r)
  | inr (n, at, not_end, no_error, e) ↦ rw e (
      kept not_end no_error
        (record {
          place = n;
          starts = at;
          kind_is = refl;
          offset_is = refl;
          length_is = refl;
          line_is = refl;
          column_is = refl;
        })
        r)
]

located-InSource :
    {t : Token} {at line column : ℕ} {text : Bytes} → Placed t at line column text → InSource t
located-InSource {at = at} p = elim p.located [ inl (s, _) ↦ inr (at, s) | inr err ↦ inl err ]

pub Tiles-LeavesOf :
    {at line column : ℕ} {whole : Bytes} {toks : List Token}
    → Tiles at line column whole toks
    → LeavesOf toks (leaf_tokens toks)
unfolding leaf_tokens
Tiles-LeavesOf (last {tok = t} gap rest _ _ _ _ p) =
    leaf-LeavesOf t [] [] (located-InSource p) no_more
Tiles-LeavesOf (more {tok = t} {toks = ts} gap text rest _ _ _ _ p _ _ _ tiles) =
    leaf-LeavesOf t ts (leaf_tokens ts) (located-InSource p) (Tiles-LeavesOf tiles)
