-- ===== src/Parser/Ahead.antt =====
-- What parser/parser.c has before it: the tokens that its lexer has yet to give, and the leaves that
-- the syntax tree is to have of them.
use arche.Base.{ℕ, zero, suc, ◌<◌, ◌≡◌, refl, sym, ap, true, false}
use arche.Base.{List, [], ◌∷◌, ◌++◌, Option, none, some, inl, inr, Bool-cases}
use arche.Base.{append_assoc, some_injective}
use mathlib.Core.Option
use arche.Lexer.Kind.{TokenKind, tok_eof}
use arche.Lexer.Token.{Token}
use arche.Lexer.State.{Lexer}
use arche.Lexer.Next.{next_token, is_eof, tokenize_loop}
use arche.Syntax.Tree.{SyntaxToken}
use arche.Parser.State.{Parser, leaf, fetch}

abbrev pub leaf_list : Option SyntaxToken → List SyntaxToken
leaf_list none = []
leaf_list (some t) = t ∷ []

-- The leaves of tokens: those of the end mark and of errors have none.
unfoldable pub leaf_tokens : List Token → List SyntaxToken
leaf_tokens [] = []
leaf_tokens (t ∷ ts) = leaf_list (leaf t) ++ leaf_tokens ts

pub leaf_tokens-append :
    (ts us : List Token) → leaf_tokens (ts ++ us) ≡ leaf_tokens ts ++ leaf_tokens us
unfolding leaf_tokens
leaf_tokens-append [] us = refl
leaf_tokens-append (t ∷ ts) us = simp (leaf_tokens-append ts us, append_assoc)

-- The lexer gives these tokens, and then the end mark.
unfoldable pub Yields : Lexer → List Token → Type 0
Yields l [] = is_eof (next_token l).0.kind ≡ true
Yields l (t ∷ ts) =
    (is_eof (next_token l).0.kind ≡ false) × ((next_token l).0 ≡ t) × Yields (next_token l).1 ts

-- The tokens before a parser, its current one the first. Where a limit on rounds has cut the parse
-- off, which takes a source with more than 1000 bytes and tokens to go by, nothing is known of them.
pub data Ahead (b : ℕ) (p : Parser) (ts : List Token) : Type 0 where
  at_end : is_eof p.current.kind ≡ true → ts ≡ [] → Ahead b p ts
  at_token :
      (us : List Token)
      → is_eof p.current.kind ≡ false
      → ts ≡ p.current ∷ us
      → Yields p.lexer us
      → Ahead b p ts
  cut_off : is_eof p.current.kind ≡ true → 1000 < b → Ahead b p ts

pub Ahead-same :
    {b : ℕ} {ts : List Token} (p q : Parser)
    → q.current ≡ p.current
    → q.lexer ≡ p.lexer
    → Ahead b p ts
    → Ahead b q ts
Ahead-same p q c l (at_end e n) = at_end (rw c e) n
Ahead-same p q c l (at_token us e n y) = at_token us (rw c e) (rw c n) (rw l y)
Ahead-same p q c l (cut_off e h) = cut_off (rw c e) h

pub fetch-Ahead : (b : ℕ) (p : Parser) (us : List Token) → Yields p.lexer us → Ahead b (fetch p) us
unfolding fetch Yields
fetch-Ahead b p [] y = at_end y refl
fetch-Ahead b p (t ∷ us) (e, same, y) = at_token us e (ap (λ s. s ∷ us) (sym same)) y

leaf-at_end : (k : TokenKind) (t : Token) → t.kind ≡ k → is_eof k ≡ true → leaf t ≡ none
unfolding leaf
leaf-at_end tok_eof t e eof = rw e
leaf-at_end _ t e eof = absurd (cc)

-- The tokens of `lexer_tokenize` are those that the lexer gives, and the end mark.
abbrev pub Gives : Lexer → List Token → Type 0
Gives l toks = (us : List Token) × Yields l us × (leaf_tokens us ≡ leaf_tokens toks)

Gives-last :
    (l : Lexer) (toks : List Token)
    → is_eof (next_token l).0.kind ≡ true
    → some ((next_token l).0 ∷ []) ≡ some toks
    → Gives l toks
unfolding leaf_tokens Yields
Gives-last l toks eof e =
    let t = (next_token l).0 in ([], eof, rw (← some_injective e, leaf-at_end t.kind t refl eof))

Gives-more :
    (l : Lexer) (toks : List Token) (rest : Option (List Token))
    → is_eof (next_token l).0.kind ≡ false
    → ((ts : List Token) → rest ≡ some ts → Gives (next_token l).1 ts)
    → Option.map (◌∷◌ (next_token l).0) rest ≡ some toks
    → Gives l toks
unfolding leaf_tokens Yields
Gives-more l toks none live ih e = cc
Gives-more l toks (some ts) live ih e =
    let (us, y, same) = ih ts refl in
    let t = (next_token l).0 in (t ∷ us, (live, refl, y), rw (← some_injective e, same))

pub tokenize_loop-Yields :
    (fuel : ℕ) (l : Lexer) (toks : List Token) → tokenize_loop fuel l ≡ some toks → Gives l toks
unfolding tokenize_loop
tokenize_loop-Yields zero l toks e = cc
tokenize_loop-Yields (suc fuel) l toks e = elim (Bool-cases (is_eof (next_token l).0.kind)) [
  | inl eof ↦ Gives-last l toks eof (rw eof at e)
  | inr live ↦
      Gives-more l toks (tokenize_loop fuel (next_token l).1) live
        (λ ts. tokenize_loop-Yields fuel (next_token l).1 ts) (rw live at e)
]
