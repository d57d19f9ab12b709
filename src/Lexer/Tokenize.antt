-- ===== src/Lexer/Tokenize.antt =====
-- `lexer_tokenize` of lexer/lexer.c on any source: the tokens that it gathers.
use arche.Base.{ℕ, zero, suc, ◌+◌, ◌<◌, ◌≡◌, refl, ap, ◌∙◌, arith}
use arche.Base.{true, false, List, [], ◌∷◌, ◌++◌, inl, inr, ◌⊎◌}
use arche.Base.{length, length-append, All, some}
use arche.Base.{Bytes}
use arche.Lexer.Kind.{tok_eof, tok_error}
use arche.Lexer.Token.{Token, offset}
use arche.Lexer.State.{Lexer, peek, first_or_nul, lexer_init}
use arche.Lexer.Words.{is_space}
use arche.Lexer.Next.{next_token, is_eof, tokenize_loop, tokenize}
use arche.Lexer.Moves.{line_after, column_after}
use arche.Lexer.Stream.{Lexed, next_token-Lexed}

-- The token has the offset, length, line and column of `text`, which begins at a position; an error
-- has the line and column, and a message in place of the offset and length.
pub record Placed (tok : Token) (at line column : ℕ) (text : Bytes) : Type 0 where
  pub line_is : tok.line ≡ line
  pub column_is : tok.column ≡ column
  pub located : ((tok.start ≡ offset at) × (tok.length ≡ length text)) ⊎ (tok.kind ≡ tok_error)

-- The tokens tile a text that begins at an offset, a line and a column: between them there is
-- whitespace and nothing else, each but the last covers a nonempty text, and the last is the end
-- mark, at the end of the text or at its first NUL.
pub data Tiles : ℕ → ℕ → ℕ → Bytes → List Token → Type 0 where
  last :
      {at line column : ℕ} {whole : Bytes} {tok : Token} (gap rest : Bytes)
      → whole ≡ gap ++ rest
      → All (λ c. is_space c ≡ true) gap
      → first_or_nul rest ≡ 0
      → tok.kind ≡ tok_eof
      → Placed tok (at + length gap) (line_after gap line) (column_after gap column) []
      → Tiles at line column whole (tok ∷ [])
  more :
      {at line column at' line' column' : ℕ} {whole : Bytes} {tok : Token} {toks : List Token}
      (gap text rest : Bytes)
      → whole ≡ gap ++ (text ++ rest)
      → All (λ c. is_space c ≡ true) gap
      → 0 < length text
      → is_eof tok.kind ≡ false
      → Placed tok (at + length gap) (line_after gap line) (column_after gap column) text
      → at' ≡ at + length gap + length text
      → line' ≡ line_after text (line_after gap line)
      → column' ≡ column_after text (column_after gap column)
      → Tiles at' line' column' rest toks
      → Tiles at line column whole (tok ∷ toks)

Placed-Lexed :
    {l : Lexer} {r : Token × Lexer} (x : Lexed l r)
    → Placed r.0
        (l.cur + length x.gap)
        (line_after x.gap l.line)
        (column_after x.gap l.column)
        x.spans.text
Placed-Lexed x =
    let g = x.gap_moves in
    record {
      line_is = x.spans.line_is ∙ g.line_is;
      column_is = x.spans.column_is ∙ g.column_is;
      located = rw (← g.cur_is) x.spans.located;
    }

-- The tokens from a state on, as the loop gathers them.
abbrev Gathers : ℕ → Lexer → Type 0
Gathers fuel l =
    (toks : List Token) × (tokenize_loop fuel l ≡ some toks)
    × Tiles l.cur l.line l.column l.rest toks

module _ (l : Lexer) (x : Lexed l (next_token l)) where
  Lexed_shorter :
      x.begin.cur < (next_token l).1.cur
      → (length (next_token l).1.rest < length l.rest) × (0 < length x.spans.text)
  Lexed_shorter further =
      let size = λ (r : Bytes). length r in
      let a = ap size x.gap_moves.rest_is ∙ length-append x.gap x.begin.rest in
      let b = ap size x.spans.moves.rest_is ∙ length-append x.spans.text (next_token l).1.rest in
      (omega (arith, x.spans.moves.cur_is), omega (arith, x.spans.moves.cur_is))

  Gathers-last :
      (fuel : ℕ)
      → (next_token l).0.kind ≡ tok_eof
      → x.spans.text ≡ []
      → peek x.begin ≡ 0
      → Gathers (suc fuel) l
  unfolding tokenize_loop
  Gathers-last fuel eof none_left at_end = (
    (next_token l).0 ∷ [],
    rw eof,
    last x.gap x.begin.rest x.gap_moves.rest_is x.gap_is_space at_end eof
        (rw none_left at (Placed-Lexed x)),
  )

  Gathers-more :
      (fuel : ℕ)
      → is_eof (next_token l).0.kind ≡ false
      → x.begin.cur < (next_token l).1.cur
      → Gathers fuel (next_token l).1
      → Gathers (suc fuel) l
  unfolding tokenize_loop
  Gathers-more fuel live further (toks, e, t) =
      let g = x.gap_moves in
      let m = x.spans.moves in
      (
        (next_token l).0 ∷ toks,
        rw (live, e),
        more x.gap x.spans.text (next_token l).1.rest
            (g.rest_is ∙ ap (λ (r : Bytes). x.gap ++ r) m.rest_is) x.gap_is_space
            (Lexed_shorter further).1 live (Placed-Lexed x) (omega (arith, g.cur_is, m.cur_is))
            (m.line_is ∙ ap (line_after x.spans.text) g.line_is)
            (m.column_is ∙ ap (column_after x.spans.text) g.column_is) t,
      )

loop-Gathers :
    (fuel : ℕ) (l : Lexer) → l.pending_tokens ≡ [] → length l.rest < fuel → Gathers fuel l
loop-Gathers zero l e h = elim h [ ]
loop-Gathers (suc fuel) l e h =
    let x = next_token-Lexed l e in
    elim x.spans.progress [
      | inl (eof, none_left, at_end) ↦ Gathers-last l x fuel eof none_left at_end
      | inr (live, further) ↦ Gathers-more l x fuel live further (
          loop-Gathers fuel (next_token l).1 (x.spans.moves.pending_is ∙ x.gap_moves.pending_is ∙ e)
            (omega (arith, Lexed_shorter l x further)))
    ]

-- On every source the loop ends, and the tokens tile the source: each has the offset, length, line
-- and column of its text, and only whitespace stands between them.
pub tokenize-Tiles :
    (src : Bytes) → (toks : List Token) × (tokenize src ≡ some toks) × Tiles 0 1 1 src toks
unfolding tokenize lexer_init
tokenize-Tiles src = loop-Gathers (suc (length src)) (lexer_init src) refl (omega arith)
