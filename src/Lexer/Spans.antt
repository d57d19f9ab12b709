-- ===== src/Lexer/Spans.antt =====
-- A token of lexer/lexer.c lies where the pointer has moved, and how a routine comes to make one.
use arche.Base.{ℕ, ◌-◌, ◌<◌, ◌≡◌, refl, arith}
use arche.Base.{true, false, [], ◌∷◌, inl, inr, ◌⊎◌}
use arche.Base.{length}
use arche.Base.{Bytes}
use arche.Lexer.Kind.{TokenKind, tok_eof, tok_error}
use arche.Lexer.Token.{Token, offset, promote, make_token, error_token}
use arche.Lexer.State.{Lexer, peek}
use arche.Lexer.Words.{keyword_kind, directive_kind, spanning}
use arche.Lexer.Literals.{base_digit}
use arche.Lexer.Next.{is_eof, two_dots, over_dots}
use arche.Lexer.Moves.{Moves}
use arche.Lexer.Loops.{Moved}

-- The token and the state that a routine gives from `l`: the pointer has moved over `text`, the
-- token has the line and column of `l`, it points at `text` unless it holds a message instead, and
-- `text` is not empty unless the token is the last: then the source ends at `l`.
pub record Spans (l : Lexer) (r : Token × Lexer) : Type 0 where
  pub text : Bytes
  pub moves : Moves l text r.1
  pub line_is : r.0.line ≡ l.line
  pub column_is : r.0.column ≡ l.column
  pub located : ((r.0.start ≡ offset l.cur) × (r.0.length ≡ length text)) ⊎ (r.0.kind ≡ tok_error)
  pub progress :
      ((r.0.kind ≡ tok_eof) × (text ≡ []) × (peek l ≡ 0))
      ⊎ ((is_eof r.0.kind ≡ false) × (l.cur < r.1.cur))

pub Spans-error :
    (text : Bytes) {l l' : Lexer}
    → Moved l l'
    → l.cur < l'.cur
    → Spans l (error_token text l.line l.column, l')
unfolding error_token
Spans-error text m h = record {
  text = m.text;
  moves = m.moves;
  line_is = refl;
  column_is = refl;
  located = inr refl;
  progress = inr (refl, h);
}

pub Spans-make :
    (k : TokenKind) (n : ℕ) {l l' : Lexer}
    → is_eof k ≡ false
    → Moved l l'
    → l.cur < l'.cur
    → n ≡ l'.cur - l.cur
    → Spans l (make_token k (offset l.cur) n l.line l.column, l')
unfolding make_token
Spans-make k n live m h e = record {
  text = m.text;
  moves = m.moves;
  line_is = refl;
  column_is = refl;
  located = inl (refl, omega (arith, m.moves.cur_is));
  progress = inr (live, h);
}

pub Spans-spanning :
    (k : TokenKind) {l l' : Lexer}
    → is_eof k ≡ false
    → Moved l l'
    → l.cur < l'.cur
    → Spans l (spanning k l l', l')
unfolding spanning
Spans-spanning k live m h = Spans-make k _ live m h refl

pub valued-Spans :
    (value : ℕ) {l l' : Lexer} {tok : Token}
    → Spans l (tok, l')
    → Spans l (record tok { int_val = promote value }, l')
valued-Spans value s = record {
  text = s.text;
  moves = s.moves;
  line_is = s.line_is;
  column_is = s.column_is;
  located = s.located;
  progress = s.progress;
}

pub dots-Moved : (m : Lexer) → two_dots m ≡ true → Moved m (over_dots m)
dots-Moved m h = record { text = b'.' ∷ b'.' ∷ []; moves = ground arith }

pub base_digit-nul : (n : ℕ) → base_digit n 0 ≡ false
unfolding base_digit
base_digit-nul n = ground arith

pub keyword_kind-live : (text : Bytes) → is_eof (keyword_kind text) ≡ false
unfolding keyword_kind
keyword_kind-live text = ground arith

pub directive_kind-live : (word : Bytes) → is_eof (directive_kind word) ≡ false
unfolding directive_kind
directive_kind-live word = ground arith
