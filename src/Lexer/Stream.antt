-- ===== src/Lexer/Stream.antt =====
-- `lexer_next_token` and `lexer_tokenize` of lexer/lexer.c on any source: where their tokens lie.
use arche.Base.{ℕ, ◌≡◌, ◌≢◌, refl, ap, arith}
use arche.Base.{Bool, true, false, ◌&&◌, List, [], ◌∷◌, inl, inr}
use arche.Base.{All, ◌==◌}
use arche.Base.{Bytes, Bool-cases, is_digit}
use arche.Lexer.Kind.{tok_eof}
use arche.Lexer.Token.{Token, offset, make_token}
use arche.Lexer.State.{Lexer, peek, peek_next, is_at_end, advance, skip, retreat}
use arche.Lexer.Words.{is_space, skip_whitespace, is_ident_start}
use arche.Lexer.Next.{lex_token, lex_from, next_or_pending, next_token}
use arche.Lexer.Moves.{Moves, Moves-refl, retreat-advance}
use arche.Lexer.Loops.{skip-Scanned}
use arche.Lexer.Spans.{Spans}
use arche.Lexer.Routines.{lex_identifier-Spans, lex_number-Spans, lex_string-Spans}
use arche.Lexer.Routines.{lex_char_lit-Spans, lex_symbol-Spans, lex_comment-Spans}
use arche.Lexer.Routines.{lex_block_comment-Spans}

-- A byte that begins a longer token is put back.
pub put_back :
    (test : ℕ → Bool) (l : Lexer)
    → test 0 ≡ false
    → test b'\n' ≡ false
    → test (peek l) ≡ true
    → retreat (peek l) (advance l) ≡ l
put_back test l at_nul at_newline h = retreat-advance l (λ e. cc (ap test e)) (λ e. cc (ap test e))

lex_token-Spans : (l : Lexer) → peek l ≢ 0 → Spans l (lex_token l)
unfolding lex_token
lex_token-Spans l ne = elim (Bool-cases (is_ident_start (peek l))) [
  | inl t ↦ rw (t, put_back is_ident_start l refl refl t) (lex_identifier-Spans l ne t)
  | inr f ↦ rw f (elim (Bool-cases (is_digit (peek l))) [
    | inl t ↦ rw (t, put_back is_digit l refl refl t) (lex_number-Spans l ne t)
    | inr f ↦ rw f (elim (Bool-cases (peek l == b'"')) [
      | inl t ↦ rw (t, put_back (λ c. c == b'"') l refl refl t) (lex_string-Spans l ne)
      | inr f ↦ rw f (elim (Bool-cases (peek l == b'\'')) [
        | inl t ↦ rw (t, put_back (λ c. c == b'\'') l refl refl t) (lex_char_lit-Spans l ne)
        | inr f ↦ rw f (lex_symbol-Spans l ne (peek l))
      ])
    ])
  ])
]

lex_end-Spans :
    (l : Lexer) → peek l ≡ 0 → Spans l (make_token tok_eof (offset l.cur) 0 l.line l.column, l)
unfolding make_token
lex_end-Spans l h = record {
  text = [];
  moves = Moves-refl l;
  line_is = refl;
  column_is = refl;
  located = inl (refl, refl);
  progress = inl (refl, refl, h);
}

lex_from-Spans : (l : Lexer) → Spans l (lex_from l)
unfolding lex_from
lex_from-Spans l = elim (Bool-cases (is_at_end l)) [
  | inl t ↦ rw t (lex_end-Spans l (ground (arith, t)))
  | inr f ↦
      let ne : peek l ≢ 0 = ground (arith, f) in
      rw f (elim (Bool-cases (peek l == b'/' && peek_next l == b'*')) [
        | inl t ↦ rw t (lex_block_comment-Spans l ne)
        | inr f ↦ rw f (elim (Bool-cases (peek l == b'/' && peek_next l == b'/')) [
          | inl t ↦ rw t (lex_comment-Spans l ne)
          | inr f ↦ rw f (lex_token-Spans l ne)
        ])
      ])
]

-- Between the state `l` and the token only whitespace is passed.
pub record Lexed (l : Lexer) (r : Token × Lexer) : Type 0 where
  pub gap : Bytes
  pub begin : Lexer
  pub gap_moves : Moves l gap begin
  pub gap_is_space : All (λ c. is_space c ≡ true) gap
  pub spans : Spans begin r

next_or_pending-Lexed : (ts : List Token) (l : Lexer) → ts ≡ [] → Lexed l (next_or_pending ts l)
unfolding next_or_pending skip_whitespace
next_or_pending-Lexed [] l e =
    let s = skip-Scanned is_space l refl in
    record {
      gap = s.text;
      begin = skip is_space l;
      gap_moves = s.moves;
      gap_is_space = s.passes;
      spans = lex_from-Spans (skip is_space l);
    }
next_or_pending-Lexed (t ∷ ts) l e = cc

pub next_token-Lexed : (l : Lexer) → l.pending_tokens ≡ [] → Lexed l (next_token l)
unfolding next_token
next_token-Lexed l e = next_or_pending-Lexed l.pending_tokens l e
