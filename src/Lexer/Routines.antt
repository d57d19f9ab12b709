-- ===== src/Lexer/Routines.antt =====
-- Every routine of lexer/lexer.c that makes a token, and where its token lies.
use arche.Base.{ℕ, ◌<◌, ◌≡◌, ◌≢◌, refl, arith}
use arche.Base.{true, false, ◌&&◌, not, inl, inr}
use arche.Base.{length, ◌==◌, if◌then◌else◌}
use arche.Base.{Bytes, Bool-cases, is_digit}
use arche.Lexer.Kind.{TokenKind, tok_dot, tok_dotdotdot, tok_char_lit}
use arche.Lexer.Kind.{tok_number, tok_comment, tok_string}
use arche.Lexer.Token.{Token}
use arche.Lexer.State.{Lexer, peek, peek_next, is_at_end, advance, skip}
use arche.Lexer.Words.{in_line, is_ident_char}
use arche.Lexer.Words.{is_ident_start, lex_comment}
use arche.Lexer.Words.{lex_block_comment, lex_identifier, lex_directive}
use arche.Lexer.Literals.{digit_or_separator, lex_decimal, lex_number, close_char_lit}
use arche.Lexer.Literals.{escaped_char_lit}
use arche.Lexer.Literals.{string_loop, lex_char_lit, lex_string, base_digit, names_base}
use arche.Lexer.Next.{is_eof, two_dots, when◌is◌then◌else◌, single, refused, pair}
use arche.Lexer.Next.{lex_dots, lex_operator, lex_symbol}
use arche.Lexer.Loops.{Moved, Moved-refl, Moved-trans, Moved-le, if_Moved, advance-Moved}
use arche.Lexer.Loops.{cur-advance, skip-Moved, skip_progress, block_comment_loop-Moved}
use arche.Lexer.Loops.{string_loop-Moved}
use arche.Lexer.Spans.{Spans, Spans-error, Spans-make, Spans-spanning, valued-Spans, dots-Moved}
use arche.Lexer.Spans.{base_digit-nul, keyword_kind-live, directive_kind-live}

module _ (l : Lexer) (ne : peek l ≢ 0) where
  -- Beyond its first byte a routine only moves forward.
  after_first : {l' : Lexer} → Moved (advance l) l' → Moved l l' × (l.cur < l'.cur)
  after_first m = (Moved-trans (advance-Moved l) m, omega (arith, Moved-le m, cur-advance l ne))

  pub lex_comment-Spans : Spans l (lex_comment l)
  unfolding lex_comment
  lex_comment-Spans =
      let (m, h) =
        after_first (
          Moved-trans (advance-Moved (advance l))
            (skip-Moved in_line (advance (advance l)) refl)) in
      Spans-spanning tok_comment refl m h

  pub lex_block_comment-Spans : Spans l (lex_block_comment l)
  unfolding lex_block_comment
  lex_block_comment-Spans =
      let (m, h) =
        after_first (Moved-trans (advance-Moved (advance l)) (block_comment_loop-Moved _ _)) in
      Spans-spanning tok_comment refl m h

  pub lex_directive-Spans : Spans l (lex_directive l (advance l))
  unfolding lex_directive
  lex_directive-Spans =
      let (m, h) = after_first (skip-Moved is_ident_char (advance l) refl) in
      Spans-spanning _ (directive_kind-live _) m h

  pub lex_string-Spans : Spans l (lex_string l)
  unfolding lex_string
  lex_string-Spans =
      let e = string_loop-Moved (length (advance l).rest) (advance l) in
      let (m, h) = after_first e in
      let (m', h') = after_first (Moved-trans e (advance-Moved _)) in
      elim (Bool-cases (is_at_end (string_loop (length (advance l).rest) (advance l)))) [
        | inl t ↦ rw t (Spans-error _ m h)
        | inr f ↦ rw f (Spans-spanning tok_string refl m' h')
      ]

  pub lex_identifier-Spans : is_ident_start (peek l) ≡ true → Spans l (lex_identifier l)
  unfolding lex_identifier
  lex_identifier-Spans h =
      Spans-spanning _ (keyword_kind-live _) (skip-Moved is_ident_char l refl)
        (skip_progress is_ident_char l refl (ground (arith, h)))

  decimal-Moved : Moved l (lex_decimal l)
  unfolding lex_decimal
  decimal-Moved =
      let w = skip digit_or_separator l in
      let whole = skip-Moved digit_or_separator l refl in
      if_Moved (peek w == b'.' && is_digit (peek_next w))
        (Moved-trans whole
          (Moved-trans (advance-Moved w) (skip-Moved digit_or_separator (advance w) refl)))
        whole

  decimal_progress : is_digit (peek l) ≡ true → l.cur < (lex_decimal l).cur
  unfolding lex_decimal
  decimal_progress h =
      let w = skip digit_or_separator l in
      ground (
        arith,
        skip_progress digit_or_separator l refl (ground (arith, h)),
        Moved-le (advance-Moved w),
        Moved-le (skip-Moved digit_or_separator (advance w) refl),
      )

  pub lex_number-Spans : is_digit (peek l) ≡ true → Spans l (lex_number l)
  unfolding lex_number
  lex_number-Spans h = elim (Bool-cases (peek l == b'0' && names_base (peek_next l))) [
    | inl t ↦
        let n = peek_next l in
        let (m, h') = after_first (
          Moved-trans (advance-Moved (advance l))
            (skip-Moved (base_digit n) (advance (advance l)) (base_digit-nul n))) in
        rw t (Spans-spanning tok_number refl m h')
    | inr f ↦ rw f (Spans-spanning tok_number refl decimal-Moved (decimal_progress h))
  ]

  single-Spans : (k : TokenKind) → is_eof k ≡ false → Spans l (single l (advance l) k)
  unfolding single
  single-Spans k live =
      let (m, h) = after_first (Moved-refl (advance l)) in
      Spans-make k 1 live m h (omega (arith, cur-advance l ne))

  refused-Spans : (text : Bytes) → Spans l (refused l (advance l) text)
  unfolding refused
  refused-Spans text = let (m, h) = after_first (Moved-refl (advance l)) in Spans-error text m h

  pair-Spans :
      (d : ℕ) (k : TokenKind) {other : Token × Lexer}
      → (d == 0) ≡ false
      → is_eof k ≡ false
      → Spans l other
      → Spans l (pair d k l (advance l) other)
  unfolding pair
  pair-Spans d k nd live o = elim (Bool-cases (peek (advance l) == d)) [
    | inl t ↦
        let (m, h) = after_first (advance-Moved (advance l)) in
        rw t (
          Spans-make k 2 live m h
            (omega (arith, cur-advance l ne, cur-advance (advance l) (λ e. ground arith))))
    | inr f ↦ rw f o
  ]

  when-Spans :
      (c d : ℕ) {x y : Token × Lexer} → Spans l x → Spans l y → Spans l (when c is d then x else y)
  unfolding when◌is◌then◌else◌
  when-Spans c d h k = elim (Bool-cases (c == d)) [ inl t ↦ rw t h | inr f ↦ rw f k ]

  pub lex_dots-Spans : Spans l (lex_dots l (advance l))
  unfolding lex_dots
  lex_dots-Spans = elim (Bool-cases (two_dots (advance l))) [
    | inl t ↦
        let (m, h) = after_first (dots-Moved (advance l) t) in
        rw t (Spans-make tok_dotdotdot 3 refl m h (omega (arith, cur-advance l ne)))
    | inr f ↦ rw f (single-Spans tok_dot refl)
  ]

  pub lex_operator-Spans : (c : ℕ) → Spans l (lex_operator c l (advance l))
  unfolding lex_operator
  lex_operator-Spans c = search (when-Spans, pair-Spans, single-Spans, refused-Spans) depth 30

  pub lex_symbol-Spans : (c : ℕ) → Spans l (lex_symbol c l (advance l))
  unfolding lex_symbol
  lex_symbol-Spans c =
      search (when-Spans, single-Spans, lex_dots-Spans, lex_directive-Spans, lex_operator-Spans)
        depth 30

  close_char_lit-Spans :
      (value : ℕ) {m : Lexer} → Moved (advance l) m → Spans l (close_char_lit l value m)
  unfolding close_char_lit
  close_char_lit-Spans value {m} a = elim (Bool-cases (peek m == b'\'')) [
    | inl t ↦
        let (a', h) = after_first (Moved-trans a (advance-Moved m)) in
        rw t (valued-Spans value (Spans-spanning tok_char_lit refl a' h))
    | inr f ↦ let (a', h) = after_first a in rw f (Spans-error _ a' h)
  ]

  pub lex_char_lit-Spans : Spans l (lex_char_lit l)
  unfolding lex_char_lit escaped_char_lit
  lex_char_lit-Spans =
      let m = advance l in
      let here = Moved-refl m in
      let one = advance-Moved m in
      elim (Bool-cases (peek m == b'\\')) [
        | inl t ↦ rw t (elim (Bool-cases (is_at_end (advance m))) [
          | inl e ↦ rw e (close_char_lit-Spans 0 one)
          | inr f ↦ rw f (close_char_lit-Spans _ (Moved-trans one (advance-Moved (advance m))))
        ])
        | inr f ↦ rw f (elim (Bool-cases (not (peek m == b'\'') && not (is_at_end m))) [
          | inl t ↦ rw t (close_char_lit-Spans (peek m) one)
          | inr g ↦ let (a, h) = after_first here in rw g (Spans-error _ a h)
        ])
      ]
