-- ===== src/Lexer/Moves.antt =====
-- What it means that the lexer has moved over a text, and that its primitives and loops
-- (lexer/lexer.c `advance`, `skip_whitespace` and the `while` loops) do.
use arche.Base.{ℕ, ◌+◌, ◌≡◌, ◌≢◌, refl, sym, ap, ◌∙◌, arith}
use arche.Base.{[], ◌∷◌, ◌++◌, append_assoc}
use arche.Base.{length, length-append, All, All-append, ◌==◌, if◌then◌else◌}
use arche.Base.{Bytes}
use arche.Lexer.State.{Lexer, peek, advance, retreat}

-- The line and the column behind a text that begins at a line and a column.
abbrev pub line_after : Bytes → ℕ → ℕ
line_after [] line = line
line_after (c ∷ cs) line = line_after cs (if c == b'\n' then line + 1 else line)

abbrev pub column_after : Bytes → ℕ → ℕ
column_after [] column = column
column_after (c ∷ cs) column = column_after cs (if c == b'\n' then 1 else column + 1)

-- `text` lies between the states `l` and `l'`, and holds no NUL.
pub record Moves (l : Lexer) (text : Bytes) (l' : Lexer) : Type 0 where
  pub rest_is : l.rest ≡ text ++ l'.rest
  pub cur_is : l'.cur ≡ l.cur + length text
  pub line_is : l'.line ≡ line_after text l.line
  pub column_is : l'.column ≡ column_after text l.column
  pub src_is : l'.src ≡ l.src
  pub pending_is : l'.pending_tokens ≡ l.pending_tokens
  pub no_nul : All (λ c. c ≢ 0) text

line_after-append : (s t : Bytes) (n : ℕ) → line_after (s ++ t) n ≡ line_after t (line_after s n)
line_after-append [] t n = refl
line_after-append (c ∷ s) t n = line_after-append s t (if c == b'\n' then n + 1 else n)

column_after-append :
    (s t : Bytes) (n : ℕ) → column_after (s ++ t) n ≡ column_after t (column_after s n)
column_after-append [] t n = refl
column_after-append (c ∷ s) t n = column_after-append s t (if c == b'\n' then 1 else n + 1)

pub Moves-refl : (l : Lexer) → Moves l [] l
Moves-refl l = record {
  rest_is = refl;
  cur_is = omega arith;
  line_is = refl;
  column_is = refl;
  src_is = refl;
  pending_is = refl;
  no_nul = tt;
}

pub Moves-trans : {l m n : Lexer} {s t : Bytes} → Moves l s m → Moves m t n → Moves l (s ++ t) n
Moves-trans {l} {m} {n} {s} {t} a b = record {
  rest_is = a.rest_is ∙ ap (λ (r : Bytes). s ++ r) b.rest_is ∙ sym (append_assoc s t n.rest);
  cur_is = omega (arith, a.cur_is, b.cur_is, length-append s t);
  line_is = b.line_is ∙ ap (line_after t) a.line_is ∙ sym (line_after-append s t l.line);
  column_is =
      b.column_is ∙ ap (column_after t) a.column_is ∙ sym (column_after-append s t l.column);
  src_is = b.src_is ∙ a.src_is;
  pending_is = b.pending_is ∙ a.pending_is;
  no_nul = All-append (λ c. c ≢ 0) s t a.no_nul b.no_nul;
}

pub advance-Moves : (l : Lexer) → peek l ≢ 0 → Moves l (peek l ∷ []) (advance l)
unfolding advance
advance-Moves l h = ground arith

pub advance_at_end : (l : Lexer) → peek l ≡ 0 → advance l ≡ l
unfolding advance
advance_at_end l h = ground arith

pub retreat-advance : (l : Lexer) → peek l ≢ 0 → peek l ≢ b'\n' → retreat (peek l) (advance l) ≡ l
unfolding advance retreat
retreat-advance l h k = ground arith
