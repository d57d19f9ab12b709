-- ===== src/Lexer/State.antt =====
-- The `Lexer` struct of lexer/lexer.h and the primitives of lexer/lexer.c that move over the source.
-- `cur` is the offset of the pointer and `rest` the bytes it points at; a source has no end mark of
-- its own, so reading behind the last byte gives the NUL that ends a C string.
use arche.Base.{ℕ, zero, suc, ◌+◌, ◌-◌, Bool, ◌||◌, List, [], ◌∷◌, length}
use arche.Base.{◌==◌, if◌then◌else◌, Bytes}
use arche.Lexer.Token.{Token}

pub record Lexer : Type 0 where
  pub src : Bytes
  pub cur : ℕ
  pub rest : Bytes
  pub line : ℕ
  pub column : ℕ
  -- the tokens of `pending_tokens` from `pending_pos` on; none for NULL
  pub pending_tokens : List Token

abbrev pub first_or_nul : Bytes → ℕ
first_or_nul [] = 0
first_or_nul (c ∷ cs) = c

abbrev pub tail_of : Bytes → Bytes
tail_of [] = []
tail_of (c ∷ cs) = cs

abbrev pub peek : Lexer → ℕ
peek l = first_or_nul l.rest

abbrev pub is_at_end : Lexer → Bool
is_at_end l = peek l == 0

unfoldable pub peek_next : Lexer → ℕ
peek_next l =
    if is_at_end l || first_or_nul (tail_of l.rest) == 0 then 0 else first_or_nul (tail_of l.rest)

-- The state after the pointer has moved; the byte returned is `peek` before.
unfoldable pub advance_over : Bytes → Lexer → Lexer
advance_over [] l = l
advance_over (c ∷ cs) l =
    if c == 0
    then l
    else if c == b'\n'
    then record l { cur = l.cur + 1; rest = cs; line = l.line + 1; column = 1 }
    else record l { cur = l.cur + 1; rest = cs; column = l.column + 1 }

unfoldable pub advance : Lexer → Lexer
unfolding advance_over
advance l = advance_over l.rest l

-- `lexer->cur--; lexer->column--;`, back over the byte `c`.
unfoldable pub retreat : ℕ → Lexer → Lexer
retreat c l = record l { cur = l.cur - 1; rest = c ∷ l.rest; column = l.column - 1 }

-- `while (test(peek(lexer))) advance(lexer);` for at most so many rounds.
unfoldable pub advance_while : ℕ → (ℕ → Bool) → Lexer → Lexer
advance_while zero test l = l
advance_while (suc fuel) test l =
    let more = advance_while fuel test (advance l) in if test (peek l) then more else l

-- Each round takes a byte, so the bytes left bound the rounds.
unfoldable pub skip : (ℕ → Bool) → Lexer → Lexer
unfolding advance_while
skip test l = advance_while (length l.rest) test l

unfoldable pub lexer_init : Bytes → Lexer
lexer_init src = record {
  src = src;
  cur = 0;
  rest = src;
  line = 1;
  column = 1;
  pending_tokens = [];
}
