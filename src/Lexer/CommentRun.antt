-- ===== src/Lexer/CommentRun.antt =====
-- Block comments of lexer/lexer.c `lex_block_comment`: where a comment ends.
use arche.Base.{ℕ, zero, suc, ◌<◌, ◌≡◌, ◌≢◌, refl, ap, arith}
use arche.Base.{Bool, false, ◌&&◌, ◌||◌, [], ◌∷◌, ◌++◌}
use arche.Base.{length, length-append, All, ◌==◌, Bytes}
use arche.Lexer.Kind.{tok_comment}
use arche.Lexer.Token.{make_token}
use arche.Lexer.State.{Lexer, first_or_nul, tail_of, peek, peek_next, advance}
use arche.Lexer.Words.{spanning, block_comment_loop, lex_block_comment}
use arche.Lexer.StringRun.{Takes, Takes-trans, advance-Takes}

-- Somewhere in the text a star is followed by a slash.
abbrev pub has_close : Bytes → Bool
has_close [] = false
has_close (c ∷ cs) = c == b'*' && first_or_nul cs == b'/' || has_close cs

first-star :
    (cs rest : Bytes) → first_or_nul (cs ++ (b'*' ∷ rest)) ≡ first_or_nul (cs ++ (b'*' ∷ []))
first-star [] rest = refl
first-star (c ∷ cs) rest = refl

loop_closes :
    (fuel : ℕ) (l : Lexer) (rest : Bytes)
    → l.rest ≡ b'*' ∷ b'/' ∷ rest
    → block_comment_loop (suc fuel) l ≡ advance (advance l)
unfolding block_comment_loop peek_next
loop_closes fuel l rest e =
    let at : peek l ≡ b'*' = ap first_or_nul e in
    let next : first_or_nul (tail_of l.rest) ≡ b'/' =
      ap (λ (r : Bytes). first_or_nul (tail_of r)) e in
    ground arith

loop_goes :
    (fuel : ℕ) (l : Lexer) (c : ℕ) (rest : Bytes)
    → l.rest ≡ c ∷ rest
    → c ≢ 0
    → c == b'*' && first_or_nul rest == b'/' ≡ false
    → block_comment_loop (suc fuel) l ≡ block_comment_loop fuel (advance l)
unfolding block_comment_loop peek_next
loop_goes fuel l c rest e ne open_still =
    let at : peek l ≡ c = ap first_or_nul e in
    let next : first_or_nul (tail_of l.rest) ≡ first_or_nul rest =
      ap (λ (r : Bytes). first_or_nul (tail_of r)) e in
    ground arith

loop-Takes :
    (fuel : ℕ) (l : Lexer) (body rest : Bytes)
    → All (λ c. c ≢ 0) body
    → has_close (body ++ (b'*' ∷ [])) ≡ false
    → l.rest ≡ body ++ (b'*' ∷ b'/' ∷ rest)
    → length body < fuel
    → Takes l (body ++ (b'*' ∷ b'/' ∷ [])) rest (block_comment_loop fuel l)
loop-Takes zero l body rest nn nc e enough = elim enough [ ]
loop-Takes (suc fuel) l [] rest nn nc e enough =
    let a = advance-Takes l b'*' (b'/' ∷ rest) e (omega arith) in
    rw (loop_closes fuel l rest e)
      (Takes-trans a (advance-Takes (advance l) b'/' rest a.rest_is (omega arith)))
loop-Takes (suc fuel) l (c ∷ cs) rest (ne, nn) nc e enough =
    let behind = cs ++ (b'*' ∷ b'/' ∷ rest) in
    let a = advance-Takes l c behind e ne in
    let still : c == b'*' && first_or_nul behind == b'/' ≡ false =
      rw (first-star cs (b'/' ∷ rest)) (ground arith) in
    rw (loop_goes fuel l c behind e ne still) (
      Takes-trans a (loop-Takes fuel (advance l) cs rest nn (ground arith) a.rest_is (omega arith)))

-- A block comment ends at the first star that a slash follows, whatever stands behind.
pub lex_block_comment-closed :
    (l : Lexer) (body rest : Bytes)
    → All (λ c. c ≢ 0) body
    → has_close (body ++ (b'*' ∷ [])) ≡ false
    → l.rest ≡ b'/' ∷ b'*' ∷ (body ++ (b'*' ∷ b'/' ∷ rest))
    → ((lex_block_comment l).0.kind ≡ tok_comment)
      × Takes l (b'/' ∷ b'*' ∷ (body ++ (b'*' ∷ b'/' ∷ []))) rest (lex_block_comment l).1
unfolding lex_block_comment
lex_block_comment-closed l body rest nn nc e =
    let inner = body ++ (b'*' ∷ b'/' ∷ rest) in
    let a = advance-Takes l b'/' (b'*' ∷ inner) e (omega arith) in
    let b = advance-Takes (advance l) b'*' inner a.rest_is (omega arith) in
    let size = ap (λ (r : Bytes). length r) b.rest_is in
    (
      unfold spanning make_token in refl,
      Takes-trans a (
          Takes-trans b (
            loop-Takes _ (advance (advance l)) body rest nn nc b.rest_is
              (omega (arith, size, length-append body (b'*' ∷ b'/' ∷ rest))))),
    )
