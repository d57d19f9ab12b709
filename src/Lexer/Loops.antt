-- ===== src/Lexer/Loops.antt =====
-- The loops of lexer/lexer.c, and the text that each of them moves over.
use arche.Base.{ℕ, zero, suc, ◌+◌, ◌-◌, ◌<◌, ◌≤◌, ◌≡◌, ◌≢◌, ap, ◌∙◌, arith}
use arche.Base.{Bool, true, false, ◌&&◌, not, [], ◌∷◌, ◌++◌, inl, inr, ◌⊎◌}
use arche.Base.{length, length-append, take_append, All, ◌==◌, if◌then◌else◌}
use arche.Base.{Bytes, Bool-cases}
use arche.Lexer.State.{Lexer, peek, peek_next, is_at_end, advance, advance_while, skip}
use arche.Lexer.State.{first_or_nul}
use arche.Lexer.Words.{lexeme, block_comment_loop}
use arche.Lexer.Literals.{string_step, string_loop}
use native.Mathlib.Decide.{ℕ_discrete}
use arche.Lexer.Moves.{advance_at_end, Moves, Moves-refl, Moves-trans, advance-Moves}

-- The lexer has taken the longest text whose bytes all pass the test.
pub record Scanned (test : ℕ → Bool) (l l' : Lexer) : Type 0 where
  pub text : Bytes
  pub moves : Moves l text l'
  pub passes : All (λ c. test c ≡ true) text
  pub stops : test (peek l') ≡ false

-- A nonempty text shortens what is left.
pub Moves-shorter :
    {l l' : Lexer} {c : ℕ} {text : Bytes} → Moves l (c ∷ text) l' → length l'.rest < length l.rest
Moves-shorter {l} {l'} {c} {text} m =
    omega (arith, ap (λ (r : Bytes). length r) m.rest_is, length-append text l'.rest)

pub peek_none : (l : Lexer) → length l.rest ≤ 0 → peek l ≡ 0
peek_none l h = ground arith

Scanned-none : (test : ℕ → Bool) (l : Lexer) → test (peek l) ≡ false → Scanned test l l
Scanned-none test l h = record { text = []; moves = Moves-refl l; passes = tt; stops = h }

Scanned-cons :
    (test : ℕ → Bool) {l l' : Lexer}
    → peek l ≢ 0
    → test (peek l) ≡ true
    → Scanned test (advance l) l'
    → Scanned test l l'
Scanned-cons test {l} ne h s = record {
  text = peek l ∷ s.text;
  moves = Moves-trans (advance-Moves l ne) s.moves;
  passes = (h, s.passes);
  stops = s.stops;
}

pub peek-ne-nul : (test : ℕ → Bool) (c : ℕ) → test 0 ≡ false → test c ≡ true → c ≢ 0
peek-ne-nul test c at_nul h e = cc (ap test e)

advance_while-Scanned :
    (fuel : ℕ) (test : ℕ → Bool) (l : Lexer)
    → test 0 ≡ false
    → length l.rest ≤ fuel
    → Scanned test l (advance_while fuel test l)
unfolding advance_while
advance_while-Scanned zero test l at_nul h = Scanned-none test l (ap test (peek_none l h) ∙ at_nul)
advance_while-Scanned (suc fuel) test l at_nul h = elim (Bool-cases (test (peek l))) [
  | inl more ↦
      let ne = peek-ne-nul test (peek l) at_nul more in
      rw more (
        Scanned-cons test ne more (
          advance_while-Scanned fuel test (advance l) at_nul
            (omega (arith, Moves-shorter (advance-Moves l ne)))))
  | inr done ↦ rw done (Scanned-none test l done)
]

-- A loop that tests the next byte, by a test that the NUL fails, takes the longest such text.
pub skip-Scanned : (test : ℕ → Bool) (l : Lexer) → test 0 ≡ false → Scanned test l (skip test l)
unfolding skip
skip-Scanned test l at_nul = advance_while-Scanned (length l.rest) test l at_nul (omega arith)

-- What a token's text is, read back from the two states.
pub lexeme-Moves : {l l' : Lexer} {text : Bytes} → Moves l text l' → lexeme l l' ≡ text
unfolding lexeme
lexeme-Moves {l} {l'} {text} m =
    let e : l'.cur - l.cur ≡ length text = omega (arith, m.cur_is) in
    rw (e, m.rest_is) (take_append text l'.rest)

-- The lexer has moved over some text.
pub record Moved (l l' : Lexer) : Type 0 where
  pub text : Bytes
  pub moves : Moves l text l'

pub Moved-refl : (l : Lexer) → Moved l l
Moved-refl l = record { text = []; moves = Moves-refl l }

pub Moved-trans : {l m n : Lexer} → Moved l m → Moved m n → Moved l n
Moved-trans a b = record { text = a.text ++ b.text; moves = Moves-trans a.moves b.moves }

pub Scanned-Moved : {test : ℕ → Bool} {l l' : Lexer} → Scanned test l l' → Moved l l'
Scanned-Moved s = record { text = s.text; moves = s.moves }

pub if_Moved : (b : Bool) {l m n : Lexer} → Moved l m → Moved l n → Moved l (if b then m else n)
if_Moved true h k = h
if_Moved false h k = k

pub advance-Moved : (l : Lexer) → Moved l (advance l)
advance-Moved l = elim (ℕ_discrete (peek l) 0) [
  | yes e ↦ rw (advance_at_end l e) (Moved-refl l)
  | no ne ↦ record { text = peek l ∷ []; moves = advance-Moves l ne }
]

pub cur-advance : (l : Lexer) → peek l ≢ 0 → (advance l).cur ≡ l.cur + 1
cur-advance l ne = (advance-Moves l ne).cur_is

pub Moved-le : {l l' : Lexer} → Moved l l' → l.cur ≤ l'.cur
Moved-le m = omega (arith, m.moves.cur_is)

pub block_comment_loop-Moved : (fuel : ℕ) (l : Lexer) → Moved l (block_comment_loop fuel l)
unfolding block_comment_loop
block_comment_loop-Moved zero l = Moved-refl l
block_comment_loop-Moved (suc fuel) l =
    let one = advance-Moved l in
    if_Moved (is_at_end l) (Moved-refl l) (
      if_Moved (peek l == b'*' && peek_next l == b'/') (Moved-trans one (advance-Moved (advance l)))
        (Moved-trans one (block_comment_loop-Moved fuel (advance l))))

string_step-Moved : (l : Lexer) → Moved l (string_step l)
unfolding string_step
string_step-Moved l =
    let one = advance-Moved l in
    if_Moved (peek l == b'\\' && not (is_at_end l))
      (if_Moved (not (is_at_end (advance l))) (Moved-trans one (advance-Moved (advance l))) one) one

pub string_loop-Moved : (fuel : ℕ) (l : Lexer) → Moved l (string_loop fuel l)
unfolding string_loop
string_loop-Moved zero l = Moved-refl l
string_loop-Moved (suc fuel) l =
    if_Moved (not (peek l == b'"') && not (is_at_end l))
      (Moved-trans (string_step-Moved l) (string_loop-Moved fuel (string_step l))) (Moved-refl l)

pub Moved-shorter : {l l' : Lexer} → Moved l l' → length l'.rest ≤ length l.rest
Moved-shorter {l} {l'} m =
    omega (arith, ap (λ (r : Bytes). length r) m.moves.rest_is, length-append m.text l'.rest)

advance_shorter : (l : Lexer) → peek l ≢ 0 → length (advance l).rest < length l.rest
advance_shorter l ne = Moves-shorter (advance-Moves l ne)

string_step_shorter : (l : Lexer) → peek l ≢ 0 → length (string_step l).rest < length l.rest
unfolding string_step
string_step_shorter l ne =
    ground (arith, advance_shorter l ne, Moved-shorter (advance-Moved (advance l)))

-- Fuel for the bytes left is enough: the loop over a string ends at a quote or at the end.
pub string_loop_stops :
    (fuel : ℕ) (l : Lexer)
    → length l.rest ≤ fuel
    → (peek (string_loop fuel l) ≡ b'"') ⊎ (peek (string_loop fuel l) ≡ 0)
unfolding string_loop
string_loop_stops zero l h = inr (peek_none l h)
string_loop_stops (suc fuel) l h = elim (ℕ_discrete (peek l) 0) [
  | yes e ↦ ground arith
  | no ne ↦ ground (arith, string_step_shorter l ne, string_loop_stops fuel (string_step l))
]

scan_progress :
    (test : ℕ → Bool) {l l' : Lexer} → test (peek l) ≡ true → Scanned test l l' → l.cur < l'.cur
scan_progress test {l} {l'} h s = go s.text s.moves
  where
    go : (text : Bytes) → Moves l text l' → l.cur < l'.cur
    go [] m =
        let same : peek l ≡ peek l' = ap first_or_nul m.rest_is in cc (s.stops, ap test same, h)
    go (c ∷ cs) m = omega (arith, m.cur_is)

pub skip_progress :
    (test : ℕ → Bool) (l : Lexer)
    → test 0 ≡ false
    → test (peek l) ≡ true
    → l.cur < (skip test l).cur
skip_progress test l at_nul h = scan_progress test h (skip-Scanned test l at_nul)

pub skip-Moved : (test : ℕ → Bool) (l : Lexer) → test 0 ≡ false → Moved l (skip test l)
skip-Moved test l at_nul = Scanned-Moved (skip-Scanned test l at_nul)
