-- ===== src/Lexer/StringRun.antt =====
-- String literals of lexer/lexer.c `lex_string`: where a literal ends.
use arche.Base.{ℕ, zero, suc, ◌+◌, ◌<◌, ◌≡◌, ◌≢◌, refl, sym, ap, subst, ◌∙◌, arith}
use arche.Base.{true, false, not, ◌&&◌, [], ◌∷◌, ◌++◌}
use arche.Base.{length, length-append, ◌==◌, Bytes}
use arche.Lexer.Kind.{tok_string}
use arche.Lexer.Token.{make_token, offset}
use arche.Lexer.State.{Lexer, first_or_nul, tail_of, peek, is_at_end, advance}
use arche.Lexer.Words.{spanning}
use arche.Lexer.Literals.{string_step, string_loop, lex_string}
use arche.Lexer.Moves.{Moves, Moves-refl, Moves-trans, advance-Moves}

-- The lexer has moved over `text` and stands at `rest`.
pub record Takes (l : Lexer) (text rest : Bytes) (l' : Lexer) : Type 0 where
  pub moves : Moves l text l'
  pub rest_is : l'.rest ≡ rest

pub Takes-refl : (l : Lexer) → Takes l [] l.rest l
Takes-refl l = record { moves = Moves-refl l; rest_is = refl }

pub Takes-trans :
    {l m n : Lexer} {s t rest rest' : Bytes}
    → Takes l s rest m
    → Takes m t rest' n
    → Takes l (s ++ t) rest' n
Takes-trans a b = record { moves = Moves-trans a.moves b.moves; rest_is = b.rest_is }

pub advance-Takes :
    (l : Lexer) (c : ℕ) (rest : Bytes)
    → l.rest ≡ c ∷ rest
    → c ≢ 0
    → Takes l (c ∷ []) rest (advance l)
advance-Takes l c rest e ne =
    let at : peek l ≡ c = ap first_or_nul e in
    let m = subst (λ t. Moves l (t ∷ []) (advance l)) at (advance-Moves l (rw at ne)) in
    record { moves = m; rest_is = ap tail_of (sym m.rest_is ∙ e) }

-- What may stand between the quotes: a backslash takes the byte behind it along.
pub data StringBody : Bytes → Type 0 where
  empty : StringBody []
  plain :
      {c : ℕ} {text : Bytes}
      → c ≢ 0
      → c ≢ b'"'
      → c ≢ b'\\'
      → StringBody text
      → StringBody (c ∷ text)
  escaped : {c : ℕ} {text : Bytes} → c ≢ 0 → StringBody text → StringBody (b'\\' ∷ c ∷ text)

step-plain :
    (l : Lexer) (c : ℕ) (rest : Bytes)
    → l.rest ≡ c ∷ rest
    → c ≢ 0
    → c ≢ b'\\'
    → Takes l (c ∷ []) rest (string_step l)
unfolding string_step
step-plain l c rest e ne nb =
    let at : peek l ≡ c = ap first_or_nul e in
    let plain_byte : peek l == b'\\' ≡ false = ground arith in
    rw plain_byte (advance-Takes l c rest e ne)

step-escaped :
    (l : Lexer) (c : ℕ) (rest : Bytes)
    → l.rest ≡ b'\\' ∷ c ∷ rest
    → c ≢ 0
    → Takes l (b'\\' ∷ c ∷ []) rest (string_step l)
unfolding string_step
step-escaped l c rest e ne =
    let at : peek l ≡ b'\\' = ap first_or_nul e in
    let a = advance-Takes l b'\\' (c ∷ rest) e (omega arith) in
    let next : peek (advance l) ≡ c = ap first_or_nul a.rest_is in
    let goes : peek l == b'\\' && not (is_at_end l) ≡ true = ground arith in
    let again : not (is_at_end (advance l)) ≡ true = ground arith in
    rw (goes, again) (Takes-trans a (advance-Takes (advance l) c rest a.rest_is ne))

loop_goes :
    (fuel : ℕ) (l : Lexer) (c : ℕ) (rest : Bytes)
    → l.rest ≡ c ∷ rest
    → c ≢ 0
    → c ≢ b'"'
    → string_loop (suc fuel) l ≡ string_loop fuel (string_step l)
unfolding string_loop
loop_goes fuel l c rest e ne nq = let at : peek l ≡ c = ap first_or_nul e in ground arith

loop_stops : (fuel : ℕ) (l : Lexer) (rest : Bytes) → l.rest ≡ b'"' ∷ rest → string_loop fuel l ≡ l
unfolding string_loop
loop_stops zero l rest e = refl
loop_stops (suc fuel) l rest e = let at : peek l ≡ b'"' = ap first_or_nul e in ground arith

string_loop-Takes :
    {body : Bytes} (fuel : ℕ) (l : Lexer) (rest : Bytes)
    → StringBody body
    → l.rest ≡ body ++ (b'"' ∷ rest)
    → length body < fuel
    → Takes l body (b'"' ∷ rest) (string_loop fuel l)
string_loop-Takes zero l rest b e enough = elim enough [ ]
string_loop-Takes (suc fuel) l rest empty e enough =
    rw (loop_stops (suc fuel) l rest e) (record { moves = Moves-refl l; rest_is = e })
string_loop-Takes (suc fuel) l rest (plain {c} {text} ne nq nb b) e enough =
    let s = step-plain l c (text ++ (b'"' ∷ rest)) e ne nb in
    rw (loop_goes fuel l c (text ++ (b'"' ∷ rest)) e ne nq)
      (Takes-trans s (string_loop-Takes fuel (string_step l) rest b s.rest_is (omega arith)))
string_loop-Takes (suc fuel) l rest (escaped {c} {text} ne b) e enough =
    let s = step-escaped l c (text ++ (b'"' ∷ rest)) e ne in
    rw (loop_goes fuel l b'\\' (c ∷ (text ++ (b'"' ∷ rest))) e (omega arith) (omega arith))
      (Takes-trans s (string_loop-Takes fuel (string_step l) rest b s.rest_is (omega arith)))

-- A quoted body with anything behind it is lexed as one string token, which begins at the opening
-- quote and covers both quotes and the body, and the lexer goes on behind it.
pub lex_string-quoted :
    (l : Lexer) (body rest : Bytes)
    → StringBody body
    → l.rest ≡ b'"' ∷ (body ++ (b'"' ∷ rest))
    → ((lex_string l).0 ≡ make_token tok_string (offset l.cur) (length body + 2) l.line l.column)
      × Takes l (b'"' ∷ (body ++ (b'"' ∷ []))) rest (lex_string l).1
unfolding lex_string spanning
lex_string-quoted l body rest b e =
    let m = advance l in
    let open_quote = advance-Takes l b'"' (body ++ (b'"' ∷ rest)) e (omega arith) in
    let fuel = length m.rest in
    let inside = string_loop-Takes fuel m rest b open_quote.rest_is (
      omega (
        arith,
        ap (λ (r : Bytes). length r) open_quote.rest_is,
        length-append body (b'"' ∷ rest),
      )) in
    let close = advance-Takes (string_loop fuel m) b'"' rest inside.rest_is (omega arith) in
    let closed : is_at_end (string_loop fuel m) ≡ false =
      let at : peek (string_loop fuel m) ≡ b'"' = ap first_or_nul inside.rest_is in ground arith in
    let taken = Takes-trans open_quote (Takes-trans inside close) in
    rw closed (
      ap (λ n. make_token tok_string (offset l.cur) n l.line l.column)
          (omega (arith, taken.moves.cur_is, length-append body (b'"' ∷ []))),
      taken,
    )
