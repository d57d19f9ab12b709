-- ===== src/Parser/Measure.antt =====
-- How much of the source is left to the parser of parser/parser.c, a number that every token
-- consumed lowers. Loops and recursion of the parser end by it.
use arche.Base.{ℕ, zero, suc, ◌+◌, ◌<◌, ◌≤◌, ◌≡◌, refl, ap, ◌∙◌, subst, arith, true}
use arche.Base.{false}
use arche.Base.{List, [], ◌∷◌, inl, inr, ◌⊎◌, length, length-append, if◌then◌else◌}
use arche.Lexer.Token.{Token}
use arche.Lexer.State.{Lexer}
use arche.Lexer.Next.{next_token, next_or_pending, is_eof}
use arche.Lexer.Stream.{next_token-Lexed}
use arche.Parser.State.{Parser, fetch, keep_comment, skip_comments, note_blanks, consume}
use arche.Parser.State.{advance}
use arche.Parser.State.{max_comment_loop}

-- The tokens that wait and the bytes behind them.
abbrev pub size : Lexer → ℕ
size l = length l.pending_tokens + length l.rest

-- Nothing is left at the end mark; at any other token that token is left, and what the lexer has.
abbrev pub left : Parser → ℕ
left p = if is_eof p.current.kind then 0 else suc (size p.lexer)

-- A call of the lexer shortens what it has, or gives the end mark and does not lengthen it.
Shortens : Lexer → Token × Lexer → Type 0
Shortens l r = (size r.1 < size l) ⊎ ((is_eof r.0.kind ≡ true) × (size r.1 ≤ size l))

lexed-Shortens : (l : Lexer) → l.pending_tokens ≡ [] → Shortens l (next_token l)
unfolding Shortens
lexed-Shortens l e =
    let x = next_token-Lexed l e in
    let sizes = λ (r : List ℕ). length r in
    let waiting = λ (r : List Token). length r in
    let a = ap sizes x.gap_moves.rest_is ∙ length-append x.gap x.begin.rest in
    let b = ap sizes x.spans.moves.rest_is ∙ length-append x.spans.text (next_token l).1.rest in
    let c = ap waiting (x.spans.moves.pending_is ∙ x.gap_moves.pending_is) in
    elim x.spans.progress [
      | inl (eof, none_left, at_end) ↦ inr (rw eof, omega arith)
      | inr (live, further) ↦ inl (omega (arith, x.spans.moves.cur_is))
    ]

pending-Shortens :
    (ts : List Token) (l : Lexer) → l.pending_tokens ≡ ts → Shortens l (next_or_pending ts l)
unfolding Shortens next_or_pending
pending-Shortens [] l e =
    subst (λ ts. Shortens l (next_or_pending ts l)) (e) (unfold next_token in lexed-Shortens l e)
pending-Shortens (t ∷ ts) l e = inl (rw e (omega arith))

next_token-Shortens : (l : Lexer) → Shortens l (next_token l)
unfolding next_token
next_token-Shortens l = pending-Shortens l.pending_tokens l refl

pub left-fetch : (p : Parser) → left (fetch p) ≤ size p.lexer
unfolding fetch Shortens
left-fetch p = elim (next_token-Shortens p.lexer) [
  | inl less ↦ ground arith
  | inr (eof, bound) ↦ rw eof (omega arith)
]

left-keep_comment : (line : ℕ) (p : Parser) → left (keep_comment line p) ≡ left p
unfolding keep_comment
left-keep_comment line p = refl

left-skip_comments : (n line : ℕ) (p : Parser) → left (skip_comments n line p) ≤ left p
unfolding skip_comments
left-skip_comments zero line p = ground arith
left-skip_comments (suc n) line p =
    let q = keep_comment line p in
    ground (arith, left-skip_comments n line (fetch q), left-fetch q, left-keep_comment line p)

left-note_blanks : (line : ℕ) (p : Parser) → left (note_blanks line p) ≡ left p
unfolding note_blanks
left-note_blanks line p = refl

left-after_consume :
    (n line : ℕ) (p : Parser)
    → is_eof p.current.kind ≡ false
    → left (note_blanks line (skip_comments n line (fetch (consume p)))) < left p
unfolding consume
left-after_consume n line p live =
    let q = fetch (consume p) in
    rw live (
      omega (
        arith,
        left-note_blanks line (skip_comments n line q),
        left-skip_comments n line q,
        left-fetch (consume p),
      ))

-- Each token consumed lowers what is left.
pub advance-lt-left : (p : Parser) → is_eof p.current.kind ≡ false → left (advance p) < left p
unfolding advance
advance-lt-left p live = left-after_consume max_comment_loop p.current.line p live

pub left-live : (p : Parser) → is_eof p.current.kind ≡ false → 0 < left p
left-live p live = rw live (omega arith)

-- The next token leaves less than the current one.
pub left-fetch_live :
    (p q : Parser) → is_eof p.current.kind ≡ false → q.lexer ≡ p.lexer → left (fetch q) < left p
left-fetch_live p q live e =
    let same : size q.lexer ≡ size p.lexer = ap size e in
    rw live (omega (arith, left-fetch q, same))

left-after_fetch :
    (n line : ℕ) (p : Parser)
    → left (note_blanks line (skip_comments n line (fetch (consume p)))) ≤ size p.lexer
unfolding consume
left-after_fetch n line p =
    let q = fetch (consume p) in
    omega (
      arith,
      left-note_blanks line (skip_comments n line q),
      left-skip_comments n line q,
      left-fetch (consume p),
    )

pub left-advance : (p : Parser) → left (advance p) ≤ size p.lexer
unfolding advance
left-advance p = left-after_fetch max_comment_loop p.current.line p
