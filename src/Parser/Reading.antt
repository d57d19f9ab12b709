-- ===== src/Parser/Reading.antt =====
-- `advance` and `synchronize` of parser/parser.c as they consume tokens. A limit on rounds is met
-- only where more is left than the limit.
use arche.Base.{ℕ, zero, suc, ◌+◌, ◌≤◌, ◌≡◌, refl, sym, subst, arith, true}
use arche.Base.{false}
use arche.Base.{List, ◌∷◌, inl, inr, Bool-cases}
use arche.Lexer.Kind.{TokenKind, tok_comment}
use arche.Lexer.Token.{Token}
use arche.Lexer.Next.{is_eof}
use arche.Parser.State.{Parser, leaf, emit, fetch, keep_comment, skip_comments, note_blanks}
use arche.Parser.State.{consume}
use arche.Parser.State.{advance, sync_loop, synchronize, skip_offending}
use arche.Parser.State.{is_comment}
use arche.Parser.State.{max_comment_loop, max_sync_loop}
use arche.Parser.Measure.{left, advance-lt-left, left-live, left-fetch_live}
use arche.Parser.Recovery.{sync_loop-cases, skip_offending-at_end, skip_offending-live}
use arche.Parser.Recovery.{left-skip_offending}
use arche.Parser.Ahead.{Yields, Ahead, at_end, at_token, cut_off, Ahead-same}
use arche.Parser.Reads.{Reads, Reads-none, Reads-trans, Reads-token}

comment-live : (k : TokenKind) → is_comment k ≡ true → is_eof k ≡ false
comment-live tok_comment e = refl
comment-live _ e = absurd (cc)

-- A parser with a token before it has the current one and what its lexer yields.
live-Ahead :
    {b : ℕ} (p : Parser) {ts : List Token}
    → is_eof p.current.kind ≡ false
    → Ahead b p ts
    → (us : List Token) × (ts ≡ p.current ∷ us) × Yields p.lexer us
live-Ahead p live (at_end e n) = absurd (cc)
live-Ahead p live (at_token us e n y) = (us, n, y)
live-Ahead p live (cut_off e h) = absurd (cc)

keep_comment-builder :
    (line : ℕ) (p : Parser) → (keep_comment line p).builder ≡ emit (leaf p.current) p.builder
unfolding keep_comment
keep_comment-builder line p = refl

keep_comment-lexer : (line : ℕ) (p : Parser) → (keep_comment line p).lexer ≡ p.lexer
unfolding keep_comment
keep_comment-lexer line p = refl

consume-builder : (p : Parser) → (consume p).builder ≡ emit (leaf p.current) p.builder
unfolding consume
consume-builder p = refl

consume-lexer : (p : Parser) → (consume p).lexer ≡ p.lexer
unfolding consume
consume-lexer p = refl

module _ (b : ℕ) where
  -- What consuming a token does, where `next` is what follows.
  Reads-live :
      (p q s : Parser) (ts : List Token)
      → is_eof p.current.kind ≡ false
      → Ahead b p ts
      → q.builder ≡ emit (leaf p.current) p.builder
      → q.lexer ≡ p.lexer
      → ((us : List Token) → Ahead b (fetch q) us → Reads b (fetch q) s us)
      → Reads b p s ts
  Reads-live p q s ts live a e l next =
      let (us, n, y) = live-Ahead p live a in
      let x = Reads-token b p q us e l y in
      subst (λ us. Reads b p s us) (sym n) (Reads-trans x (next x.rest x.ahead))

  skip_comments-zero-Reads :
      (line : ℕ) (p : Parser) (ts : List Token)
      → Ahead b p ts
      → left p + 1000 ≤ b
      → Reads b p (skip_comments zero line p) ts
  unfolding skip_comments
  skip_comments-zero-Reads line p ts a h = elim (Bool-cases (is_comment p.current.kind)) [
    | inl c ↦ rw c (
        Reads-none b p _ ts refl
          (cut_off refl (omega (arith, left-live p (comment-live p.current.kind c)))))
    | inr d ↦ rw d (Reads-none b p p ts refl a)
  ]

  skip_comments-suc-Reads :
      (n line : ℕ) (p : Parser) (ts : List Token)
      → Ahead b p ts
      → ((us : List Token)
          → is_eof p.current.kind ≡ false
          → Ahead b (fetch (keep_comment line p)) us
          → Reads b
              (fetch (keep_comment line p))
              (skip_comments n line (fetch (keep_comment line p)))
              us)
      → Reads b p (skip_comments (suc n) line p) ts
  unfolding skip_comments
  skip_comments-suc-Reads n line p ts a next = elim (Bool-cases (is_comment p.current.kind)) [
    | inl c ↦
        let live = comment-live p.current.kind c in
        rw c (
          Reads-live p (keep_comment line p) _ ts live a (keep_comment-builder line p)
            (keep_comment-lexer line p) (λ us. next us live))
    | inr d ↦ rw d (Reads-none b p p ts refl a)
  ]

  note_blanks-Reads :
      (line : ℕ) (p : Parser) (ts : List Token) → Ahead b p ts → Reads b p (note_blanks line p) ts
  unfolding note_blanks
  note_blanks-Reads line p ts a = Reads-none b p _ ts refl (Ahead-same p _ refl refl a)

  skip_comments-Reads :
      (n line : ℕ) (p : Parser) (ts : List Token)
      → Ahead b p ts
      → left p + 1000 ≤ b + n
      → Reads b p (skip_comments n line p) ts
  skip_comments-Reads zero line p ts a h = skip_comments-zero-Reads line p ts a (omega arith)
  skip_comments-Reads (suc n) line p ts a h = skip_comments-suc-Reads n line p ts a (λ us live a'.
      skip_comments-Reads n line (fetch (keep_comment line p)) us a'
        (omega (arith, left-fetch_live p (keep_comment line p) live (keep_comment-lexer line p))))

  -- Behind the consumed token `q` and what its lexer yields.
  pub after_fetch-Reads :
      (n line : ℕ) (q : Parser) (us : List Token)
      → Ahead b q us
      → left q + 1000 ≤ b + n
      → Reads b q (note_blanks line (skip_comments n line q)) us
  after_fetch-Reads n line q us a h =
      let x = skip_comments-Reads n line q us a h in
      Reads-trans x (note_blanks-Reads line (skip_comments n line q) x.rest x.ahead)

  pub advance-Reads :
      (p : Parser) (ts : List Token)
      → is_eof p.current.kind ≡ false
      → Ahead b p ts
      → left p ≤ b
      → Reads b p (advance p) ts
  unfolding advance
  advance-Reads p ts live a h =
      Reads-live p (consume p) _ ts live a (consume-builder p) (consume-lexer p) (λ us a'.
        after_fetch-Reads max_comment_loop p.current.line (fetch (consume p)) us a'
          (omega (arith, left-fetch_live p (consume p) live (consume-lexer p))))

  sync_loop-zero-Reads :
      (p : Parser) (ts : List Token)
      → Ahead b p ts
      → left p + 1000 ≤ b
      → Reads b p (sync_loop zero p) ts
  unfolding sync_loop
  sync_loop-zero-Reads p ts a h = elim (Bool-cases (is_eof p.current.kind)) [
    | inl eof ↦ rw eof (Reads-none b p p ts refl a)
    | inr live ↦ rw live (Reads-none b p _ ts refl (cut_off refl (omega (arith, left-live p live))))
  ]

  sync_loop-Reads :
      (n : ℕ) (p : Parser) (ts : List Token)
      → Ahead b p ts
      → left p ≤ b
      → left p + 1000 ≤ b + n
      → Reads b p (sync_loop n p) ts
  sync_loop-Reads zero p ts a k h = sync_loop-zero-Reads p ts a (omega arith)
  sync_loop-Reads (suc n) p ts a k h =
      sync_loop-cases (λ p q. Reads b p q ts) n p (Reads-none b p p ts refl a)
        (λ live.
          let x = advance-Reads p ts live a k in
          Reads-trans x (
            sync_loop-Reads n (advance p) x.rest x.ahead (omega (arith, advance-lt-left p live))
              (omega (arith, advance-lt-left p live))))

  skip_offending-Reads :
      (p : Parser) (ts : List Token) → Ahead b p ts → left p ≤ b → Reads b p (skip_offending p) ts
  skip_offending-Reads p ts a h =
      let q = record p { panic_mode = false } in
      elim (Bool-cases (is_eof p.current.kind)) [
        | inl eof ↦
            rw (skip_offending-at_end p eof) (Reads-none b p q ts refl (Ahead-same p q refl refl a))
        | inr live ↦
            let x = Reads-none b p q ts refl (Ahead-same p q refl refl a) in
            rw (skip_offending-live p live) (Reads-trans x (advance-Reads q x.rest live x.ahead h))
      ]

  pub synchronize-Reads :
      (p : Parser) (ts : List Token) → Ahead b p ts → left p ≤ b → Reads b p (synchronize p) ts
  unfolding synchronize
  synchronize-Reads p ts a h =
      let x = skip_offending-Reads p ts a h in
      let k = left-skip_offending p in
      Reads-trans x (
        sync_loop-Reads max_sync_loop (skip_offending p) x.rest x.ahead (omega (arith, k))
          (omega (arith, k)))
