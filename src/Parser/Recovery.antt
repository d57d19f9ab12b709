-- ===== src/Parser/Recovery.antt =====
-- `synchronize` of parser/parser.c goes forward.
use arche.Base.{ℕ, zero, suc, ◌-◌, ◌<◌, ◌≤◌, ◌≡◌, arith, true, false, ◌||◌}
use arche.Base.{inl, inr, Bool-cases}
use arche.Lexer.Next.{is_eof}
use arche.Parser.State.{Parser, advance, synchronize, skip_offending, sync_loop, max_sync_loop}
use arche.Parser.State.{is_semi, begins_construct}
use arche.Parser.Measure.{left, advance-lt-left, left-live}

-- The loop stops at a state, or goes on behind a token.
pub sync_loop-cases :
    (P : Parser → Parser → Type 0) (rounds : ℕ) (p : Parser)
    → P p p
    → (is_eof p.current.kind ≡ false → P p (sync_loop rounds (advance p)))
    → P p (sync_loop (suc rounds) p)
unfolding sync_loop
sync_loop-cases P rounds p here on = elim (Bool-cases (is_eof p.current.kind)) [
  | inl eof ↦ rw eof here
  | inr live ↦ rw live (elim (Bool-cases (is_semi p.previous.kind)) [
    | inl semi ↦ rw semi here
    | inr further ↦ rw further (elim (Bool-cases (begins_construct p.current.kind)) [
      | inl begins ↦ rw begins here
      | inr inner ↦ rw inner (on live)
    ])
  ])
]

left-sync_loop-zero : (p : Parser) → left (sync_loop zero p) ≡ 0
unfolding sync_loop
left-sync_loop-zero p = elim (Bool-cases (is_eof p.current.kind)) [
  | inl eof ↦ rw eof (rw eof)
  | inr live ↦ rw live
]

left-sync_loop : (rounds : ℕ) (p : Parser) → left (sync_loop rounds p) ≤ left p
left-sync_loop zero p = omega (arith, left-sync_loop-zero p)
left-sync_loop (suc rounds) p =
    sync_loop-cases (λ p q. left q ≤ left p) rounds p (omega arith)
      (λ live. omega (arith, left-sync_loop rounds (advance p), advance-lt-left p live))

pub skip_offending-at_end :
    (p : Parser) → is_eof p.current.kind ≡ true → skip_offending p ≡ record p { panic_mode = false }
unfolding skip_offending
skip_offending-at_end p eof = rw eof

pub skip_offending-live :
    (p : Parser)
    → is_eof p.current.kind ≡ false
    → skip_offending p ≡ advance (record p { panic_mode = false })
unfolding skip_offending
skip_offending-live p live = rw live

pub left-skip_offending : (p : Parser) → left (skip_offending p) ≤ left p - 1
left-skip_offending p =
    let q = record p { panic_mode = false } in
    elim (Bool-cases (is_eof p.current.kind)) [
      | inl eof ↦ rw (skip_offending-at_end p eof) (rw eof (omega arith))
      | inr live ↦ rw (skip_offending-live p live) (omega (arith, advance-lt-left q live))
    ]

-- Recovery from an error consumes a token, unless none is left.
pub left-synchronize : (p : Parser) → left (synchronize p) ≤ left p - 1
unfolding synchronize
left-synchronize p =
    omega (arith, left-skip_offending p, left-sync_loop max_sync_loop (skip_offending p))

-- Where `synchronize` stops: at the end mark, behind a `;`, or at a keyword that begins a construct.
abbrev pub AtBoundary : Parser → Type 0
AtBoundary q =
    (is_eof q.current.kind || is_semi q.previous.kind || begins_construct q.current.kind) ≡ true

sync_loop-AtBoundary : (rounds : ℕ) (p : Parser) → AtBoundary (sync_loop rounds p)
unfolding sync_loop
sync_loop-AtBoundary zero p = elim (Bool-cases (is_eof p.current.kind)) [
  | inl eof ↦ rw eof (rw eof)
  | inr live ↦ rw live
]
sync_loop-AtBoundary (suc rounds) p = elim (Bool-cases (is_eof p.current.kind)) [
  | inl eof ↦ rw eof (rw eof)
  | inr live ↦ rw live (elim (Bool-cases (is_semi p.previous.kind)) [
    | inl semi ↦ rw semi (rw (live, semi))
    | inr further ↦ rw further (elim (Bool-cases (begins_construct p.current.kind)) [
      | inl begins ↦ rw begins (rw (live, further, begins))
      | inr inner ↦ rw inner (sync_loop-AtBoundary rounds (advance p))
    ])
  ])
]

pub synchronize-AtBoundary : (p : Parser) → AtBoundary (synchronize p)
unfolding synchronize
synchronize-AtBoundary p = sync_loop-AtBoundary max_sync_loop (skip_offending p)

-- Recovery consumes a token, unless none is left, and stops at a boundary.
pub synchronize-advances :
    (p : Parser)
    → is_eof p.current.kind ≡ false
    → (left (synchronize p) < left p) × AtBoundary (synchronize p)
synchronize-advances p live =
    (omega (arith, left-synchronize p, left-live p live), synchronize-AtBoundary p)
