-- ===== src/Parser/Errors.antt =====
-- The errors that parser/parser.c records: one at most between two recoveries.
use arche.Base.{ℕ, zero, suc, ◌+◌, ◌≤◌, ◌≡◌, refl, ◌∙◌, arith, false}
use arche.Base.{[], ◌∷◌}
use arche.Base.{inl, inr, Bool-cases, if◌then◌else◌, length, length-append, Bytes}
use Prim.Native.String.{String}
use arche.Lexer.Next.{is_eof}
use arche.Parser.State.{Parser, fetch, keep_comment, skip_comments, note_blanks}
use arche.Parser.State.{consume}
use arche.Parser.State.{advance, error, wrap, synchronize, skip_offending, sync_loop}
use arche.Parser.State.{max_comment_loop, max_sync_loop, new_parser, parser_create}
use arche.Parser.Program.{decl_loop, max_decl_loop, parse_program, parse_source}
use arche.Lexer.State.{Lexer, lexer_init}
use arche.Parser.Recovery.{sync_loop-cases, skip_offending-at_end, skip_offending-live}
use arche.Parser.Steps.{Step, advances, synchronizes, flags, reports, wraps, drains}
use arche.Parser.Steps.{counts_depth}
use arche.Parser.Steps.{restricts, marks_foreign, Steps, none_made, one_made, joined}

-- Nothing is reported, and the panic goes on if there is one.
unfoldable pub Quiet : Parser → Parser → Type 0
Quiet p q = (q.errors ≡ p.errors) × (q.panic_mode ≡ p.panic_mode)

Quiet-trans : (p q s : Parser) → Quiet p q → Quiet q s → Quiet p s
unfolding Quiet
Quiet-trans p q s (a, b) (c, d) = (c ∙ a, d ∙ b)

skip_comments-Quiet : (n line : ℕ) (p : Parser) → Quiet p (skip_comments n line p)
unfolding skip_comments Quiet fetch keep_comment
skip_comments-Quiet zero line p = ground arith
skip_comments-Quiet (suc n) line p =
    ground (arith, skip_comments-Quiet n line (fetch (keep_comment line p)))

after_fetch-Quiet :
    (n line : ℕ) (p : Parser)
    → Quiet p (note_blanks line (skip_comments n line (fetch (consume p))))
unfolding note_blanks fetch consume Quiet
after_fetch-Quiet n line p = skip_comments-Quiet n line (fetch (consume p))

pub advance-Quiet : (p : Parser) → Quiet p (advance p)
unfolding advance
advance-Quiet p = after_fetch-Quiet max_comment_loop p.current.line p

sync_loop-zero-Quiet : (p : Parser) → Quiet p (sync_loop zero p)
unfolding sync_loop Quiet
sync_loop-zero-Quiet p = ground arith

sync_loop-Quiet : (n : ℕ) (p : Parser) → Quiet p (sync_loop n p)
sync_loop-Quiet zero p = sync_loop-zero-Quiet p
sync_loop-Quiet (suc n) p = sync_loop-cases Quiet n p (unfold Quiet in (refl, refl)) (λ live.
    Quiet-trans p (advance p) (sync_loop n (advance p)) (advance-Quiet p)
      (sync_loop-Quiet n (advance p)))

skip_offending-calms :
    (p : Parser) → ((skip_offending p).errors ≡ p.errors) × ((skip_offending p).panic_mode ≡ false)
unfolding Quiet
skip_offending-calms p =
    let q = record p { panic_mode = false } in
    elim (Bool-cases (is_eof p.current.kind)) [
      | inl eof ↦ rw (skip_offending-at_end p eof) (refl, refl)
      | inr live ↦ rw (skip_offending-live p live) (advance-Quiet q)
    ]

-- A recovery ends the panic, and keeps the errors that were reported.
pub synchronize-calms :
    (p : Parser) → ((synchronize p).errors ≡ p.errors) × ((synchronize p).panic_mode ≡ false)
unfolding synchronize Quiet
synchronize-calms p =
    let (a, b) = skip_offending-calms p in
    let (c, d) = sync_loop-Quiet max_sync_loop (skip_offending p) in (c ∙ a, d ∙ b)

-- 1 where an error would be recorded, 0 in a panic.
abbrev pub open_for_error : Parser → ℕ
open_for_error p = if p.panic_mode then 0 else 1

-- How often a run recovers.
unfoldable pub recoveries_in : {p q : Parser} → Step p q → ℕ
recoveries_in (synchronizes p) = 1
recoveries_in _ = 0

unfoldable pub recoveries : {p q : Parser} → Steps p q → ℕ
unfolding recoveries_in
recoveries (none_made p) = 0
recoveries (one_made s) = recoveries_in s
recoveries (joined s t) = recoveries s + recoveries t

error-count :
    (msg : String) (p : Parser)
    → length (error msg p).errors + open_for_error (error msg p)
      ≡ length p.errors + open_for_error p
unfolding error
error-count msg p = ground (
  arith,
  length-append p.errors
      (record { text = msg; line = p.current.line; column = p.current.column } ∷ []),
)

abbrev pub Within : ℕ → Parser → Parser → Type 0
Within k p q = length q.errors + open_for_error q ≤ length p.errors + open_for_error p + k

advance-Within : (p : Parser) → Within 0 p (advance p)
unfolding Quiet
advance-Within p = let (e, m) = advance-Quiet p in rw (e, m) (omega arith)

synchronize-Within : (p : Parser) → Within 1 p (synchronize p)
synchronize-Within p = let (e, m) = synchronize-calms p in rw (e, m) (omega arith)

Step-Within : {p q : Parser} (s : Step p q) → Within (recoveries_in s) p q
unfolding recoveries_in wrap
Step-Within (advances p live) = advance-Within p
Step-Within (synchronizes p) = synchronize-Within p
Step-Within (flags p) = omega arith
Step-Within (reports p msg) = omega (arith, error-count msg p)
Step-Within (wraps p cp kind) = omega arith
Step-Within (drains p) = omega arith
Step-Within (counts_depth p d) = omega arith
Step-Within (restricts p v) = omega arith
Step-Within (marks_foreign p v) = omega arith

-- Whatever steps a run makes, it records at most one error, and one more for each recovery.
pub Steps-Within : {p q : Parser} (s : Steps p q) → Within (recoveries s) p q
unfolding recoveries
Steps-Within (none_made p) = omega arith
Steps-Within (one_made s) = Step-Within s
Steps-Within (joined s t) = omega (arith, Steps-Within s, Steps-Within t)

new_parser-open :
    (g : ℕ) (l : Lexer) → length (new_parser g l).errors + open_for_error (new_parser g l) ≡ 1
unfolding new_parser
new_parser-open g l = refl

-- A parse records at most one error, and one more for each time that it recovers.
pub parse_source-errors :
    (g : ℕ) (src : Bytes)
    → length (parse_source g src).errors
      ≤ 1 + recoveries (decl_loop max_decl_loop (parser_create g (lexer_init src))).1
unfolding parse_source parse_program parser_create
parse_source-errors g src =
    let l = lexer_init src in
    omega (
      arith,
      new_parser-open g l,
      advance-Within (new_parser g l),
      Steps-Within (decl_loop max_decl_loop (advance (new_parser g l))).1,
    )
