-- ===== src/Cli/Parsing.antt =====
-- `args_parse` of cli/args.c on a command line of known pieces.
use arche.Base.{ℕ, ◌+◌, ◌≤◌, ◌<◌, true, List, [], ◌∷◌, ◌++◌, length}
use arche.Base.{take}
use arche.Base.{◌≡◌, refl, ap, sym, ◌∙◌, arith, All, Bytes, codes, text_eq}
use arche.Base.{ltb_iff}
use arche.Base.{append-nil, append_assoc, length-append, Option, none, some}
use arche.Cli.Spec.{ArgSpec, arg_flag, arg_value}
use arche.Cli.Args.{ArgHit, ArgParse, next, past_value, no_args, add_hit, add_pos}
use arche.Cli.Args.{exact_match, exact_as}
use arche.Cli.Args.{forward, args_loop, args_parse}
use arche.Cli.Args.{arg_max_hits, arg_max_pos}
use arche.Cli.Line.{Piece, flag, valued, inlined, positional, written, hits_of, pos_of, IsPiece}
use arche.Cli.Line.{match_specs-exact, match_specs-inlined, inline_value-head, parse_arg-option}
use arche.Cli.Line.{is_positional-no_option, parse_arg-positional, loop-next, loop-past_value}
use arche.Cli.Line.{spec_for}

-- The state with more hits and more positional arguments.
abbrev grown : ArgParse → List ArgHit → List Bytes → ArgParse
grown out hs ps = record out { hits = out.hits ++ hs; pos = out.pos ++ ps }

add_hit-room :
    (out : ArgParse) (id : ℕ) (v : Option Bytes)
    → length out.hits < arg_max_hits
    → add_hit out id v ≡ grown out (record { id = id; value = v } ∷ []) []
unfolding add_hit
add_hit-room out id v h = rw ((ltb_iff (length out.hits) arg_max_hits).1 h, append-nil out.pos) refl

add_pos-room :
    (out : ArgParse) (tok : Bytes)
    → length out.pos < arg_max_pos
    → add_pos out tok ≡ grown out [] (tok ∷ [])
unfolding add_pos
add_pos-room out tok h = rw ((ltb_iff (length out.pos) arg_max_pos).1 h, append-nil out.hits) refl

grown-grown :
    (out : ArgParse) (hs ks : List ArgHit) (ps qs : List Bytes)
    → grown (grown out hs ps) ks qs ≡ grown out (hs ++ ks) (ps ++ qs)
grown-grown out hs ks ps qs = rw (append_assoc out.hits hs ks, append_assoc out.pos ps qs) refl

grown-none : (out : ArgParse) → grown out [] [] ≡ out
grown-none out = rw (append-nil out.hits, append-nil out.pos) refl

exact_match-flag :
    (s : ArgSpec) (following : Option Bytes) (out : ArgParse)
    → s.kind ≡ arg_flag
    → exact_match s following out ≡ next (add_hit out s.id none)
unfolding exact_match exact_as
exact_match-flag s following out k = rw k refl

exact_match-value :
    (s : ArgSpec) (v : Bytes) (out : ArgParse)
    → s.kind ≡ arg_value
    → length out.hits < arg_max_hits
    → exact_match s (some v) out ≡ past_value (add_hit out s.id (some v))
unfolding exact_match exact_as
exact_match-value s v out k h = rw (k, (ltb_iff (length out.hits) arg_max_hits).1 h) refl

-- How the loop passes one piece.
loop-piece :
    (specs : List ArgSpec) (p : Piece) (rest : List Bytes) (out : ArgParse)
    → IsPiece specs p
    → length out.hits + length (hits_of (p ∷ [])) ≤ arg_max_hits
    → length out.pos + length (pos_of (p ∷ [])) ≤ arg_max_pos
    → args_loop specs (written (p ∷ []) ++ rest) out
      ≡ args_loop specs rest (grown out (hits_of (p ∷ [])) (pos_of (p ∷ [])))
unfolding IsPiece hits_of pos_of written
loop-piece specs (flag form s) rest out (o, u, f, k) h _ =
    loop-next specs form rest out _ o.no_dashes (λ following.
      parse_arg-option specs form following out o
      ∙ match_specs-exact specs form following out s f u
      ∙ exact_match-flag s following out k)
    ∙ ap (args_loop specs rest) (add_hit-room out s.id none (omega arith))
loop-piece specs (valued form v s) rest out (o, u, f, k) h _ =
    loop-past_value specs form v rest out _ o.no_dashes (
      parse_arg-option specs form (some v) out o
      ∙ match_specs-exact specs form (some v) out s f u
      ∙ exact_match-value s v out k (omega arith))
    ∙ ap (args_loop specs rest) (add_hit-room out s.id (some v) (omega arith))
loop-piece specs (inlined form v s) rest out (o, n, e, f, k) h _ =
    let tok = form ++ (b'=' ∷ v) in
    let (head, value) = inline_value-head form v e in
    loop-next specs tok rest out _ o.no_dashes (λ following.
      parse_arg-option specs tok following out o
      ∙ match_specs-inlined specs tok following out s n (ap (spec_for specs) head ∙ f)
          (rw value refl) k
      ∙ ap (λ w. next (add_hit out s.id w)) value)
    ∙ ap (args_loop specs rest) (add_hit-room out s.id (some v) (omega arith))
loop-piece specs (positional p) rest out pos _ h =
    let (no_dashes, _) = is_positional-no_option p pos in
    loop-next specs p rest out _ no_dashes
      (λ following. parse_arg-positional specs p following out pos)
    ∙ ap (args_loop specs rest) (add_pos-room out p (omega arith))

written-cons : (p : Piece) (ps : List Piece) → written (p ∷ ps) ≡ written (p ∷ []) ++ written ps
unfolding written
written-cons (flag form s) ps = refl
written-cons (valued form v s) ps = refl
written-cons (inlined form v s) ps = refl
written-cons (positional p) ps = refl

hits_of-cons : (p : Piece) (ps : List Piece) → hits_of (p ∷ ps) ≡ hits_of (p ∷ []) ++ hits_of ps
unfolding hits_of
hits_of-cons (flag form s) ps = refl
hits_of-cons (valued form v s) ps = refl
hits_of-cons (inlined form v s) ps = refl
hits_of-cons (positional p) ps = refl

pos_of-cons : (p : Piece) (ps : List Piece) → pos_of (p ∷ ps) ≡ pos_of (p ∷ []) ++ pos_of ps
unfolding pos_of
pos_of-cons (flag form s) ps = refl
pos_of-cons (valued form v s) ps = refl
pos_of-cons (inlined form v s) ps = refl
pos_of-cons (positional p) ps = refl

loop-no_pieces :
    (specs : List ArgSpec) (rest : List Bytes) (out : ArgParse)
    → args_loop specs (written [] ++ rest) out
      ≡ args_loop specs rest (grown out (hits_of []) (pos_of []))
unfolding written hits_of pos_of
loop-no_pieces specs rest out = ap (args_loop specs rest) (sym (grown-none out))

loop-pieces :
    (specs : List ArgSpec) (ps : List Piece) (rest : List Bytes) (out : ArgParse)
    → All (IsPiece specs) ps
    → length out.hits + length (hits_of ps) ≤ arg_max_hits
    → length out.pos + length (pos_of ps) ≤ arg_max_pos
    → args_loop specs (written ps ++ rest) out
      ≡ args_loop specs rest (grown out (hits_of ps) (pos_of ps))
loop-pieces specs [] rest out h a b = loop-no_pieces specs rest out
loop-pieces specs (p ∷ ps) rest out (h, hs) a b =
    let hits : List ArgHit = hits_of (p ∷ []) in
    let pos : List Bytes = pos_of (p ∷ []) in
    let many_hits = ap length (hits_of-cons p ps) ∙ length-append hits (hits_of ps) in
    let many_pos = ap length (pos_of-cons p ps) ∙ length-append pos (pos_of ps) in
    let line : written (p ∷ ps) ++ rest ≡ written (p ∷ []) ++ (written ps ++ rest) =
      ap (λ w. w ++ rest) (written-cons p ps) ∙ append_assoc (written (p ∷ [])) (written ps) rest in
    ap (λ w. args_loop specs w out) line
    ∙ loop-piece specs p (written ps ++ rest) out h (omega (arith, many_hits))
        (omega (arith, many_pos))
    ∙ loop-pieces specs ps rest (grown out hits pos) hs
        (omega (arith, many_hits, length-append out.hits hits))
        (omega (arith, many_pos, length-append out.pos pos))
    ∙ ap (args_loop specs rest) (grown-grown out hits (hits_of ps) pos (pos_of ps))
    ∙ rw (← hits_of-cons p ps, ← pos_of-cons p ps) refl

loop-dashes :
    (specs : List ArgSpec) (args : List Bytes) (out : ArgParse)
    → args_loop specs (codes "--" ∷ args) out
      ≡ (0, record out { saw_dashdash = true; fwd = take arg_max_pos args })
unfolding args_loop text_eq forward
loop-dashes specs [] out = refl
loop-dashes specs (v ∷ args) out = refl

-- A command line of flags, flags with a value behind them or behind `=`, and positional arguments,
-- each one that the table knows and no more of them than the arrays take, is parsed without error
-- into just these, in their order. What stands before the `=` of a flag whose spelling has one is no
-- flag that takes a value, and a flag with its value behind an `=` is no flag as a whole.
pub args_parse-written :
    (specs : List ArgSpec) (ps : List Piece)
    → All (IsPiece specs) ps
    → length (hits_of ps) ≤ arg_max_hits
    → length (pos_of ps) ≤ arg_max_pos
    → args_parse specs (written ps) ≡ (0, record no_args { hits = hits_of ps; pos = pos_of ps })
unfolding args_parse args_loop
args_parse-written specs ps h a b =
    ap (λ w. args_loop specs w no_args) (sym (append-nil (written ps)))
    ∙ loop-pieces specs ps [] no_args h (omega arith) (omega arith)

-- The same command line, under the same conditions, with `--` behind it: what follows is forwarded as it is, up to the size of the array.
pub args_parse-forwarded :
    (specs : List ArgSpec) (ps : List Piece) (args : List Bytes)
    → All (IsPiece specs) ps
    → length (hits_of ps) ≤ arg_max_hits
    → length (pos_of ps) ≤ arg_max_pos
    → args_parse specs (written ps ++ (codes "--" ∷ args)) ≡ (
      0,
      record no_args {
        hits = hits_of ps;
        pos = pos_of ps;
        saw_dashdash = true;
        fwd = take arg_max_pos args;
      },
    )
unfolding args_parse
args_parse-forwarded specs ps args h a b =
    loop-pieces specs ps (codes "--" ∷ args) no_args h (omega arith) (omega arith)
    ∙ loop-dashes specs args _
