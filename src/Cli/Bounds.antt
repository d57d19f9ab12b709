-- ===== src/Cli/Bounds.antt =====
-- What `args_parse` of cli/args.c leaves behind: the sizes of its arrays and its error message.
use arche.Base.{length-take, ltb_iff, if_holds}
use arche.Base.{ℕ, ◌≤◌, ◌<◌, true, ◌&&◌, ◌||◌, List, [], ◌∷◌, ◌++◌, length}
use arche.Base.{length-append}
use arche.Base.{◌≡◌, ◌≢◌, ◌⊎◌, refl, arith, inl, inr, Bool-cases}
use arche.Base.{Option, none, some, ltb, ◌==◌, Bytes, codes, text_eq}
use arche.Cli.Spec.{ArgSpec, ArgKind, arg_flag, arg_value, forms_contain, first_form}
use arche.Cli.Args.{ArgParse, Round, stop, next, past_value, no_args, fail, add_hit}
use arche.Cli.Args.{add_pos}
use arche.Cli.Args.{exact_match, exact_as, takes_value, is_some, match_specs, is_positional}
use arche.Cli.Args.{parse_arg}
use arche.Cli.Args.{forward, args_loop, args_parse, head_of, inline_value, arg_max_hits}
use arche.Cli.Args.{arg_max_pos}

-- The sizes of `hits`, `pos`, `fwd` and `err` in args.h.
pub record Fits (out : ArgParse) : Type 0 where
  pub hits : length out.hits ≤ arg_max_hits
  pub pos : length out.pos ≤ arg_max_pos
  pub fwd : length out.fwd ≤ arg_max_pos
  pub err : length out.err < 256

-- While the loop runs there is no message; where it returns early there is one, and the code is 2.
unfoldable RoundFits : Round → Type 0
RoundFits (stop code out) = (code ≡ 2) × Fits out × (out.err ≢ [])
RoundFits (next out) = Fits out × (out.err ≡ [])
RoundFits (past_value out) = Fits out × (out.err ≡ [])

stop-RoundFits :
    (out : ArgParse) (what tok : Bytes)
    → what ≢ []
    → Fits out
    → RoundFits (stop 2 (fail out what tok))
unfolding RoundFits fail
stop-RoundFits out [] tok h f = absurd (h refl)
stop-RoundFits out (w ∷ ws) tok h f = (
  refl,
  record {
    hits = f.hits;
    pos = f.pos;
    fwd = f.fwd;
    err = omega (arith, length-take 255 ((w ∷ ws) ++ codes ": " ++ tok));
  },
  λ e. ground arith,
)

add_hit-RoundFits :
    (out : ArgParse) (id : ℕ) (v : Option Bytes)
    → Fits out
    → out.err ≡ []
    → RoundFits (next (add_hit out id v))
unfolding RoundFits add_hit
add_hit-RoundFits out id v f e = elim (Bool-cases (ltb (length out.hits) arg_max_hits)) [
  | inl t ↦ rw t (
    record {
      hits = omega (
        arith,
        length-append out.hits (record { id = id; value = v } ∷ []),
        (ltb_iff (length out.hits) arg_max_hits).0 t,
      );
      pos = f.pos;
      fwd = f.fwd;
      err = f.err;
    },
    e,
  )
  | inr k ↦ rw k (f, e)
]

add_pos-RoundFits :
    (out : ArgParse) (tok : Bytes) → Fits out → out.err ≡ [] → RoundFits (next (add_pos out tok))
unfolding RoundFits add_pos
add_pos-RoundFits out tok f e = elim (Bool-cases (ltb (length out.pos) arg_max_pos)) [
  | inl t ↦ rw t (
    record {
      hits = f.hits;
      pos =
          omega
            (arith, length-append out.pos (tok ∷ []), (ltb_iff (length out.pos) arg_max_pos).0 t);
      fwd = f.fwd;
      err = f.err;
    },
    e,
  )
  | inr k ↦ rw k (f, e)
]

exact_as-RoundFits :
    (k : ArgKind) (s : ArgSpec) (following : Option Bytes) (out : ArgParse)
    → Fits out
    → out.err ≡ []
    → RoundFits (exact_as k s following out)
unfolding exact_as RoundFits
exact_as-RoundFits arg_flag s following out f e = add_hit-RoundFits out s.id none f e
exact_as-RoundFits arg_value s none out f e =
    stop-RoundFits out (codes "flag needs a value") (first_form s 64) (λ h. ground arith) f
exact_as-RoundFits arg_value s (some v) out f e =
    let kept : RoundFits (next out) = (f, e) in
    if_holds RoundFits (ltb (length out.hits) arg_max_hits)
      (add_hit-RoundFits out s.id (some v) f e) kept

match_specs-RoundFits :
    (specs : List ArgSpec) (tok : Bytes) (following : Option Bytes) (out : ArgParse)
    → Fits out
    → out.err ≡ []
    → RoundFits (match_specs specs tok following out)
unfolding match_specs exact_match
match_specs-RoundFits [] tok following out f e =
    stop-RoundFits out (codes "unknown flag") tok (λ h. ground arith) f
match_specs-RoundFits (s ∷ specs) tok following out f e =
    let unknown = stop-RoundFits out (codes "unknown flag") tok (λ h. ground arith) f in
    let exact = exact_as-RoundFits s.kind s following out f e in
    let inlined = add_hit-RoundFits out s.id (inline_value tok) f e in
    let more = match_specs-RoundFits specs tok following out f e in
    let has_head =
      takes_value s && is_some (inline_value tok) && forms_contain s.forms (head_of tok) in
    if_holds RoundFits (s.id == 0) unknown (
      if_holds RoundFits (forms_contain s.forms tok) exact
        (if_holds RoundFits has_head inlined more))

parse_arg-RoundFits :
    (specs : List ArgSpec) (tok : Bytes) (following : Option Bytes) (out : ArgParse)
    → Fits out
    → out.err ≡ []
    → RoundFits (parse_arg specs tok following out)
unfolding parse_arg RoundFits
parse_arg-RoundFits specs tok following out f e =
    let helped : RoundFits (next (record out { want_help = true })) =
      (record { hits = f.hits; pos = f.pos; fwd = f.fwd; err = f.err }, e) in
    let placed = add_pos-RoundFits out tok f e in
    let matched = match_specs-RoundFits specs tok following out f e in
    if_holds RoundFits (text_eq tok (codes "-h") || text_eq tok (codes "--help")) helped
      (if_holds RoundFits (is_positional tok) placed matched)

-- Either the code is 0 and there is no message, or the code is 2 and there is one.
ResultFits : ℕ × ArgParse → Type 0
ResultFits (code, out) = Fits out × ((code ≡ 0) × (out.err ≡ []) ⊎ (code ≡ 2) × (out.err ≢ []))

forward-ResultFits :
    (out : ArgParse) (args : List Bytes)
    → Fits out
    → out.err ≡ []
    → ResultFits (0, forward out args)
unfolding ResultFits forward
forward-ResultFits out args f e = (
  record { hits = f.hits; pos = f.pos; fwd = length-take arg_max_pos args; err = f.err },
  inl (refl, e),
)

-- What the loop does with the outcome of a round.
round-ResultFits :
    (r : Round) (on_next on_past : ArgParse → ℕ × ArgParse)
    → RoundFits r
    → ((o : ArgParse) → Fits o → o.err ≡ [] → ResultFits (on_next o))
    → ((o : ArgParse) → Fits o → o.err ≡ [] → ResultFits (on_past o))
    → ResultFits
        (elim r [ stop code o ↦ (code, o) | next o ↦ on_next o | past_value o ↦ on_past o ])
unfolding RoundFits ResultFits
round-ResultFits (stop code o) a b (c, g, n) h k = (g, inr (c, n))
round-ResultFits (next o) a b (g, n) h k = h o g n
round-ResultFits (past_value o) a b (g, n) h k = k o g n

args_loop-ResultFits :
    (specs : List ArgSpec) (args : List Bytes) (out : ArgParse)
    → Fits out
    → out.err ≡ []
    → ResultFits (args_loop specs args out)
unfolding args_loop ResultFits
args_loop-ResultFits specs [] out f e = (f, inl (refl, e))
args_loop-ResultFits specs (tok ∷ []) out f e =
    let ends : (o : ArgParse) → Fits o → o.err ≡ [] → ResultFits (0, o) =
      λ o g n. (g, inl (refl, n)) in
    if_holds ResultFits (text_eq tok (codes "--")) (forward-ResultFits out [] f e) (
      round-ResultFits (parse_arg specs tok none out) (λ o. (0, o)) (λ o. (0, o))
        (parse_arg-RoundFits specs tok none out f e) ends ends)
args_loop-ResultFits specs (tok ∷ v ∷ more) out f e =
    if_holds ResultFits (text_eq tok (codes "--")) (forward-ResultFits out (v ∷ more) f e) (
      round-ResultFits (parse_arg specs tok (some v) out) (args_loop specs (v ∷ more))
        (args_loop specs more) (parse_arg-RoundFits specs tok (some v) out f e)
        (args_loop-ResultFits specs (v ∷ more)) (args_loop-ResultFits specs more))

-- Whatever the table and the arguments: no array and no message is longer than its place in the
-- struct, and the code is 0 without a message or 2 with one.
pub args_parse-Fits :
    (specs : List ArgSpec) (args : List Bytes)
    → Fits (args_parse specs args).1
      × (((args_parse specs args).0 ≡ 0) × ((args_parse specs args).1.err ≡ [])
          ⊎ ((args_parse specs args).0 ≡ 2) × ((args_parse specs args).1.err ≢ []))
unfolding args_parse ResultFits
args_parse-Fits specs args =
    args_loop-ResultFits specs args no_args
      (record { hits = omega arith; pos = omega arith; fwd = omega arith; err = omega arith }) refl
