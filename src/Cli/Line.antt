-- ===== src/Cli/Line.antt =====
-- Command lines that `args_parse` of cli/args.c understands: what it finds in them.
use arche.Base.{true, false, ◌||◌, List, [], ◌∷◌, ◌++◌}
use arche.Base.{◌≡◌, refl, arith, All, Bytes, codes, text_eq}
use arche.Base.{◌==◌}
use arche.Base.{Option, none, some, if◌then◌else◌}
use arche.Base.{inl, inr, ◌⊎◌}
use arche.Cli.Spec.{ArgSpec, arg_flag, arg_value, forms_contain}
use arche.Cli.Args.{ArgHit, ArgParse, next, past_value, add_hit, add_pos}
use arche.Cli.Args.{exact_match}
use arche.Cli.Args.{match_specs, parse_arg, is_positional, args_loop}
use arche.Cli.Args.{head_of, inline_value, is_some, takes_value}
use arche.Base.{◌&&◌}

-- A piece of a command line, with the spec that its flag belongs to.
pub data Piece : Type 0 where
  flag : (form : Bytes) → ArgSpec → Piece
  valued : (form value : Bytes) → ArgSpec → Piece
  inlined : (form value : Bytes) → ArgSpec → Piece
  positional : Bytes → Piece

unfoldable pub written : List Piece → List Bytes
written [] = []
written (flag form s ∷ ps) = form ∷ written ps
written (valued form value s ∷ ps) = form ∷ value ∷ written ps
written (inlined form value s ∷ ps) = (form ++ (b'=' ∷ value)) ∷ written ps
written (positional p ∷ ps) = p ∷ written ps

unfoldable pub hits_of : List Piece → List ArgHit
hits_of [] = []
hits_of (flag form s ∷ ps) = record { id = s.id; value = none } ∷ hits_of ps
hits_of (valued form value s ∷ ps) = record { id = s.id; value = some value } ∷ hits_of ps
hits_of (inlined form value s ∷ ps) = record { id = s.id; value = some value } ∷ hits_of ps
hits_of (positional p ∷ ps) = hits_of ps

unfoldable pub pos_of : List Piece → List Bytes
pos_of [] = []
pos_of (positional p ∷ ps) = p ∷ pos_of ps
pos_of (_ ∷ ps) = pos_of ps

-- The first spec of a table with this spelling.
unfoldable pub spec_for : List ArgSpec → Bytes → Option ArgSpec
spec_for [] tok = none
spec_for (s ∷ specs) tok =
    let more = spec_for specs tok in
    if s.id == 0 then none else if forms_contain s.forms tok then some s else more

-- Not one of `--`, `-h` and `--help`, and not positional.
pub record IsOption (tok : Bytes) : Type 0 where
  pub no_dashes : text_eq tok (codes "--") ≡ false
  pub no_help : (text_eq tok (codes "-h") || text_eq tok (codes "--help")) ≡ false
  pub no_positional : is_positional tok ≡ false

-- A spec of a table with this spelling, of those that take a value.
unfoldable pub value_spec_for : List ArgSpec → Bytes → Option ArgSpec
value_spec_for [] tok = none
value_spec_for (s ∷ specs) tok =
    let more = value_spec_for specs tok in
    if s.id == 0 then none else if takes_value s && forms_contain s.forms tok then some s else more

-- What stands before the first `=` is not a flag that takes a value.
unfoldable pub Unsplit : List ArgSpec → Bytes → Type 0
Unsplit specs tok =
    (is_some (inline_value tok) ≡ false) ⊎ (value_spec_for specs (head_of tok) ≡ none)

unfoldable pub IsPiece : List ArgSpec → Piece → Type 0
IsPiece specs (flag form s) =
    IsOption form × Unsplit specs form × (spec_for specs form ≡ some s) × (s.kind ≡ arg_flag)
IsPiece specs (valued form value s) =
    IsOption form × Unsplit specs form × (spec_for specs form ≡ some s) × (s.kind ≡ arg_value)
IsPiece specs (inlined form value s) =
    IsOption (form ++ (b'=' ∷ value))
    × (spec_for specs (form ++ (b'=' ∷ value)) ≡ none)
    × All (λ c. (c == b'=') ≡ false) form
    × (spec_for specs form ≡ some s)
    × (s.kind ≡ arg_value)
IsPiece specs (positional p) = is_positional p ≡ true

pub match_specs-exact :
    (specs : List ArgSpec) (tok : Bytes) (following : Option Bytes) (out : ArgParse) (s : ArgSpec)
    → spec_for specs tok ≡ some s
    → Unsplit specs tok
    → match_specs specs tok following out ≡ exact_match s following out
unfolding spec_for value_spec_for match_specs Unsplit
match_specs-exact [] tok following out s h u = ground arith
match_specs-exact (r ∷ specs) tok following out s h (inl u) =
    ground (arith, match_specs-exact specs tok following out s)
match_specs-exact (r ∷ specs) tok following out s h (inr u) =
    ground (arith, match_specs-exact specs tok following out s)

pub match_specs-inlined :
    (specs : List ArgSpec) (tok : Bytes) (following : Option Bytes) (out : ArgParse) (s : ArgSpec)
    → spec_for specs tok ≡ none
    → spec_for specs (head_of tok) ≡ some s
    → is_some (inline_value tok) ≡ true
    → s.kind ≡ arg_value
    → match_specs specs tok following out ≡ next (add_hit out s.id (inline_value tok))
unfolding spec_for match_specs
match_specs-inlined [] tok following out s n h v k = ground arith
match_specs-inlined (r ∷ specs) tok following out s n h v k =
    ground (arith, match_specs-inlined specs tok following out s)

pub inline_value-head :
    (form value : Bytes)
    → All (λ c. (c == b'=') ≡ false) form
    → (head_of (form ++ (b'=' ∷ value)) ≡ form)
      × (inline_value (form ++ (b'=' ∷ value)) ≡ some value)
unfolding head_of inline_value
inline_value-head [] value h = (refl, refl)
inline_value-head (c ∷ form) value (h, hs) =
    let (a, b) = inline_value-head form value hs in (rw (h, a) refl, rw (h, b) refl)

pub parse_arg-option :
    (specs : List ArgSpec) (tok : Bytes) (following : Option Bytes) (out : ArgParse)
    → IsOption tok
    → parse_arg specs tok following out ≡ match_specs specs tok following out
unfolding parse_arg
parse_arg-option specs tok following out o = rw (o.no_help, o.no_positional) refl

pub is_positional-no_option :
    (tok : Bytes)
    → is_positional tok ≡ true
    → (text_eq tok (codes "--") ≡ false)
      × ((text_eq tok (codes "-h") || text_eq tok (codes "--help")) ≡ false)
unfolding is_positional text_eq
is_positional-no_option [] h = (refl, refl)
is_positional-no_option (c ∷ []) h = ground arith
is_positional-no_option (c ∷ d ∷ []) h = (ground arith, ground arith)
is_positional-no_option (c ∷ d ∷ e ∷ cs) h = (ground arith, ground arith)

pub parse_arg-positional :
    (specs : List ArgSpec) (tok : Bytes) (following : Option Bytes) (out : ArgParse)
    → is_positional tok ≡ true
    → parse_arg specs tok following out ≡ next (add_pos out tok)
unfolding parse_arg
parse_arg-positional specs tok following out h =
    let (_, no_help) = is_positional-no_option tok h in rw (no_help, h) refl

pub loop-next :
    (specs : List ArgSpec) (tok : Bytes) (rest : List Bytes) (out o : ArgParse)
    → text_eq tok (codes "--") ≡ false
    → ((following : Option Bytes) → parse_arg specs tok following out ≡ next o)
    → args_loop specs (tok ∷ rest) out ≡ args_loop specs rest o
unfolding args_loop
loop-next specs tok [] out o d h = rw (d, h none) refl
loop-next specs tok (v ∷ rest) out o d h = rw (d, h (some v)) refl

pub loop-past_value :
    (specs : List ArgSpec) (tok v : Bytes) (rest : List Bytes) (out o : ArgParse)
    → text_eq tok (codes "--") ≡ false
    → parse_arg specs tok (some v) out ≡ past_value o
    → args_loop specs (tok ∷ v ∷ rest) out ≡ args_loop specs rest o
unfolding args_loop
loop-past_value specs tok v rest out o d h = rw (d, h) refl
