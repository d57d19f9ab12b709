-- ===== src/Cli/Args.antt =====
-- cli/args.c `args_parse`, `args_has` and `args_value`. The arguments are those behind argv[0], each
-- a text; a table of flags is a list, which a spec with the id 0 ends as in the source.
use arche.Base.{ℕ, Bool, true, false, not, ◌&&◌, ◌||◌, List, [], ◌∷◌, ◌++◌, length}
use arche.Base.{take}
use arche.Base.{Option, none, some, ltb, ◌==◌, if◌then◌else◌, Bytes, codes, text_eq}
use arche.Base.{is_digit}
use arche.Cli.Spec.{ArgSpec, ArgKind, arg_flag, arg_value, forms_contain, first_form}

abbrev pub arg_max_hits : ℕ
arg_max_hits = 128

abbrev pub arg_max_pos : ℕ
arg_max_pos = 256

-- The value is none for NULL.
pub record ArgHit : Type 0 where
  pub id : ℕ
  pub value : Option Bytes

pub record ArgParse : Type 0 where
  pub hits : List ArgHit
  pub pos : List Bytes
  pub fwd : List Bytes
  pub saw_dashdash : Bool
  pub want_help : Bool
  pub err : Bytes

abbrev pub no_args : ArgParse
no_args = record {
  hits = [];
  pos = [];
  fwd = [];
  saw_dashdash = false;
  want_help = false;
  err = [];
}

unfoldable pub fail : ArgParse → Bytes → Bytes → ArgParse
fail out what tok = record out { err = take 255 (what ++ codes ": " ++ tok) }

unfoldable pub add_hit : ArgParse → ℕ → Option Bytes → ArgParse
add_hit out id value =
    if ltb (length out.hits) arg_max_hits
    then record out { hits = out.hits ++ (record { id = id; value = value } ∷ []) }
    else out

unfoldable pub add_pos : ArgParse → Bytes → ArgParse
add_pos out tok =
    if ltb (length out.pos) arg_max_pos then record out { pos = out.pos ++ (tok ∷ []) } else out

-- What one round of the loop does: return with a code, go on with the next argument, or go on
-- behind it because it was the value of a flag.
pub data Round : Type 0 where
  stop : ℕ → ArgParse → Round
  next : ArgParse → Round
  past_value : ArgParse → Round

-- The text before the first `=`, and the text behind it if there is one.
unfoldable pub head_of : Bytes → Bytes
head_of [] = []
head_of (c ∷ cs) = let more = head_of cs in if c == b'=' then [] else c ∷ more

unfoldable pub inline_value : Bytes → Option Bytes
inline_value [] = none
inline_value (c ∷ cs) = let more = inline_value cs in if c == b'=' then some cs else more

-- An exact match of a flag, or of a flag with a value, which is the next argument.
unfoldable pub exact_as : ArgKind → ArgSpec → Option Bytes → ArgParse → Round
unfolding add_hit fail first_form
exact_as arg_flag s following out = next (add_hit out s.id none)
exact_as arg_value s none out = stop 2 (fail out (codes "flag needs a value") (first_form s 64))
exact_as arg_value s (some v) out =
    if ltb (length out.hits) arg_max_hits then past_value (add_hit out s.id (some v)) else next out

unfoldable pub exact_match : ArgSpec → Option Bytes → ArgParse → Round
unfolding exact_as
exact_match s = exact_as s.kind s

abbrev pub takes_value : ArgSpec → Bool
takes_value s = elim s.kind [ arg_flag ↦ false | arg_value ↦ true ]

abbrev pub is_some {ℓ} : {A : Type ℓ} → Option A → Bool
is_some none = false
is_some (some a) = true

-- The loop over the table; the first spec that fits is taken.
unfoldable pub match_specs : List ArgSpec → Bytes → Option Bytes → ArgParse → Round
unfolding exact_match add_hit fail head_of inline_value
match_specs [] tok following out = stop 2 (fail out (codes "unknown flag") tok)
match_specs (s ∷ specs) tok following out =
    let more = match_specs specs tok following out in
    if s.id == 0
    then stop 2 (fail out (codes "unknown flag") tok)
    else if forms_contain s.forms tok
    then exact_match s following out
    else if takes_value s && is_some (inline_value tok) && forms_contain s.forms (head_of tok)
    then next (add_hit out s.id (inline_value tok))
    else more

-- `tok[0] != '-'`, a lone `-`, or a negative number.
unfoldable pub is_positional : Bytes → Bool
is_positional [] = true
is_positional (c ∷ []) = true
is_positional (c ∷ d ∷ cs) = not (c == b'-') || is_digit d || d == b'.'

-- An argument other than `--`.
unfoldable pub parse_arg : List ArgSpec → Bytes → Option Bytes → ArgParse → Round
unfolding match_specs is_positional add_pos
parse_arg specs tok following out =
    if text_eq tok (codes "-h") || text_eq tok (codes "--help")
    then next (record out { want_help = true })
    else if is_positional tok
    then next (add_pos out tok)
    else match_specs specs tok following out

abbrev pub first_arg : List Bytes → Option Bytes
first_arg [] = none
first_arg (a ∷ more) = some a

unfoldable pub forward : ArgParse → List Bytes → ArgParse
forward out args = record out { saw_dashdash = true; fwd = take arg_max_pos args }

-- The loop over the arguments, from those that are left.
unfoldable pub args_loop : List ArgSpec → List Bytes → ArgParse → ℕ × ArgParse
unfolding parse_arg forward
args_loop specs [] out = (0, out)
args_loop specs (tok ∷ []) out =
    if text_eq tok (codes "--") then (0, forward out []) else elim (parse_arg specs tok none out) [
      | stop code out' ↦ (code, out')
      | next out' ↦ (0, out')
      | past_value out' ↦ (0, out')
    ]
args_loop specs (tok ∷ v ∷ more) out =
    if text_eq tok (codes "--")
    then (0, forward out (v ∷ more))
    else elim (parse_arg specs tok (some v) out) [
      | stop code out' ↦ (code, out')
      | next out' ↦ args_loop specs (v ∷ more) out'
      | past_value out' ↦ args_loop specs more out'
    ]

unfoldable pub args_parse : List ArgSpec → List Bytes → ℕ × ArgParse
unfolding args_loop
args_parse specs args = args_loop specs args no_args

abbrev pub has_hit : List ArgHit → ℕ → Bool
has_hit [] id = false
has_hit (h ∷ hs) id = if h.id == id then true else has_hit hs id

unfoldable pub args_has : ArgParse → ℕ → Bool
args_has p id = has_hit p.hits id

-- `v` is the value found so far.
abbrev pub value_loop : List ArgHit → ℕ → Option Bytes → Option Bytes
value_loop [] id v = v
value_loop (h ∷ hs) id v = value_loop hs id (if h.id == id then h.value else v)

unfoldable pub args_value : ArgParse → ℕ → Option Bytes
args_value p id = value_loop p.hits id none
