-- ===== src/Compile/VariantMap.antt =====
-- compile/variant_select.c: `VariantMap` and its operations, and the parser of selection texts.
-- A variant is none for NULL; a device that is NULL is the empty text, which is ignored alike.
use arche.Base.{ℕ, zero, suc, Bool, not, List, [], ◌∷◌, ◌++◌, length}
use arche.Base.{Option, none, some, ◌==◌, ◌||◌, if◌then◌else◌, Bytes, text_eq}
use arche.Compile.Text.{skip_while, text_while, trim_end, split_at, fit}

pub record VariantSel : Type 0 where
  pub device : Bytes
  pub variant : Option Bytes

abbrev pub VariantMap : Type 0
VariantMap = List VariantSel

-- An empty variant is none.
abbrev pub given : Option Bytes → Option Bytes
given none = none
given (some []) = none
given (some (c ∷ cs)) = some (c ∷ cs)

-- The loop that overrides the entry of a device; none where it has no entry.
unfoldable pub override : VariantMap → Bytes → Option Bytes → Option VariantMap
override [] device variant = none
override (s ∷ m) device variant =
    let more = override m device variant in
    if text_eq s.device device
    then some (record s { variant = given variant } ∷ m)
    else elim more [ none ↦ none | some m' ↦ some (s ∷ m') ]

unfoldable pub append_new : VariantMap → Bytes → Option Bytes → VariantMap
append_new m device none = m
append_new m device (some v) = m ++ (record { device = device; variant = some v } ∷ [])

unfoldable pub variant_map_set : VariantMap → Bytes → Option Bytes → VariantMap
unfolding override append_new
variant_map_set m [] variant = m
variant_map_set m (c ∷ cs) variant = elim (override m (c ∷ cs) variant) [
  | none ↦ append_new m (c ∷ cs) (given variant)
  | some m' ↦ m'
]

unfoldable pub variant_map_lookup : VariantMap → Bytes → Option Bytes
variant_map_lookup [] device = none
variant_map_lookup (s ∷ m) device =
    let more = variant_map_lookup m device in if text_eq s.device device then s.variant else more

unfoldable pub variant_map_merge : VariantMap → VariantMap → VariantMap
unfolding variant_map_set
variant_map_merge dst [] = dst
variant_map_merge dst (s ∷ src) = variant_map_merge (variant_map_set dst s.device s.variant) src

-- One entry `dev=var` of a selection text; an entry with no `=` does nothing.
unfoldable pub set_entry : VariantMap → Bytes → VariantMap
unfolding split_at variant_map_set
set_entry m entry = elim (split_at b'=' entry) [
  | none ↦ m
  | some halves ↦ variant_map_set m (fit 64 halves.0) (some (fit 64 halves.1))
]

abbrev pub is_separator : ℕ → Bool
is_separator c = c == b',' || c == b' ' || c == b'\t'

abbrev pub no_comma : ℕ → Bool
no_comma c = not (c == b',')

-- Each round takes a byte.
unfoldable pub parse_loop : ℕ → VariantMap → Bytes → VariantMap
unfolding set_entry skip_while text_while trim_end
parse_loop zero m p = m
parse_loop (suc fuel) m p = elim (skip_while is_separator p) [
  | [] ↦ m
  | c ∷ cs ↦
      parse_loop fuel (set_entry m (trim_end (text_while no_comma (c ∷ cs))))
        (skip_while no_comma (c ∷ cs))
]

unfoldable pub variant_map_parse : VariantMap → Option Bytes → VariantMap
unfolding parse_loop
variant_map_parse m none = m
variant_map_parse m (some spec) = parse_loop (length spec) m spec
