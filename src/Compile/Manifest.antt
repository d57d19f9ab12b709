-- ===== src/Compile/Manifest.antt =====
-- compile/variant_select.c: the reader of `arche.toml`. The file is its bytes, or none where there is
-- none or it cannot be opened; it holds no NUL.
use arche.Base.{ℕ, zero, suc, Bool, true, false, not, ◌||◌, List, [], ◌∷◌, ◌++◌, length}
use arche.Base.{take, drop}
use arche.Base.{Option, none, some, ltb, ◌==◌, if◌then◌else◌, Bytes, codes, text_eq}
use arche.Compile.Text.{is_blank, skip_while, text_while, trim_end, split_at, fit, fgets}
use arche.Compile.VariantMap.{VariantMap, variant_map_set}

abbrev pub not_quote : ℕ → Bool
not_quote c = not (c == b'"')

abbrev pub in_token : ℕ → Bool
in_token c = not (c == b'#' || c == b'\n' || c == b'\r' || c == b' ' || c == b'\t')

unfoldable pub value_text : Bytes → Bytes
unfolding text_while
value_text [] = []
value_text (c ∷ cs) = if c == b'"' then text_while not_quote cs else text_while in_token (c ∷ cs)

unfoldable pub read_value : Bytes → ℕ → Bytes
unfolding value_text skip_while
read_value v cap = fit cap (value_text (skip_while is_blank v))

abbrev pub manifest_max_targets : ℕ
manifest_max_targets = 32

pub record TargetTable : Type 0 where
  pub name : Bytes
  pub map : VariantMap

pub record Manifest : Type 0 where
  pub declared_target : Bytes
  pub select : VariantMap
  pub targets : List TargetTable

abbrev pub no_manifest : Manifest
no_manifest = record { declared_target = []; select = []; targets = [] }

-- `manifest_target_map` and the set on the map that it finds or creates.
unfoldable pub set_in_target : List TargetTable → Bytes → Bytes → Bytes → Option (List TargetTable)
unfolding variant_map_set
set_in_target [] name key val = none
set_in_target (t ∷ ts) name key val =
    let more = set_in_target ts name key val in
    if text_eq t.name name
    then some (record t { map = variant_map_set t.map key (some val) } ∷ ts)
    else elim more [ none ↦ none | some ts' ↦ some (t ∷ ts') ]

unfoldable pub set_target : List TargetTable → Bytes → Bytes → Bytes → List TargetTable
unfolding set_in_target
set_target ts name key val = elim (set_in_target ts name key val) [
  | some ts' ↦ ts'
  | none ↦
      if ltb (length ts) manifest_max_targets
      then ts ++ (record { name = fit 64 name; map = variant_map_set [] key (some val) } ∷ [])
      else ts
]

abbrev pub is_empty : Bytes → Bool
is_empty [] = true
is_empty (c ∷ cs) = false

-- A line `key = value` in a section.
unfoldable pub set_key : Manifest → Bytes → Bytes → Bytes → Manifest
unfolding set_target
set_key mf section key val =
    if is_empty section
    then (if text_eq key (codes "target") then record mf { declared_target = fit 64 val } else mf)
    else if text_eq section (codes "select")
    then (if is_empty key
        then mf
        else record mf { select = variant_map_set mf.select key (some val) })
    else if text_eq (take 7 section) (codes "target.")
    then (if is_empty (drop 7 section) || is_empty key
        then mf
        else record mf { targets = set_target mf.targets (drop 7 section) key val })
    else mf

-- The name in a header `[name]`; the section stays where there is none.
unfoldable pub section_of : Bytes → Bytes → Bytes
unfolding split_at
section_of section cs = elim (split_at b']' cs) [
  | none ↦ section
  | some halves ↦ if is_empty halves.0 then section else fit 64 halves.0
]

abbrev pub is_skipped : ℕ → Bool
is_skipped c = c == b'#' || c == b'\n' || c == b'\r'

unfoldable pub parse_key : Manifest → Bytes → Bytes → Manifest
unfolding split_at set_key read_value
parse_key mf section p = elim (split_at b'=' p) [
  | none ↦ mf
  | some halves ↦ set_key mf section (fit 64 (trim_end halves.0)) (read_value halves.1 64)
]

-- A line, from its first byte that is no blank.
unfoldable pub parse_line : Manifest → Bytes → Bytes → Manifest × Bytes
unfolding section_of parse_key
parse_line mf section [] = (mf, section)
parse_line mf section (c ∷ cs) =
    if is_skipped c
    then (mf, section)
    else if c == b'['
    then (mf, section_of section cs)
    else (parse_key mf section (c ∷ cs), section)

-- Each line read takes a byte.
unfoldable pub lines_loop : ℕ → Manifest → Bytes → Bytes → Manifest
unfolding parse_line fgets skip_while
lines_loop zero mf section file = mf
lines_loop (suc fuel) mf section [] = mf
lines_loop (suc fuel) mf section (c ∷ cs) =
    let (line, left) = fgets 1024 (c ∷ cs) in
    let (mf', section') = parse_line mf section (skip_while is_blank line) in
    lines_loop fuel mf' section' left

unfoldable pub manifest_parse : Option Bytes → Manifest
unfolding lines_loop
manifest_parse none = no_manifest
manifest_parse (some file) = lines_loop (length file) no_manifest [] file
