-- ===== src/Compile/Tables.antt =====
-- compile/variant_select.c: the tables that the reader of `arche.toml` builds.
use arche.Base.{ℕ, zero, suc, ◌≤◌, List, [], ◌∷◌, ◌++◌, All}
use arche.Base.{All-append, length, length-append, drop}
use arche.Base.{◌≡◌, refl, arith, Option, none, some, ltb, ltb_iff, if◌then◌else◌, if_holds}
use arche.Base.{Bytes, text_eq, codes, ◌==◌, Bool-cases, inl, inr, take, ◌||◌}
use arche.Compile.Text.{is_blank, skip_while, split_at, fgets, fit, trim_end}
use arche.Compile.VariantMap.{variant_map_set}
use arche.Compile.Manifest.{Manifest, TargetTable, manifest_parse, no_manifest, lines_loop}
use arche.Compile.Manifest.{parse_line, parse_key, set_key}
use arche.Compile.Manifest.{set_target, set_in_target, section_of, read_value}
use arche.Compile.Manifest.{manifest_max_targets, is_empty, is_skipped}
use arche.Compile.Keeping.{variant_map_set-WellFormed}
use arche.Compile.Entries.{WellFormed}

pub record IsManifest (mf : Manifest) : Type 0 where
  pub select : WellFormed mf.select
  pub targets : All (λ t. WellFormed t.map) mf.targets
  pub few : length mf.targets ≤ manifest_max_targets

-- The tables after one of them took a key.
Kept : List TargetTable → Option (List TargetTable) → Type 0
Kept ts none = Unit
Kept ts (some ts') = All (λ t. WellFormed t.map) ts' × (length ts' ≡ length ts)

set_in_target-Kept :
    (ts : List TargetTable) (name key val : Bytes)
    → All (λ t. WellFormed t.map) ts
    → Kept ts (set_in_target ts name key val)
unfolding set_in_target Kept
set_in_target-Kept [] name key val h = tt
set_in_target-Kept (t ∷ ts) name key val (h, hs) =
    if_holds (Kept (t ∷ ts)) (text_eq t.name name)
      ((variant_map_set-WellFormed t.map key (some val) h, hs), refl)
      (passed (set_in_target ts name key val) (set_in_target-Kept ts name key val hs))
  where
    passed :
        (o : Option (List TargetTable))
        → Kept ts o
        → Kept (t ∷ ts) (elim o [ none ↦ none | some ts' ↦ some (t ∷ ts') ])
    passed none k = tt
    passed (some ts') (k, n) = ((h, k), omega (arith, n))

Tables : List TargetTable → Type 0
Tables ts = All (λ t. WellFormed t.map) ts × (length ts ≤ manifest_max_targets)

one_more-Tables :
    (ts : List TargetTable) (t : TargetTable)
    → Tables ts
    → WellFormed t.map
    → Tables (if ltb (length ts) manifest_max_targets then ts ++ (t ∷ []) else ts)
unfolding Tables
one_more-Tables ts t (h, n) w = elim (Bool-cases (ltb (length ts) manifest_max_targets)) [
  | inl room ↦ rw room (
    All-append (λ t. WellFormed t.map) ts (t ∷ []) h (w, tt),
    omega (arith, length-append ts (t ∷ []), (ltb_iff (length ts) manifest_max_targets).0 room),
  )
  | inr full ↦ rw full (h, n)
]

Kept-Tables :
    (ts : List TargetTable) (t : TargetTable) (o : Option (List TargetTable))
    → Tables ts
    → WellFormed t.map
    → Kept ts o
    → Tables (elim o [
      | some ts' ↦ ts'
      | none ↦ (if ltb (length ts) manifest_max_targets then ts ++ (t ∷ []) else ts)
    ])
unfolding Tables Kept
Kept-Tables ts t none h w k = one_more-Tables ts t h w
Kept-Tables ts t (some ts') (h, n) w (k, e) = (k, omega (arith, e))

set_target-Tables :
    (ts : List TargetTable) (name key val : Bytes) → Tables ts → Tables (set_target ts name key val)
unfolding set_target Tables WellFormed
set_target-Tables ts name key val h =
    Kept-Tables ts (record { name = fit 64 name; map = variant_map_set [] key (some val) })
      (set_in_target ts name key val) h (variant_map_set-WellFormed [] key (some val) tt)
      (set_in_target-Kept ts name key val h.0)

set_key-IsManifest :
    (mf : Manifest) (section key val : Bytes)
    → IsManifest mf
    → IsManifest (set_key mf section key val)
unfolding set_key Tables
set_key-IsManifest mf section key val w =
    let declared : IsManifest (record mf { declared_target = fit 64 val }) = record {
      select = w.select;
      targets = w.targets;
      few = w.few;
    } in
    let selected : IsManifest (record mf { select = variant_map_set mf.select key (some val) }) =
      record {
        select = variant_map_set-WellFormed mf.select key (some val) w.select;
        targets = w.targets;
        few = w.few;
      } in
    let tables = set_target-Tables mf.targets (drop 7 section) key val (w.targets, w.few) in
    let targeted : IsManifest
        (record mf { targets = set_target mf.targets (drop 7 section) key val }) =
      record { select = w.select; targets = tables.0; few = tables.1 } in
    if_holds IsManifest (is_empty section)
      (if_holds IsManifest (text_eq key (codes "target")) declared w)
      (if_holds IsManifest (text_eq section (codes "select"))
        (if_holds IsManifest (is_empty key) w selected)
        (if_holds IsManifest (text_eq (take 7 section) (codes "target."))
          (if_holds IsManifest (is_empty (drop 7 section) || is_empty key) w targeted) w))

parse_key-IsManifest :
    (mf : Manifest) (section p : Bytes) → IsManifest mf → IsManifest (parse_key mf section p)
unfolding parse_key
parse_key-IsManifest mf section p w =
    elim (split_at b'=' p)
      as (λ o. IsManifest (elim o [
        | none ↦ mf
        | some halves ↦ set_key mf section (fit 64 (trim_end halves.0)) (read_value halves.1 64)
      ])) [ none ↦ w | some halves ↦ set_key-IsManifest mf section _ _ w ]

parse_line-IsManifest :
    (mf : Manifest) (section p : Bytes) → IsManifest mf → IsManifest (parse_line mf section p).0
unfolding parse_line
parse_line-IsManifest mf section [] w = w
parse_line-IsManifest mf section (c ∷ cs) w =
    if_holds {A = Manifest × Bytes} (λ r. IsManifest r.0) (is_skipped c) {x = (mf, section)} w
      (if_holds {A = Manifest × Bytes} (λ r. IsManifest r.0) (c == b'[')
        {x = (mf, section_of section cs)} {y = (parse_key mf section (c ∷ cs), section)} w
        (parse_key-IsManifest mf section (c ∷ cs) w))

lines_loop-IsManifest :
    (fuel : ℕ) (mf : Manifest) (section file : Bytes)
    → IsManifest mf
    → IsManifest (lines_loop fuel mf section file)
unfolding lines_loop
lines_loop-IsManifest zero mf section file w = w
lines_loop-IsManifest (suc fuel) mf section [] w = w
lines_loop-IsManifest (suc fuel) mf section (c ∷ cs) w =
    let read = fgets 1024 (c ∷ cs) in
    let start = skip_while is_blank read.0 in
    lines_loop-IsManifest fuel _ (parse_line mf section start).1 read.1
      (parse_line-IsManifest mf section start w)

-- Whatever is in the file, every table that is read from it is well formed, and there are no more of
-- them than the array has places.
pub manifest_parse-IsManifest : (file : Option Bytes) → IsManifest (manifest_parse file)
unfolding manifest_parse WellFormed
manifest_parse-IsManifest none = record { select = tt; targets = tt; few = omega arith }
manifest_parse-IsManifest (some file) =
    lines_loop-IsManifest (length file) no_manifest [] file
      (record { select = tt; targets = tt; few = omega arith })
