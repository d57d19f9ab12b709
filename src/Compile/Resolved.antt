-- ===== src/Compile/Resolved.antt =====
-- compile/variant_select.c `variant_map_load_resolved`: the source that a device's variant is taken
-- from, as a description that does not merge maps.
use arche.Base.{List, [], ◌∷◌, All, ◌≡◌, ◌≢◌, refl, ap, ◌∙◌}
use arche.Base.{Bool-cases, inl, inr}
use arche.Base.{Option, none, some, if◌then◌else◌, Bytes, text_eq}
use arche.Compile.VariantMap.{VariantMap, variant_map_lookup, variant_map_merge}
use arche.Compile.VariantMap.{variant_map_parse}
use arche.Compile.Manifest.{TargetTable, manifest_parse}
use arche.Compile.Resolve.{Selection, active_target, merge_active, merge_target}
use arche.Compile.Resolve.{variant_map_load_resolved}
use arche.Compile.Resolve.{variant_select_cli_set}
use arche.Compile.Entries.{entry_of, chosen, WellFormed}
use arche.Compile.Precedence.{merge-lookup, lookup-set_all, parse-pairs, pairs_of, last_pair}
use arche.Compile.Precedence.{variant_map_parse-WellFormed}
use arche.Compile.Tables.{manifest_parse-IsManifest}

-- The entry of a device in the table of the active target.
unfoldable pub table_entry : List TargetTable → Bytes → Bytes → Option (Option Bytes)
table_entry [] active d = none
table_entry (t ∷ ts) active d =
    let more = table_entry ts active d in if text_eq t.name active then entry_of t.map d else more

unfoldable pub target_entry : List TargetTable → Option Bytes → Bytes → Option (Option Bytes)
unfolding table_entry
target_entry ts none d = none
target_entry ts (some active) d = table_entry ts active d

merge_target-lookup :
    (m : VariantMap) (ts : List TargetTable) (active d : Bytes)
    → All (λ t. WellFormed t.map) ts
    → d ≢ []
    → variant_map_lookup (merge_target m ts active) d
      ≡ chosen (table_entry ts active d) (variant_map_lookup m d)
unfolding merge_target table_entry
merge_target-lookup m [] active d w h = refl
merge_target-lookup m (t ∷ ts) active d (w, ws) h = elim (Bool-cases (text_eq t.name active)) [
  | inl same ↦ rw same (merge-lookup m t.map d w h)
  | inr other ↦ rw other (merge_target-lookup m ts active d ws h)
]

merge_active-lookup :
    (m : VariantMap) (ts : List TargetTable) (active : Option Bytes) (d : Bytes)
    → All (λ t. WellFormed t.map) ts
    → d ≢ []
    → variant_map_lookup (merge_active m ts active) d
      ≡ chosen (target_entry ts active d) (variant_map_lookup m d)
unfolding merge_active target_entry
merge_active-lookup m ts none d w h = refl
merge_active-lookup m ts (some active) d w h = merge_target-lookup m ts active d w h

parse-lookup :
    (m : VariantMap) (spec : Option Bytes) (d : Bytes)
    → d ≢ []
    → variant_map_lookup (variant_map_parse m spec) d
      ≡ chosen (last_pair (pairs_of spec) d) (variant_map_lookup m d)
parse-lookup m spec d h =
    ap (λ k. variant_map_lookup k d) (parse-pairs m spec) ∙ lookup-set_all m (pairs_of spec) d h

-- The command line's overrides stay well formed.
pub variant_select_cli_set-WellFormed :
    (s : Selection) (spec : Option Bytes)
    → WellFormed s.overrides
    → WellFormed (variant_select_cli_set s spec).overrides
unfolding variant_select_cli_set
variant_select_cli_set-WellFormed s spec w = variant_map_parse-WellFormed s.overrides spec w

-- A device's variant comes from the first of these that has an entry for the device: the overrides
-- of the command line, ARCHE_SELECT (its last entry), the table of the active target in arche.toml,
-- the table [select], and the map at the start. An entry without a variant leaves the device none.
pub variant_map_load_resolved-chosen :
    (m : VariantMap) (s : Selection) (d : Bytes)
    → WellFormed s.overrides
    → d ≢ []
    → variant_map_lookup (variant_map_load_resolved m s) d
      ≡ chosen (entry_of s.overrides d) (
          chosen (last_pair (pairs_of s.env_select) d) (
            chosen
              (target_entry
                (manifest_parse s.manifest_file).targets
                (active_target s (manifest_parse s.manifest_file))
                d)
              (chosen
                (entry_of (manifest_parse s.manifest_file).select d)
                (variant_map_lookup m d))))
unfolding variant_map_load_resolved
variant_map_load_resolved-chosen m s d w h =
    let mf = manifest_parse s.manifest_file in
    let tables = manifest_parse-IsManifest s.manifest_file in
    let based = variant_map_merge m mf.select in
    let targeted = merge_active based mf.targets (active_target s mf) in
    let asked = variant_map_parse targeted s.env_select in
    merge-lookup asked s.overrides d w h
    ∙ ap (chosen (entry_of s.overrides d)) (
        parse-lookup targeted s.env_select d h
        ∙ ap (chosen (last_pair (pairs_of s.env_select) d)) (
            merge_active-lookup based mf.targets (active_target s mf) d tables.targets h
            ∙ ap (chosen (target_entry mf.targets (active_target s mf) d))
                (merge-lookup m mf.select d tables.select h)))
