-- ===== src/Compile/Resolve.antt =====
-- compile/variant_select.c `variant_map_load_resolved`: the selection of a build. The environment
-- variables ARCHE_TARGET and ARCHE_SELECT are texts, or none where they are not set; the overrides
-- and the target of the command line are statics of the source. The warning on a target with no
-- table is left out.
use arche.Base.{List, [], ◌∷◌, Option, none, some, if◌then◌else◌, Bytes}
use arche.Base.{text_eq}
use arche.Compile.VariantMap.{VariantMap, variant_map_merge, variant_map_parse}
use arche.Compile.Text.{fit}
use arche.Compile.Manifest.{Manifest, TargetTable, manifest_parse}

pub record Selection : Type 0 where
  -- `g_cli_overrides` and `g_cli_target`
  pub overrides : VariantMap
  pub cli_target : Bytes
  pub env_select : Option Bytes
  pub env_target : Option Bytes
  pub manifest_file : Option Bytes

unfoldable pub variant_select_cli_set : Selection → Option Bytes → Selection
unfolding variant_map_parse
variant_select_cli_set s spec = record s { overrides = variant_map_parse s.overrides spec }

-- The first of two texts that is not empty.
unfoldable pub or_text : Option Bytes → Option Bytes → Option Bytes
or_text (some (c ∷ cs)) other = some (c ∷ cs)
or_text _ (some (d ∷ ds)) = some (d ∷ ds)
or_text _ _ = none

unfoldable pub active_target : Selection → Manifest → Option Bytes
unfolding or_text
active_target s mf = or_text (or_text (some s.cli_target) s.env_target) (some mf.declared_target)

unfoldable pub merge_target : VariantMap → List TargetTable → Bytes → VariantMap
unfolding variant_map_merge
merge_target m [] active = m
merge_target m (t ∷ ts) active =
    let more = merge_target m ts active in
    if text_eq t.name active then variant_map_merge m t.map else more

unfoldable pub merge_active : VariantMap → List TargetTable → Option Bytes → VariantMap
unfolding merge_target
merge_active m ts none = m
merge_active m ts (some active) = merge_target m ts active

unfoldable pub variant_map_load_resolved : VariantMap → Selection → VariantMap
unfolding merge_active active_target manifest_parse
variant_map_load_resolved m s =
    let mf = manifest_parse s.manifest_file in
    let m = variant_map_merge m mf.select in
    let m = merge_active m mf.targets (active_target s mf) in
    let m = variant_map_parse m s.env_select in variant_map_merge m s.overrides

unfoldable pub variant_select_cli_target : Selection → Option Bytes → Selection
variant_select_cli_target s none = s
variant_select_cli_target s (some []) = s
variant_select_cli_target s (some (c ∷ cs)) = record s { cli_target = fit 64 (c ∷ cs) }

unfoldable pub variant_map_load_manifest : VariantMap → Option Bytes → VariantMap
unfolding variant_map_merge manifest_parse
variant_map_load_manifest m file = variant_map_merge m (manifest_parse file).select
