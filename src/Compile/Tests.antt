-- ===== src/Compile/Tests.antt =====
-- Runs of the variant selection, and the theorems at concrete inputs.
use arche.Base.{◌≡◌, refl, arith, [], ◌∷◌, some}
use arche.Base.{none, codes, Bytes, text_eq, if◌then◌else◌}
use arche.Compile.LibRoots.{arche_lib_roots, roots_of_env}
use arche.Compile.Roots.{Grown, IsRoots, arche_lib_roots-Grown}
use arche.Compile.VariantMap.{VariantMap, variant_map_set, variant_map_lookup}
use arche.Compile.VariantMap.{variant_map_parse, given}
use arche.Compile.Manifest.{manifest_parse, no_manifest}
use arche.Compile.Resolve.{Selection, active_target, variant_map_load_resolved}
use arche.Compile.Resolve.{variant_select_cli_set}
use arche.Compile.Entries.{entry_of, chosen, WellFormed}
use arche.Compile.Precedence.{pairs_of, last_pair, variant_map_lookup-set}
use arche.Compile.Tables.{IsManifest, manifest_parse-IsManifest}
use arche.Compile.Resolved.{target_entry, variant_map_load_resolved-chosen}
use arche.Compile.Fuel.{ParseRuns, LinesRun, variant_map_parse-ParseRuns}
use arche.Compile.Fuel.{manifest_parse-LinesRun}

abbrev sample_file : Bytes
sample_file =
    codes
      "target = \"desktop\"\n[select]\ngfx = \"wayland\"\nnet = \"tcp\"\n[target.desktop]\ngfx = \"x11\" # x\n"

abbrev x11_only : VariantMap
x11_only = record { device = codes "gfx"; variant = some (codes "x11") } ∷ []

x11_only-WellFormed : WellFormed x11_only
unfolding WellFormed entry_of
x11_only-WellFormed = (λ e. ground arith, refl, refl, tt)

abbrev sample : Selection
sample = record {
  overrides = [];
  cli_target = [];
  env_select = some (codes "net=udp, ,gfx=");
  env_target = none;
  manifest_file = some sample_file;
}

abbrev from_file : Selection
from_file = record sample { env_select = none }

-- The table of the active target overrides [select].
active_table :
    variant_map_lookup (variant_map_load_resolved [] from_file) (codes "gfx") ≡ some (codes "x11")
unfolding variant_map_lookup variant_map_load_resolved text_eq variant_map_parse
active_table = refl

-- ARCHE_SELECT clears an entry of the file, and the command line does not: its map never holds the
-- empty variant of a device that it has no entry for.
env_clears : variant_map_lookup (variant_map_load_resolved [] sample) (codes "gfx") ≡ none
unfolding variant_map_lookup variant_map_load_resolved text_eq variant_map_parse
env_clears = refl

cli_keeps :
    variant_map_lookup
      (variant_map_load_resolved [] (variant_select_cli_set from_file (some (codes "gfx="))))
      (codes "gfx")
    ≡ some (codes "x11")
unfolding variant_map_lookup variant_map_load_resolved text_eq variant_select_cli_set
cli_keeps = refl

-- A space does not end an entry.
spaces_stay :
    variant_map_lookup (variant_map_parse [] (some (codes "gfx=x11 net=tcp"))) (codes "gfx")
    ≡ some (codes "x11 net=tcp")
unfolding variant_map_lookup variant_map_parse text_eq
spaces_stay = refl

variant_map_lookup-set_example :
    variant_map_lookup (variant_map_set x11_only (codes "net") (some (codes "tcp"))) (codes "gfx")
    ≡ (if text_eq (codes "net") (codes "gfx")
        then given (some (codes "tcp"))
        else variant_map_lookup x11_only (codes "gfx"))
variant_map_lookup-set_example =
    variant_map_lookup-set x11_only (codes "net") (codes "gfx") (some (codes "tcp"))
      (λ e. ground arith)

manifest_parse-IsManifest_example : IsManifest (manifest_parse (some sample_file))
manifest_parse-IsManifest_example = manifest_parse-IsManifest (some sample_file)

abbrev overriding : Selection
overriding = record sample { overrides = x11_only }

variant_map_load_resolved-chosen_example :
    variant_map_lookup (variant_map_load_resolved [] overriding) (codes "gfx")
    ≡ chosen (entry_of x11_only (codes "gfx")) (
        chosen (last_pair (pairs_of overriding.env_select) (codes "gfx")) (
          chosen
            (target_entry
              (manifest_parse (some sample_file)).targets
              (active_target overriding (manifest_parse (some sample_file)))
              (codes "gfx"))
            (chosen
              (entry_of (manifest_parse (some sample_file)).select (codes "gfx"))
              (variant_map_lookup [] (codes "gfx")))))
variant_map_load_resolved-chosen_example =
    variant_map_load_resolved-chosen [] overriding (codes "gfx") x11_only-WellFormed
      (λ e. ground arith)

variant_map_parse-ParseRuns_example :
    ParseRuns [] (codes "gfx=x11,net=tcp") (variant_map_parse [] (some (codes "gfx=x11,net=tcp")))
variant_map_parse-ParseRuns_example = variant_map_parse-ParseRuns [] (codes "gfx=x11,net=tcp")

manifest_parse-LinesRun_example :
    LinesRun no_manifest []
      (codes "[select]\ngfx = x11\n")
      (manifest_parse (some (codes "[select]\ngfx = x11\n")))
manifest_parse-LinesRun_example = manifest_parse-LinesRun (codes "[select]\ngfx = x11\n")

abbrev lib_file : Bytes
lib_file = codes "[lib]\npaths = [ \"vendor\",\n  \"/opt/a\" ] # end\n"

lib_roots :
    arche_lib_roots (some (codes "/x::/y")) (some (codes "/p/arche.toml", lib_file))
    ≡ codes "/x" ∷ codes "/y" ∷ codes "/p/vendor" ∷ codes "/opt/a" ∷ codes "/p" ∷ []
unfolding arche_lib_roots text_eq arche.Compile.Text.trim_end
lib_roots = refl

arche_lib_roots-Grown_example :
    Grown
      (roots_of_env (some (codes "/x")))
      (arche_lib_roots (some (codes "/x")) (some (codes "/p/arche.toml", lib_file)))
    × IsRoots (arche_lib_roots (some (codes "/x")) (some (codes "/p/arche.toml", lib_file)))
arche_lib_roots-Grown_example =
    arche_lib_roots-Grown (some (codes "/x")) (some (codes "/p/arche.toml", lib_file))
