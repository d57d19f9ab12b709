-- ===== src/Cli/Tests.antt =====
-- Runs of the argument parser, and the theorems at concrete inputs.
use arche.Base.{◌≡◌, ◌≢◌, ◌⊎◌, refl, arith, List, [], ◌∷◌, ◌++◌, take}
use arche.Base.{some, true, codes, Bytes, All, text_eq, inl, inr}
use arche.Cli.Spec.{ArgSpec, arg_flag, arg_value, forms_contain}
use arche.Cli.Args.{ArgHit, args_parse, no_args, arg_max_pos}
use arche.Cli.Args.{is_positional, head_of, inline_value}
use arche.Cli.Bounds.{Fits, args_parse-Fits}
use arche.Cli.Forms.{joined, IsSpelling, one_of, forms_contain-joined}
use arche.Cli.Line.{Piece, flag, valued, inlined, positional, written, hits_of, pos_of, IsPiece}
use arche.Cli.Line.{Unsplit, spec_for, value_spec_for}
use arche.Cli.Parsing.{args_parse-written, args_parse-forwarded}

abbrev output_spec : ArgSpec
output_spec = record { id = 1; forms = codes "-o --output"; kind = arg_value }

abbrev werror_spec : ArgSpec
werror_spec = record { id = 2; forms = codes "-Werror"; kind = arg_flag }

abbrev werror_no_effect_spec : ArgSpec
werror_no_effect_spec = record { id = 3; forms = codes "-Werror=proc-no-effect"; kind = arg_flag }

abbrev build_specs : List ArgSpec
build_specs = output_spec ∷ werror_no_effect_spec ∷ werror_spec ∷ []

abbrev build_line : List Piece
build_line =
    flag (codes "-Werror") werror_spec
    ∷ flag (codes "-Werror=proc-no-effect") werror_no_effect_spec
    ∷ valued (codes "-o") (codes "out") output_spec
    ∷ positional (codes "main.arche")
    ∷ inlined (codes "--output") (codes "app") output_spec
    ∷ []

build_line-IsPiece : All (IsPiece build_specs) build_line
unfolding IsPiece Unsplit spec_for value_spec_for forms_contain text_eq is_positional head_of
    inline_value
build_line-IsPiece = (
  (record { no_dashes = refl; no_help = refl; no_positional = refl }, inl refl, refl, refl),
  (
    (record { no_dashes = refl; no_help = refl; no_positional = refl }, inr refl, refl, refl),
    (
      (record { no_dashes = refl; no_help = refl; no_positional = refl }, inl refl, refl, refl),
      (
        refl,
        (
          (
            record { no_dashes = refl; no_help = refl; no_positional = refl },
            refl,
            (refl, (refl, (refl, (refl, (refl, (refl, (refl, (refl, tt)))))))),
            refl,
            refl,
          ),
          tt,
        ),
      ),
    ),
  ),
)

unknown_flag :
    args_parse build_specs (codes "-x" ∷ [])
    ≡ (2, record no_args { err = codes "unknown flag: -x" })
unfolding args_parse forms_contain text_eq
unknown_flag = refl

missing_value :
    args_parse build_specs (codes "--output" ∷ [])
    ≡ (2, record no_args { err = codes "flag needs a value: -o" })
unfolding args_parse forms_contain text_eq
missing_value = refl

args_parse-written_example :
    args_parse build_specs (written build_line)
    ≡ (0, record no_args { hits = hits_of build_line; pos = pos_of build_line })
unfolding hits_of pos_of
args_parse-written_example =
    args_parse-written build_specs build_line build_line-IsPiece (omega arith) (omega arith)

args_parse-forwarded_example :
    args_parse build_specs (written build_line ++ (codes "--" ∷ codes "-x" ∷ [])) ≡ (
      0,
      record no_args {
        hits = hits_of build_line;
        pos = pos_of build_line;
        saw_dashdash = true;
        fwd = take arg_max_pos (codes "-x" ∷ []);
      },
    )
unfolding hits_of pos_of
args_parse-forwarded_example =
    args_parse-forwarded build_specs build_line (codes "-x" ∷ []) build_line-IsPiece (omega arith)
      (omega arith)

args_parse-Fits_example :
    Fits (args_parse build_specs (codes "-x" ∷ [])).1
    × (((args_parse build_specs (codes "-x" ∷ [])).0 ≡ 0)
          × ((args_parse build_specs (codes "-x" ∷ [])).1.err ≡ [])
        ⊎ ((args_parse build_specs (codes "-x" ∷ [])).0 ≡ 2)
          × ((args_parse build_specs (codes "-x" ∷ [])).1.err ≢ []))
args_parse-Fits_example = args_parse-Fits build_specs (codes "-x" ∷ [])

abbrev output_words : List Bytes
output_words = codes "-o" ∷ codes "--output" ∷ []

output_words-IsSpelling : All IsSpelling output_words
output_words-IsSpelling = (
  (omega arith, (refl, (refl, tt))),
  ((omega arith, (refl, (refl, (refl, (refl, (refl, (refl, (refl, (refl, tt))))))))), tt),
)

forms_contain-joined_example :
    forms_contain (joined output_words) (codes "--output") ≡ one_of output_words (codes "--output")
forms_contain-joined_example =
    forms_contain-joined output_words (codes "--output") output_words-IsSpelling

abbrev out_hit : ArgHit
out_hit = record { id = 1; value = some (codes "out") }

abbrev app_hit : ArgHit
app_hit = record { id = 1; value = some (codes "app") }
