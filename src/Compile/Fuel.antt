-- ===== src/Compile/Fuel.antt =====
-- The rounds that the loops of compile/variant_select.c take.
use arche.Base.{ℕ, zero, suc, ◌≤◌, ◌<◌, Bool, false, [], ◌∷◌, length, ◌≡◌}
use arche.Base.{◌⊎◌, refl, arith, ap, inl, inr, Bool-cases}
use arche.Base.{Bytes, some}
use arche.Compile.Text.{skip_while, fgets, is_blank, text_while, trim_end}
use arche.Compile.VariantMap.{VariantMap, variant_map_parse, parse_loop, is_separator, no_comma}
use arche.Compile.VariantMap.{set_entry}
use arche.Compile.Manifest.{Manifest, manifest_parse, no_manifest, lines_loop, parse_line}

length-skip_while : (test : ℕ → Bool) (p : Bytes) → length (skip_while test p) ≤ length p
unfolding skip_while
length-skip_while test [] = omega arith
length-skip_while test (c ∷ cs) = ground (arith, length-skip_while test cs)

skip_while-head :
    (test : ℕ → Bool) (p : Bytes) (c : ℕ) (cs : Bytes) → skip_while test p ≡ c ∷ cs → test c ≡ false
unfolding skip_while
skip_while-head test [] c cs h = ground arith
skip_while-head test (d ∷ ds) c cs h = elim (Bool-cases (test d)) [
  | inl t ↦ ground (arith, skip_while-head test ds c cs)
  | inr f ↦ ground arith
]

list_cases : (p : Bytes) → (p ≡ []) ⊎ ((c : ℕ) × (cs : Bytes) × (p ≡ c ∷ cs))
list_cases [] = inl refl
list_cases (c ∷ cs) = inr (c, cs, refl)

-- Past an entry of a selection text, the text is shorter.
past_entry :
    (p : Bytes) (c : ℕ) (cs : Bytes)
    → skip_while is_separator p ≡ c ∷ cs
    → length (skip_while no_comma (c ∷ cs)) < length p
unfolding skip_while
past_entry p c cs h = ground (
  arith,
  skip_while-head is_separator p c cs h,
  length-skip_while no_comma cs,
  length-skip_while is_separator p,
  ap length h,
)

parse_round :
    (f : ℕ) (m : VariantMap) (p : Bytes) (c : ℕ) (cs : Bytes)
    → skip_while is_separator p ≡ c ∷ cs
    → parse_loop (suc f) m p
      ≡ parse_loop f
          (set_entry m (trim_end (text_while no_comma (c ∷ cs))))
          (skip_while no_comma (c ∷ cs))
unfolding parse_loop
parse_round f m p c cs h = rw (parse_loop, h) refl

parse_end :
    (f : ℕ) (m : VariantMap) (p : Bytes) → skip_while is_separator p ≡ [] → parse_loop f m p ≡ m
unfolding parse_loop
parse_end zero m p h = refl
parse_end (suc f) m p h = rw (parse_loop, h) refl

skipped_all : (p : Bytes) → length p ≤ 0 → skip_while is_separator p ≡ []
unfolding skip_while
skipped_all [] h = refl
skipped_all (c ∷ cs) h = absurd (omega arith)

-- The loop `while (*p)` of `variant_map_parse`, entered with a map and a text, ends with a map: each
-- round skips separators, enters the text up to a comma, and goes on behind it.
pub data ParseRuns : VariantMap → Bytes → VariantMap → Type 0 where
  ends : {m : VariantMap} {p : Bytes} → skip_while is_separator p ≡ [] → ParseRuns m p m
  goes_on :
      {m m' : VariantMap} {p : Bytes} (c : ℕ) (cs : Bytes)
      → skip_while is_separator p ≡ c ∷ cs
      → ParseRuns
          (set_entry m (trim_end (text_while no_comma (c ∷ cs))))
          (skip_while no_comma (c ∷ cs))
          m'
      → ParseRuns m p m'

parse_loop-ParseRuns :
    (fuel : ℕ) (m : VariantMap) (p : Bytes) → length p ≤ fuel → ParseRuns m p (parse_loop fuel m p)
parse_loop-ParseRuns zero m p h =
    let none_left = skipped_all p h in rw (parse_end zero m p none_left) (ends none_left)
parse_loop-ParseRuns (suc fuel) m p h = elim (list_cases (skip_while is_separator p)) [
  | inl e ↦ rw (parse_end (suc fuel) m p e) (ends e)
  | inr (c, cs, e) ↦ rw (parse_round fuel m p c cs e) (
      goes_on c cs e (
        parse_loop-ParseRuns fuel _ (skip_while no_comma (c ∷ cs))
          (omega (arith, past_entry p c cs e))))
]

-- The loop over a selection text ends, on every map and text, and with the map that its rounds give.
pub variant_map_parse-ParseRuns :
    (m : VariantMap) (spec : Bytes) → ParseRuns m spec (variant_map_parse m (some spec))
unfolding variant_map_parse
variant_map_parse-ParseRuns m spec = parse_loop-ParseRuns (length spec) m spec (omega arith)

length-fgets : (cap : ℕ) (p : Bytes) → length (fgets cap p).1 ≤ length p
unfolding fgets
length-fgets zero p = omega arith
length-fgets (suc cap) [] = omega arith
length-fgets (suc zero) (c ∷ cs) = omega arith
length-fgets (suc (suc cap)) (c ∷ cs) = ground (arith, length-fgets (suc cap) cs)

-- A line takes at least a byte.
shorter-fgets : (cap c : ℕ) (cs : Bytes) → length (fgets (suc (suc cap)) (c ∷ cs)).1 ≤ length cs
unfolding fgets
shorter-fgets cap c cs = ground (arith, length-fgets (suc cap) cs)

lines_round :
    (f : ℕ) (mf : Manifest) (section : Bytes) (c : ℕ) (cs : Bytes)
    → lines_loop (suc f) mf section (c ∷ cs)
      ≡ lines_loop f
          (parse_line mf section (skip_while is_blank (fgets 1024 (c ∷ cs)).0)).0
          (parse_line mf section (skip_while is_blank (fgets 1024 (c ∷ cs)).0)).1
          (fgets 1024 (c ∷ cs)).1
unfolding lines_loop
lines_round f mf section c cs = refl

lines_end : (f : ℕ) (mf : Manifest) (section : Bytes) → lines_loop f mf section [] ≡ mf
unfolding lines_loop
lines_end zero mf section = refl
lines_end (suc f) mf section = refl

-- The loop `while (fgets(…))` of `manifest_parse`, entered with tables, a section and the rest of a
-- file, ends with tables: each round takes a line of the file, and goes on behind it.
pub data LinesRun : Manifest → Bytes → Bytes → Manifest → Type 0 where
  at_end : {mf : Manifest} {section : Bytes} → LinesRun mf section [] mf
  line :
      {mf mf' : Manifest} {section : Bytes} (c : ℕ) (cs : Bytes)
      → LinesRun
          (parse_line mf section (skip_while is_blank (fgets 1024 (c ∷ cs)).0)).0
          (parse_line mf section (skip_while is_blank (fgets 1024 (c ∷ cs)).0)).1
          (fgets 1024 (c ∷ cs)).1
          mf'
      → LinesRun mf section (c ∷ cs) mf'

lines_loop-LinesRun :
    (fuel : ℕ) (mf : Manifest) (section file : Bytes)
    → length file ≤ fuel
    → LinesRun mf section file (lines_loop fuel mf section file)
lines_loop-LinesRun fuel mf section [] h = rw (lines_end fuel mf section) at_end
lines_loop-LinesRun zero mf section (c ∷ cs) h = absurd (omega arith)
lines_loop-LinesRun (suc fuel) mf section (c ∷ cs) h =
    rw (lines_round fuel mf section c cs)
      (line c cs (lines_loop-LinesRun fuel _ _ _ (omega (arith, shorter-fgets 1022 c cs))))

-- The loop over the lines of a file ends, on every file, and with the tables that its rounds give.
pub manifest_parse-LinesRun :
    (file : Bytes) → LinesRun no_manifest [] file (manifest_parse (some file))
unfolding manifest_parse
manifest_parse-LinesRun file = lines_loop-LinesRun (length file) no_manifest [] file (omega arith)
