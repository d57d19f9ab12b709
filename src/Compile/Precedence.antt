-- ===== src/Compile/Precedence.antt =====
-- compile/variant_select.c: which of its sources the variant of a device comes from.
use arche.Base.{ℕ, zero, suc, Bool, true, false, List, [], ◌∷◌, ◌++◌, ◌≡◌, ◌≢◌, refl, sym}
use arche.Base.{ap, ◌∙◌, arith, inl, inr}
use arche.Base.{length, Option, none, some, if◌then◌else◌, Bytes, text_eq, text_eq_iff}
use arche.Base.{Bool-cases, subst}
use arche.Compile.Text.{split_at, skip_while, text_while, trim_end, fit}
use arche.Compile.VariantMap.{VariantMap, given, variant_map_set}
use arche.Compile.VariantMap.{variant_map_lookup}
use arche.Compile.VariantMap.{variant_map_merge, variant_map_parse, parse_loop, set_entry}
use arche.Compile.VariantMap.{is_separator, no_comma}
use arche.Compile.Keeping.{variant_map_set-WellFormed}
use arche.Compile.Entries.{entry_of, chosen, WellFormed, after_set, variant_map_lookup-entry_of}
use arche.Compile.Entries.{variant_map_set-after_set}

-- The entries of a selection text, in order.
unfoldable pub entry_pair : Bytes → List (Bytes × Bytes)
entry_pair entry = elim (split_at b'=' entry) [
  | none ↦ []
  | some halves ↦ (fit 64 halves.0, fit 64 halves.1) ∷ []
]

unfoldable pub pairs_loop : ℕ → Bytes → List (Bytes × Bytes)
unfolding entry_pair
pairs_loop zero p = []
pairs_loop (suc fuel) p = elim (skip_while is_separator p) [
  | [] ↦ []
  | c ∷ cs ↦
      entry_pair (trim_end (text_while no_comma (c ∷ cs)))
      ++ pairs_loop fuel (skip_while no_comma (c ∷ cs))
]

unfoldable pub pairs_of : Option Bytes → List (Bytes × Bytes)
unfolding pairs_loop
pairs_of none = []
pairs_of (some spec) = pairs_loop (length spec) spec

-- What the last of the pairs for a device asks for.
unfoldable pub last_pair : List (Bytes × Bytes) → Bytes → Option (Option Bytes)
last_pair [] d = none
last_pair ((e, v) ∷ ps) d = elim (last_pair ps d) [
  | none ↦ (if text_eq e d then some (given (some v)) else none)
  | some w ↦ some w
]

pub set_all : VariantMap → List (Bytes × Bytes) → VariantMap
set_all m [] = m
set_all m ((d, v) ∷ ps) = set_all (variant_map_set m d (some v)) ps

set_all-append :
    (m : VariantMap) (ps qs : List (Bytes × Bytes))
    → set_all m (ps ++ qs) ≡ set_all (set_all m ps) qs
unfolding set_all
set_all-append m [] qs = refl
set_all-append m ((d, v) ∷ ps) qs = set_all-append (variant_map_set m d (some v)) ps qs

set_entry-pair : (m : VariantMap) (e : Bytes) → set_entry m e ≡ set_all m (entry_pair e)
unfolding set_entry set_all entry_pair
set_entry-pair m e =
    elim (split_at b'=' e)
      as (λ o.
        elim o as (λ _. VariantMap) [
          | none ↦ m
          | some h ↦ variant_map_set m (fit 64 h.0) (some (fit 64 h.1))
        ]
        ≡ set_all m (elim o [ none ↦ [] | some h ↦ (fit 64 h.0, fit 64 h.1) ∷ [] ])) [
          | none ↦ refl
          | some h ↦ refl
        ]

after_set-chosen : (o : Option (Option Bytes)) (v : Option Bytes) → chosen (after_set o v) none ≡ v
after_set-chosen none none = refl
after_set-chosen none (some v) = refl
after_set-chosen (some old) v = refl

-- After a set, the device has the variant, unless that is empty, and no other device has changed.
pub variant_map_lookup-set :
    (m : VariantMap) (d e : Bytes) (v : Option Bytes)
    → d ≢ []
    → variant_map_lookup (variant_map_set m d v) e
      ≡ (if text_eq d e then given v else variant_map_lookup m e)
variant_map_lookup-set m d e v h =
    variant_map_lookup-entry_of (variant_map_set m d v) e
    ∙ rw (variant_map_set-after_set m d e v h, variant_map_lookup-entry_of m e)
        (by_case (text_eq d e))
  where
    by_case :
        (b : Bool)
        → chosen (if b then after_set (entry_of m d) (given v) else entry_of m e) none
          ≡ (if b then given v else chosen (entry_of m e) none)
    by_case true = after_set-chosen (entry_of m d) (given v)
    by_case false = refl

parse_round-pairs :
    (fuel : ℕ) (m : VariantMap) (q : Bytes)
    → ((m : VariantMap) (p : Bytes) → parse_loop fuel m p ≡ set_all m (pairs_loop fuel p))
    → elim q as (λ _. VariantMap) [
      | [] ↦ m
      | c ∷ cs ↦
          parse_loop fuel
            (set_entry m (trim_end (text_while no_comma (c ∷ cs))))
            (skip_while no_comma (c ∷ cs))
    ]
      ≡ set_all m (elim q [
        | [] ↦ []
        | c ∷ cs ↦
            entry_pair (trim_end (text_while no_comma (c ∷ cs)))
            ++ pairs_loop fuel (skip_while no_comma (c ∷ cs))
      ])
unfolding set_all
parse_round-pairs fuel m [] more = refl
parse_round-pairs fuel m (c ∷ cs) more =
    let entry = trim_end (text_while no_comma (c ∷ cs)) in
    let left = skip_while no_comma (c ∷ cs) in
    more (set_entry m entry) left
    ∙ ap (λ k. set_all k (pairs_loop fuel left)) (set_entry-pair m entry)
    ∙ sym (set_all-append m (entry_pair entry) (pairs_loop fuel left))

parse_loop-pairs :
    (fuel : ℕ) (m : VariantMap) (p : Bytes) → parse_loop fuel m p ≡ set_all m (pairs_loop fuel p)
unfolding parse_loop pairs_loop set_all
parse_loop-pairs zero m p = refl
parse_loop-pairs (suc fuel) m p =
    parse_round-pairs fuel m (skip_while is_separator p) (λ k q. parse_loop-pairs fuel k q)

pub parse-pairs :
    (m : VariantMap) (spec : Option Bytes) → variant_map_parse m spec ≡ set_all m (pairs_of spec)
unfolding variant_map_parse pairs_of set_all
parse-pairs m none = refl
parse-pairs m (some spec) = parse_loop-pairs (length spec) m spec

set_all-WellFormed :
    (m : VariantMap) (ps : List (Bytes × Bytes)) → WellFormed m → WellFormed (set_all m ps)
unfolding set_all
set_all-WellFormed m [] w = w
set_all-WellFormed m ((d, v) ∷ ps) w =
    set_all-WellFormed (variant_map_set m d (some v)) ps (variant_map_set-WellFormed m d (some v) w)

-- A selection text keeps a map well formed.
pub variant_map_parse-WellFormed :
    (m : VariantMap) (spec : Option Bytes) → WellFormed m → WellFormed (variant_map_parse m spec)
variant_map_parse-WellFormed m spec w =
    subst WellFormed (sym (parse-pairs m spec)) (set_all-WellFormed m (pairs_of spec) w)

lookup-unset :
    (m : VariantMap) (c : ℕ) (cs : Bytes) (v : Option Bytes)
    → variant_map_lookup (variant_map_set m [] v) (c ∷ cs)
      ≡ (if text_eq [] (c ∷ cs) then given v else variant_map_lookup m (c ∷ cs))
unfolding variant_map_set text_eq
lookup-unset m c cs v = refl

-- A set of the empty device changes nothing, so a device that is not empty sees every set alike.
lookup-set :
    (m : VariantMap) (e d : Bytes) (v : Option Bytes)
    → d ≢ []
    → variant_map_lookup (variant_map_set m e v) d
      ≡ (if text_eq e d then given v else variant_map_lookup m d)
lookup-set m (c ∷ cs) d v h = variant_map_lookup-set m (c ∷ cs) d v (λ e. ground arith)
lookup-set m [] [] v h = absurd (h refl)
lookup-set m [] (c ∷ cs) v h = lookup-unset m c cs v

chosen_or :
    (o : Option (Option Bytes)) (b : Bool) (x y : Option Bytes)
    → chosen o (if b then x else y)
      ≡ chosen (elim o [ none ↦ (if b then some x else none) | some w ↦ some w ]) y
chosen_or none true x y = refl
chosen_or none false x y = refl
chosen_or (some w) b x y = refl

pub lookup-set_all :
    (m : VariantMap) (ps : List (Bytes × Bytes)) (d : Bytes)
    → d ≢ []
    → variant_map_lookup (set_all m ps) d ≡ chosen (last_pair ps d) (variant_map_lookup m d)
unfolding set_all last_pair
lookup-set_all m [] d h = refl
lookup-set_all m ((e, v) ∷ ps) d h =
    lookup-set_all (variant_map_set m e (some v)) ps d h
    ∙ rw (lookup-set m e d (some v) h)
        (chosen_or (last_pair ps d) (text_eq e d) (given (some v)) (variant_map_lookup m d))

pub merge-lookup :
    (dst src : VariantMap) (d : Bytes)
    → WellFormed src
    → d ≢ []
    → variant_map_lookup (variant_map_merge dst src) d
      ≡ chosen (entry_of src d) (variant_map_lookup dst d)
unfolding variant_map_merge entry_of WellFormed
merge-lookup dst [] d w h = refl
merge-lookup dst (s ∷ src) d (a, b, c, w) h =
    merge-lookup (variant_map_set dst s.device s.variant) src d w h
    ∙ rw (variant_map_lookup-set dst s.device d s.variant a, b)
        (elim (Bool-cases (text_eq s.device d)) [
          | inl t ↦ rw (t, subst (λ k. entry_of src k ≡ none) ((text_eq_iff s.device d).0 t) c) refl
          | inr f ↦ rw f refl
        ])
