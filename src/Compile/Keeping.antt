-- ===== src/Compile/Keeping.antt =====
-- What a set of compile/variant_select.c does to the shape of a `VariantMap`.
use arche.Base.{some_injective}
use arche.Base.{true, false, [], ◌∷◌, ◌++◌, ◌≡◌, ◌≢◌, subst, refl, sym}
use arche.Base.{◌∙◌, arith, inl, inr}
use arche.Base.{Option, none, some, Bytes, text_eq, text_eq_iff, Bool-cases}
use arche.Base.{Option-cases}
use arche.Compile.VariantMap.{VariantSel, VariantMap, given, override, append_new}
use arche.Compile.VariantMap.{variant_map_set}
use arche.Compile.Entries.{entry_of, WellFormed, or_new, override-entry_of, override-none}
use arche.Compile.Entries.{entry_of-append, given_idempotent}

override-cons_found :
    (s : VariantSel) (m : VariantMap) (d : Bytes) (v : Option Bytes)
    → text_eq s.device d ≡ true
    → override (s ∷ m) d v ≡ some (record s { variant = given v } ∷ m)
unfolding override
override-cons_found s m d v t = rw t refl

override-cons_passed :
    (s : VariantSel) (m k : VariantMap) (d : Bytes) (v : Option Bytes)
    → text_eq s.device d ≡ false
    → override m d v ≡ some k
    → override (s ∷ m) d v ≡ some (s ∷ k)
unfolding override
override-cons_passed s m k d v f r = rw (f, r) refl

text_eq_sym : (a b : Bytes) → text_eq a b ≡ false → text_eq b a ≡ false
text_eq_sym a b f = ground (arith, text_eq_iff a b, text_eq_iff b a)

override-WellFormed :
    (m m' : VariantMap) (d : Bytes) (v : Option Bytes)
    → WellFormed m
    → override m d v ≡ some m'
    → WellFormed m'
unfolding WellFormed override
override-WellFormed [] m' d v w h = ground arith
override-WellFormed (s ∷ m) m' d v (a, b, c, w) h = elim (Bool-cases (text_eq s.device d)) [
  | inl t ↦
      subst WellFormed (some_injective (sym (override-cons_found s m d v t) ∙ h))
        (a, given_idempotent v, c, w)
  | inr f ↦ elim (Option-cases (override m d v)) [
    | inl n ↦ ground arith
    | inr (k, r) ↦
        let fresh : entry_of k s.device ≡ none =
          override-entry_of m k d s.device v r ∙ rw (text_eq_sym s.device d f) c in
        subst WellFormed (some_injective (sym (override-cons_passed s m k d v f r) ∙ h))
          (a, b, fresh, override-WellFormed m k d v w r)
  ]
]

append-WellFormed :
    (m : VariantMap) (s : VariantSel)
    → WellFormed m
    → WellFormed (s ∷ [])
    → entry_of m s.device ≡ none
    → WellFormed (m ++ (s ∷ []))
unfolding WellFormed entry_of or_new
append-WellFormed [] s w h n = h
append-WellFormed (r ∷ m) s (a, b, c, w) h n = (
  a,
  b,
  ground (
    arith,
    entry_of-append m s r.device,
    text_eq_iff r.device s.device,
    text_eq_iff s.device r.device,
  ),
  append-WellFormed m s w h (ground arith),
)

append_new-WellFormed :
    (m : VariantMap) (d : Bytes) (v : Option Bytes)
    → WellFormed m
    → d ≢ []
    → entry_of m d ≡ none
    → given v ≡ v
    → WellFormed (append_new m d v)
unfolding WellFormed append_new entry_of
append_new-WellFormed m d none w h n g = w
append_new-WellFormed m d (some u) w h n g =
    append-WellFormed m (record { device = d; variant = some u }) w (h, g, refl, tt) n

-- A set keeps a map well formed.
pub variant_map_set-WellFormed :
    (m : VariantMap) (d : Bytes) (v : Option Bytes)
    → WellFormed m
    → WellFormed (variant_map_set m d v)
unfolding variant_map_set
variant_map_set-WellFormed m [] v w = w
variant_map_set-WellFormed m (c ∷ cs) v w = elim (Option-cases (override m (c ∷ cs) v)) [
  | inl n ↦
      rw (variant_map_set, n)
        (append_new-WellFormed m (c ∷ cs) (given v) w (λ e. ground arith)
          (override-none m (c ∷ cs) v n) (given_idempotent v))
  | inr (k, r) ↦ rw (variant_map_set, r) (override-WellFormed m k (c ∷ cs) v w r)
]
