-- ===== src/Compile/Entries.antt =====
-- The laws of `VariantMap` (compile/variant_select.c): what a device's entry is after a set.
use arche.Base.{true, [], ◌∷◌, ◌++◌, ◌≡◌, ◌≢◌, subst, refl}
use arche.Base.{◌∙◌, arith, inl, inr}
use arche.Base.{Option, none, some, if◌then◌else◌, Bytes, text_eq, text_eq_iff, Bool-cases}
use arche.Base.{Option-cases}
use arche.Compile.VariantMap.{VariantSel, VariantMap, given, override, append_new}
use arche.Compile.VariantMap.{variant_map_set}
use arche.Compile.VariantMap.{variant_map_lookup}

-- The entry of a device; its variant may be none.
unfoldable pub entry_of : VariantMap → Bytes → Option (Option Bytes)
entry_of [] device = none
entry_of (s ∷ m) device =
    let more = entry_of m device in if text_eq s.device device then some s.variant else more

-- An entry, or what holds without one.
abbrev pub chosen : Option (Option Bytes) → Option Bytes → Option Bytes
chosen none other = other
chosen (some v) other = v

-- No device is empty or has two entries, and no variant is empty.
unfoldable pub WellFormed : VariantMap → Type 0
WellFormed [] = Unit
WellFormed (s ∷ m) =
    (s.device ≢ []) × (given s.variant ≡ s.variant) × (entry_of m s.device ≡ none) × WellFormed m

pub variant_map_lookup-entry_of :
    (m : VariantMap) (d : Bytes) → variant_map_lookup m d ≡ chosen (entry_of m d) none
unfolding variant_map_lookup entry_of
variant_map_lookup-entry_of [] d = refl
variant_map_lookup-entry_of (s ∷ m) d = ground (arith, variant_map_lookup-entry_of m d)

text_eq_self : (a : Bytes) → text_eq a a ≡ true
text_eq_self a = (text_eq_iff a a).1 refl

pub override-none :
    (m : VariantMap) (d : Bytes) (v : Option Bytes) → override m d v ≡ none → entry_of m d ≡ none
unfolding override entry_of
override-none [] d v h = refl
override-none (s ∷ m) d v h = ground (arith, override-none m d v)

pub given_idempotent : (v : Option Bytes) → given (given v) ≡ given v
given_idempotent none = refl
given_idempotent (some []) = refl
given_idempotent (some (c ∷ cs)) = refl

-- What the override loop does to an entry.
pub override-entry_of :
    (m m' : VariantMap) (d e : Bytes) (v : Option Bytes)
    → override m d v ≡ some m'
    → entry_of m' e ≡ (if text_eq d e then some (given v) else entry_of m e)
unfolding override entry_of
override-entry_of [] m' d e v h = ground arith
override-entry_of (s ∷ m) m' d e v h = elim (Bool-cases (text_eq s.device d)) [
  | inl t ↦ ground (arith, (text_eq_iff s.device d).0 t)
  | inr f ↦ elim (Option-cases (override m d v)) [
    | inl n ↦ ground arith
    | inr (k, r) ↦ ground (
      arith,
      override-entry_of m k d e v r,
      text_eq_iff s.device e,
      text_eq_iff d e,
      text_eq_iff s.device d,
    )
  ]
]

-- An entry, or else a new one.
unfoldable pub or_new : Option (Option Bytes) → Option (Option Bytes) → Option (Option Bytes)
or_new none other = other
or_new (some v) other = some v

or_new-none : (o : Option (Option Bytes)) → or_new o none ≡ o
unfolding or_new
or_new-none none = refl
or_new-none (some v) = refl

pub entry_of-append :
    (m : VariantMap) (s : VariantSel) (e : Bytes)
    → entry_of (m ++ (s ∷ [])) e
      ≡ or_new (entry_of m e) (if text_eq s.device e then some s.variant else none)
unfolding entry_of or_new
entry_of-append [] s e = refl
entry_of-append (r ∷ m) s e = ground (arith, entry_of-append m s e)

-- The entry of a device that is set to `v`, from the one before.
abbrev pub after_set : Option (Option Bytes) → Option Bytes → Option (Option Bytes)
after_set none none = none
after_set none (some v) = some (some v)
after_set (some old) v = some v

override-some :
    (m m' : VariantMap) (d : Bytes) (v : Option Bytes)
    → override m d v ≡ some m'
    → entry_of m d ≢ none
unfolding override entry_of
override-some [] m' d v h = λ k. ground arith
override-some (s ∷ m) m' d v h = λ k. elim (Bool-cases (text_eq s.device d)) [
  | inl t ↦ ground arith
  | inr f ↦ elim (Option-cases (override m d v)) [
    | inl n ↦ ground arith
    | inr (l, r) ↦ ground (arith, override-some m l d v r)
  ]
]

override-after_set :
    (m m' : VariantMap) (d e : Bytes) (v : Option Bytes)
    → override m d v ≡ some m'
    → entry_of m' e ≡ (if text_eq d e then after_set (entry_of m d) (given v) else entry_of m e)
override-after_set m m' d e v h = elim (Option-cases (entry_of m d)) [
  | inl n ↦ absurd (override-some m m' d v h n)
  | inr (w, r) ↦ override-entry_of m m' d e v h ∙ rw r refl
]

same-none :
    (m : VariantMap) (d e : Bytes) → entry_of m d ≡ none → text_eq d e ≡ true → entry_of m e ≡ none
same-none m d e h t = subst (λ k. entry_of m k ≡ none) ((text_eq_iff d e).0 t) h

append_new-after_set :
    (m : VariantMap) (d e : Bytes) (w : Option Bytes)
    → entry_of m d ≡ none
    → entry_of (append_new m d w) e
      ≡ (if text_eq d e then after_set (entry_of m d) w else entry_of m e)
unfolding append_new or_new
append_new-after_set m d e none h = elim (Bool-cases (text_eq d e)) [
  | inl t ↦ rw (t, h, same-none m d e h t) refl
  | inr f ↦ rw f refl
]
append_new-after_set m d e (some u) h = elim (Bool-cases (text_eq d e)) [
  | inl t ↦
      entry_of-append m (record { device = d; variant = some u }) e
      ∙ rw (same-none m d e h t, t, h) refl
  | inr f ↦
      entry_of-append m (record { device = d; variant = some u }) e
      ∙ rw f (or_new-none (entry_of m e))
]

-- After a set, the entry of the device follows from the one before, and no other entry has changed.
pub variant_map_set-after_set :
    (m : VariantMap) (d e : Bytes) (v : Option Bytes)
    → d ≢ []
    → entry_of (variant_map_set m d v) e
      ≡ (if text_eq d e then after_set (entry_of m d) (given v) else entry_of m e)
unfolding variant_map_set
variant_map_set-after_set m [] e v h = absurd (h refl)
variant_map_set-after_set m (c ∷ cs) e v h = elim (Option-cases (override m (c ∷ cs) v)) [
  | inl n ↦
      rw (variant_map_set, n)
        (append_new-after_set m (c ∷ cs) e (given v) (override-none m (c ∷ cs) v n))
  | inr (k, r) ↦ rw (variant_map_set, r) (override-after_set m k (c ∷ cs) e v r)
]
