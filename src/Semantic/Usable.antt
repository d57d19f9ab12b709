-- ===== src/Semantic/Usable.antt =====
-- semantic/sem_types.c `tyid_usable_as`: which types a type can stand in for.
use arche.Base.{ℕ, zero, suc, ◌<◌, Bool, true, [], ◌∷◌, ◌++◌, length}
use arche.Base.{drop, get_elem?}
use arche.Base.{◌≡◌, ◌≢◌, ◌↔◌, ◌⊎◌, refl, sym, ap, ◌∙◌, subst, arith, inl, inr}
use arche.Base.{Option-cases, some, none, Option}
use arche.Semantic.TypeNode.{TypeNode, tyk_unknown, tyk_eff}
use arche.Semantic.Arena.{TypeArena, intern, tyid_backing, backing_in, node_of}
use arche.Semantic.Arena.{push_node, find_node, ty_arena_new}

-- The chain of backings of the first type reaches the second.
pub data BacksTo (a : TypeArena) : ℕ → ℕ → Type 0 where
  itself : {t : ℕ} → t ≢ 0 → BacksTo a t t
  through : {t to : ℕ} → t ≢ 0 → BacksTo a (tyid_backing a t) to → BacksTo a t to

-- A backing stands before the types that it backs.
pub WellBacked : TypeArena → Type 0
WellBacked a = (t : ℕ) → 0 < t → tyid_backing a t < t

-- The answer says whether the proposition holds.
abbrev pub Decides : Type 0 → Bool → Type 0
Decides P b = (b ≡ true) ↔ P

-- An effect fits one with the same out-slots that is structural, or of the same extern.
unfoldable pub NodesFit : TypeNode → TypeNode → Type 0
NodesFit (tyk_eff from_extern from_slots _) (tyk_eff to_extern to_slots _) =
    (from_slots ≡ to_slots) × ((to_extern ≡ none) ⊎ (to_extern ≡ from_extern))
NodesFit _ _ = ⊥

get_elem?-snoc :
    (a : TypeArena) (n : TypeNode) (t : ℕ)
    → (get_elem? (a ++ (n ∷ [])) t ≡ get_elem? a t)
      ⊎ ((t ≡ length a) × (get_elem? (a ++ (n ∷ [])) t ≡ some n))
get_elem?-snoc [] n zero = inr (refl, refl)
get_elem?-snoc [] n (suc t) = inl refl
get_elem?-snoc (m ∷ a) n zero = inl refl
get_elem?-snoc (m ∷ a) n (suc t) = elim (get_elem?-snoc a n t) [
  | inl e ↦ inl e
  | inr (e, g) ↦ inr (ap suc e, g)
]

backing_of : Option TypeNode → ℕ
backing_of none = 0
backing_of (some n) = backing_in n

tyid_backing-place :
    (a : TypeArena) (t : ℕ) → tyid_backing a (suc t) ≡ backing_of (get_elem? a (suc t))
unfolding tyid_backing node_of backing_of backing_in
tyid_backing-place a t = by_place (get_elem? a (suc t))
  where
    by_place :
        (o : Option TypeNode)
        → backing_in (elim o [ none ↦ tyk_unknown | some n ↦ n ]) ≡ backing_of o
    by_place none = refl
    by_place (some n) = refl

pushed-WellBacked :
    (a : TypeArena) (n : TypeNode)
    → WellBacked a
    → backing_in n < length a
    → WellBacked (a ++ (n ∷ []))
unfolding WellBacked backing_of
pushed-WellBacked a n w l zero h = absurd (omega arith)
pushed-WellBacked a n w l (suc t) h = elim (get_elem?-snoc a n (suc t)) [
  | inl e ↦
      let same =
        tyid_backing-place (a ++ (n ∷ [])) t ∙ ap backing_of e ∙ sym (tyid_backing-place a t) in
      subst (λ k. k < suc t) (sym same) (w (suc t) h)
  | inr (e, g) ↦
      let new : tyid_backing (a ++ (n ∷ [])) (suc t) ≡ backing_in n =
        tyid_backing-place (a ++ (n ∷ [])) t ∙ ap backing_of g in
      omega (arith, e, new, l)
]

-- A type whose backing is in the arena keeps the backings in order, as the arena of the start has
-- them.
pub intern-WellBacked :
    (a : TypeArena) (n : TypeNode)
    → WellBacked a
    → backing_in n < length a
    → WellBacked (intern a n).1
unfolding push_node intern WellBacked
intern-WellBacked a n w l = elim (Option-cases (find_node 1 (drop 1 a) n)) [
  | inl new ↦ rw (intern, new) (pushed-WellBacked a n w l)
  | inr (i, found) ↦ rw (intern, found) w
]

pub ty_arena_new-WellBacked : WellBacked ty_arena_new
unfolding WellBacked ty_arena_new tyid_backing node_of backing_in
ty_arena_new-WellBacked zero h = h
ty_arena_new-WellBacked (suc zero) h = omega arith
ty_arena_new-WellBacked (suc (suc t)) h = omega arith
