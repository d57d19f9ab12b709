-- ===== src/Semantic/Columns.antt =====
-- The arrays of semantic/sem_model.c and semantic/sem_hints.c that are indexed by the ids of nodes, a
-- `uint32_t`, and grow together to a capacity, an `int`. None is a run whose behaviour C leaves
-- undefined: an overflow of the `int`, or an access behind the end of an array.
use arche.Base.{ℕ, zero, suc, ◌+◌, ◌-◌, ◌*◌, ◌^◌, ◌≤◌, ◌<◌, ◌≡◌, refl, ap, arith}
use arche.Base.{List, [], ◌∷◌, ◌++◌, length, length-append, ◌≢◌, Bool-cases, inl, inr, ==_iff}
use arche.Base.{Bool, leb, ltb, leb, ◌==◌, ◌||◌, if◌then◌else◌, Option, none, some}
use arche.Base.{◌>>=◌}
use arche.Base.{get_elem?}

abbrev pub int_limit : ℕ
int_limit = 2 ^ 31

-- `(int)node_id < cap`: an id from 2 ^ 31 on is a negative `int`.
abbrev pub is_below : ℕ → ℕ → Bool
is_below node_id cap = leb int_limit node_id || ltb node_id cap

-- `cap * 2`
unfoldable pub twice : ℕ → Option ℕ
twice cap = if ltb (cap * 2) int_limit then some (cap * 2) else none

-- `while (newcap <= (int)node_id) newcap *= 2`, for an id below 2 ^ 31. Each round doubles a capacity
-- that is at least 1, so the id is fuel enough.
unfoldable pub doubled : ℕ → ℕ → ℕ → Option ℕ
unfolding twice
doubled zero id newcap = if leb newcap id then none else some newcap
doubled (suc fuel) id newcap =
    let more = twice newcap >>= doubled fuel id in if leb newcap id then more else some newcap

-- The capacity that `ensure` grows the arrays to.
unfoldable pub grown_cap : ℕ → ℕ → Option ℕ
unfolding doubled
grown_cap cap id = (if cap == 0 then some 64 else twice cap) >>= doubled id id

-- A capacity with room for the id.
pub record Grown (cap id : ℕ) (o : Option ℕ) : Type 0 where
  pub newcap : ℕ
  pub newcap_is : o ≡ some newcap
  pub room : id < newcap
  pub more : cap ≤ newcap

twice-small : (cap id : ℕ) → cap ≤ id → id < 2 ^ 30 → twice cap ≡ some (cap * 2)
unfolding twice
twice-small cap id h k = ground arith

doubled-Grown :
    (fuel id newcap : ℕ)
    → 0 < newcap
    → id < newcap + fuel
    → id < 2 ^ 30
    → Grown newcap id (doubled fuel id newcap)
unfolding doubled
doubled-Grown zero id newcap p h s = record {
  newcap = newcap;
  newcap_is = ground arith;
  room = omega arith;
  more = omega arith;
}
doubled-Grown (suc fuel) id newcap p h s = elim (Bool-cases (leb newcap id)) [
  | inl t ↦
      let le : newcap ≤ id = ground (arith, t) in
      let x = doubled-Grown fuel id (newcap * 2) (omega arith) (omega arith) s in
      record {
        newcap = x.newcap;
        newcap_is = rw (t, twice-small newcap id le s) x.newcap_is;
        room = x.room;
        more = omega (arith, x.more);
      }
  | inr f ↦ record {
    newcap = newcap;
    newcap_is = rw f refl;
    room = ground (arith, f);
    more = omega arith;
  }
]

pub grown_cap-Grown : (cap id : ℕ) → cap ≤ id → id < 2 ^ 30 → Grown cap id (grown_cap cap id)
unfolding grown_cap
grown_cap-Grown cap id h s = elim (Bool-cases (cap == 0)) [
  | inl t ↦
      let x = doubled-Grown id id 64 (omega arith) (omega arith) s in
      record {
        newcap = x.newcap;
        newcap_is = rw t x.newcap_is;
        room = x.room;
        more = ground (arith, t);
      }
  | inr f ↦
      let pos : 0 < cap = ground (arith, f) in
      let x = doubled-Grown id id (cap * 2) (omega arith) (omega arith) s in
      record {
        newcap = x.newcap;
        newcap_is = rw (f, twice-small cap id h s) x.newcap_is;
        room = x.room;
        more = omega (arith, x.more);
      }
]

module _ {ℓ} {A : Type ℓ} where
  unfoldable pub copies : ℕ → A → List A
  copies zero a = []
  copies (suc n) a = a ∷ copies n a

  -- `realloc`, and the loop that fills the new places.
  unfoldable pub fill : ℕ → ℕ → A → List A → List A
  unfolding copies
  fill cap newcap none_yet column = column ++ copies (newcap - cap) none_yet

  -- `column[id] = a`
  unfoldable pub set_at : ℕ → A → List A → Option (List A)
  set_at id a [] = none
  set_at zero a (b ∷ column) = some (a ∷ column)
  set_at (suc id) a (b ∷ column) = set_at id a column >>= λ c. some (b ∷ c)

  -- A getter: the default for an id that is not below the capacity, else `column[id]`.
  unfoldable pub entry : ℕ → A → List A → ℕ → Option A
  entry cap none_yet column id = if is_below id cap then get_elem? column id else some none_yet

  -- What stands at a place, or the default behind the end; and the array with a place changed.
  unfoldable pub place : A → List A → ℕ → A
  place none_yet [] id = none_yet
  place none_yet (a ∷ column) zero = a
  place none_yet (a ∷ column) (suc id) = place none_yet column id

  unfoldable pub store : ℕ → A → List A → List A
  store id a [] = []
  store zero a (b ∷ column) = a ∷ column
  store (suc id) a (b ∷ column) = b ∷ store id a column

module _ {ℓ} {A : Type ℓ} where
  pub length-store : (id : ℕ) (a : A) (column : List A) → length (store id a column) ≡ length column
  unfolding store
  length-store id a [] = refl
  length-store zero a (b ∷ column) = refl
  length-store (suc id) a (b ∷ column) = ap suc (length-store id a column)

  length-copies : (n : ℕ) (a : A) → length (copies n a) ≡ n
  unfolding copies
  length-copies zero a = refl
  length-copies (suc n) a = ap suc (length-copies n a)

  pub length-fill :
      (cap newcap : ℕ) (a : A) (column : List A)
      → length column ≡ cap
      → cap ≤ newcap
      → length (fill cap newcap a column) ≡ newcap
  unfolding fill
  length-fill cap newcap a column e h =
      omega (arith, length-append column (copies (newcap - cap) a), length-copies (newcap - cap) a)

  place-copies : (n : ℕ) (a : A) (id : ℕ) → place a (copies n a) id ≡ a
  unfolding copies place
  place-copies zero a id = refl
  place-copies (suc n) a zero = refl
  place-copies (suc n) a (suc id) = place-copies n a id

  place-append-copies :
      (n : ℕ) (a : A) (column : List A) (id : ℕ)
      → place a (column ++ copies n a) id ≡ place a column id
  unfolding place
  place-append-copies n a [] id = place-copies n a id
  place-append-copies n a (b ∷ column) zero = refl
  place-append-copies n a (b ∷ column) (suc id) = place-append-copies n a column id

  -- New places hold what is entry behind the old ones.
  pub place-fill :
      (cap newcap : ℕ) (a : A) (column : List A) (id : ℕ)
      → place a (fill cap newcap a column) id ≡ place a column id
  unfolding fill
  place-fill cap newcap a column id = place-append-copies (newcap - cap) a column id

  place-store_same :
      (none_yet a : A) (id : ℕ) (column : List A)
      → id < length column
      → place none_yet (store id a column) id ≡ a
  unfolding place store
  place-store_same none_yet a zero (b ∷ column) h = refl
  place-store_same none_yet a (suc id) (b ∷ column) h =
      place-store_same none_yet a id column (omega (arith, h))
  place-store_same none_yet a id [] h = ground arith

  place-store_other :
      (none_yet a : A) (id : ℕ) (column : List A) (j : ℕ)
      → j ≢ id
      → place none_yet (store id a column) j ≡ place none_yet column j
  unfolding place store
  place-store_other none_yet a id [] j h = refl
  place-store_other none_yet a zero (b ∷ column) zero h = ground arith
  place-store_other none_yet a zero (b ∷ column) (suc j) h = refl
  place-store_other none_yet a (suc id) (b ∷ column) zero h = refl
  place-store_other none_yet a (suc id) (b ∷ column) (suc j) h =
      place-store_other none_yet a id column j (λ e. h (ap suc e))

  pub place-store :
      (none_yet a : A) (id : ℕ) (column : List A) (j : ℕ)
      → id < length column
      → place none_yet (store id a column) j ≡ (if j == id then a else place none_yet column j)
  place-store none_yet a id column j h = elim (Bool-cases (j == id)) [
    | inl t ↦ rw (t, (==_iff j id).0 t, place-store_same none_yet a id column h)
    | inr f ↦ rw (f, place-store_other none_yet a id column j (λ e. ground (arith, f, e)))
  ]

  place-past : (a : A) (column : List A) (id : ℕ) → length column ≤ id → place a column id ≡ a
  unfolding place
  place-past a [] id h = refl
  place-past a (b ∷ column) zero h = ground arith
  place-past a (b ∷ column) (suc id) h = place-past a column id (omega (arith, h))

  get_elem?-place :
      (a : A) (column : List A) (id : ℕ)
      → id < length column
      → get_elem? column id ≡ some (place a column id)
  unfolding place
  get_elem?-place a [] id h = absurd (omega arith)
  get_elem?-place a (b ∷ column) zero h = refl
  get_elem?-place a (b ∷ column) (suc id) h = get_elem?-place a column id (omega (arith, h))

  pub set_at-store :
      (id : ℕ) (a : A) (column : List A)
      → id < length column
      → set_at id a column ≡ some (store id a column)
  unfolding set_at store
  set_at-store id a [] h = absurd (omega arith)
  set_at-store zero a (b ∷ column) h = refl
  set_at-store (suc id) a (b ∷ column) h = rw (set_at-store id a column (omega (arith, h))) refl

  pub entry-place :
      (n : ℕ) (a : A) (column : List A) (id : ℕ)
      → length column ≡ n
      → id < int_limit
      → entry n a column id ≡ some (place a column id)
  unfolding entry
  entry-place n a column id e h = elim (Bool-cases (is_below id n)) [
    | inl t ↦ rw t (get_elem?-place a column id (ground (arith, t, e, h)))
    | inr f ↦ rw (f, place-past a column id (ground (arith, f, e))) refl
  ]
