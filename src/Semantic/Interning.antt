-- ===== src/Semantic/Interning.antt =====
-- What the constructors of semantic/sem_types.c find again in the arena.
use arche.Base.{some_injective}
use arche.Base.{append-nil, append_assoc}
use arche.Base.{ℕ, suc, ◌+◌, ◌≤◌, true, List, [], ◌∷◌, ◌++◌}
use arche.Base.{length, drop, get_elem?, length-append}
use arche.Base.{◌≡◌, ◌↔◌, refl, sym, ap, ◌∙◌, arith, inl, inr, Bool-cases}
use arche.Base.{Option-cases, Option, none, some, Bytes}
use arche.Base.{text_eq_iff}
use arche.Semantic.TypeNode.{TypeNode, PrimKind, CallableKind, same_node, same_ids, same_name}
use arche.Semantic.TypeNode.{same_names, same_prim, same_callable}
use arche.Semantic.TypeNode.{tyk_prim, tyk_nominal, tyk_slice, tyk_array}
use arche.Semantic.TypeNode.{tyk_tuple, tyk_handle}
use arche.Semantic.TypeNode.{tyk_archetype_category, tyk_callable}
use arche.Semantic.Arena.{TypeArena, intern, find_node, push_node}

same_ids_iff : (a b : List ℕ) → (same_ids a b ≡ true) ↔ (a ≡ b)
unfolding same_ids
same_ids_iff (x ∷ a) (y ∷ b) = ground (arith, same_ids_iff a b)
same_ids_iff _ _ = ground arith

same_name_iff : (a b : Option Bytes) → (same_name a b ≡ true) ↔ (a ≡ b)
unfolding same_name
same_name_iff (some a) (some b) = ground (arith, text_eq_iff a b)
same_name_iff _ _ = ground arith

same_names_iff : (a b : List (Option Bytes)) → (same_names a b ≡ true) ↔ (a ≡ b)
unfolding same_names
same_names_iff (x ∷ a) (y ∷ b) = ground (arith, same_names_iff a b, same_name_iff x y)
same_names_iff _ _ = ground arith

same_prim_iff : (a b : PrimKind) → (same_prim a b ≡ true) ↔ (a ≡ b)
unfolding same_prim
same_prim_iff _ _ = ground arith

same_callable_iff : (a b : CallableKind) → (same_callable a b ≡ true) ↔ (a ≡ b)
unfolding same_callable
same_callable_iff _ _ = ground arith

same_node-eq : (m n : TypeNode) → same_node m n ≡ true → m ≡ n
unfolding same_node
same_node-eq (tyk_prim p) (tyk_prim q) h = ground (arith, same_prim_iff p q)
same_node-eq (tyk_nominal a i) (tyk_nominal b j) h = ground (arith, text_eq_iff a b)
same_node-eq (tyk_slice i) (tyk_slice j) h = ground arith
same_node-eq (tyk_array i m) (tyk_array j n) h = ground arith
same_node-eq (tyk_tuple a i) (tyk_tuple b j) h =
    ground (arith, same_ids_iff i j, same_names_iff a b)
same_node-eq (tyk_handle a) (tyk_handle b) h = ground (arith, text_eq_iff a b)
same_node-eq tyk_archetype_category tyk_archetype_category h = refl
same_node-eq (tyk_callable j ps rs) (tyk_callable k qs ss) h =
    ground (arith, same_callable_iff j k, same_ids_iff ps qs, same_ids_iff rs ss)
same_node-eq _ _ h = ground arith

-- A kind of node that the constructors here look for: no sum, effect or unknown type.
abbrev pub IsKeyed : TypeNode → Type 0
IsKeyed n = same_node n n ≡ true

find_node-append :
    (k i : ℕ) (xs ys : List TypeNode) (n : TypeNode)
    → find_node k xs n ≡ some i
    → find_node k (xs ++ ys) n ≡ some i
unfolding find_node
find_node-append k i [] ys n h = ground arith
find_node-append k i (x ∷ xs) ys n h = ground (arith, find_node-append (suc k) i xs ys n)

find_node-new :
    (k : ℕ) (xs : List TypeNode) (n : TypeNode)
    → IsKeyed n
    → find_node k xs n ≡ none
    → find_node k (xs ++ (n ∷ [])) n ≡ some (k + length xs)
unfolding find_node
find_node-new k [] n same h = rw same (ap some (omega arith))
find_node-new k (x ∷ xs) n same h = elim (Bool-cases (same_node n x)) [
  | inl t ↦ ground arith
  | inr f ↦ rw f (find_node-new (suc k) xs n same (ground arith) ∙ ap some (omega arith))
]

-- What is found stands where it was found.
find_node-node :
    (k i : ℕ) (xs : List TypeNode) (n : TypeNode)
    → find_node k xs n ≡ some i
    → (j : ℕ) × (i ≡ k + j) × (get_elem? xs j ≡ some n)
unfolding find_node
find_node-node k i [] n h = ground arith
find_node-node k i (x ∷ xs) n h = elim (Bool-cases (same_node n x)) [
  | inl t ↦ (0, ground arith, ap some (sym (same_node-eq n x t)))
  | inr f ↦
      let (j, e, g) = find_node-node (suc k) i xs n (ground arith) in (suc j, omega (arith, e), g)
]

intern-found :
    (a : TypeArena) (n : TypeNode) (i : ℕ) → find_node 1 (drop 1 a) n ≡ some i → intern a n ≡ (i, a)
unfolding intern
intern-found a n i h = rw (intern, h) refl

intern-new :
    (a : TypeArena) (n : TypeNode)
    → find_node 1 (drop 1 a) n ≡ none
    → intern a n ≡ (length a, a ++ (n ∷ []))
unfolding intern push_node
intern-new a n h = rw (intern, h) refl

-- The type made is found again where it stands.
found-intern :
    (a : TypeArena) (n : TypeNode)
    → 1 ≤ length a
    → IsKeyed n
    → find_node 1 (drop 1 (intern a n).1) n ≡ some (intern a n).0
found-intern [] n l same = absurd (omega arith)
found-intern (u ∷ a) n l same = elim (Option-cases (find_node 1 a n)) [
  | inl new ↦ rw (intern-new (u ∷ a) n new) (find_node-new 1 a n same new ∙ ap some (omega arith))
  | inr (i, found) ↦ rw (intern-found (u ∷ a) n i found) found
]

unfoldable pub intern_all : TypeArena → List TypeNode → TypeArena
intern_all a [] = a
intern_all a (n ∷ ns) = intern_all (intern a n).1 ns

intern-extends : (a : TypeArena) (n : TypeNode) → (ys : List TypeNode) × ((intern a n).1 ≡ a ++ ys)
intern-extends a n = elim (Option-cases (find_node 1 (drop 1 a) n)) [
  | inl new ↦ (n ∷ [], ap (λ r. r.1) (intern-new a n new))
  | inr (i, found) ↦ ([], ap (λ r. r.1) (intern-found a n i found) ∙ sym (append-nil a))
]

intern_all-extends :
    (a : TypeArena) (ns : List TypeNode) → (ys : List TypeNode) × (intern_all a ns ≡ a ++ ys)
unfolding intern_all
intern_all-extends a [] = ([], sym (append-nil a))
intern_all-extends a (n ∷ ns) =
    let (xs, e) = intern-extends a n in
    let (ys, f) = intern_all-extends (intern a n).1 ns in
    (xs ++ ys, f ∙ ap (λ b. b ++ ys) e ∙ append_assoc a xs ys)

drop-append : (a ys : TypeArena) → 1 ≤ length a → drop 1 (a ++ ys) ≡ drop 1 a ++ ys
drop-append [] ys l = absurd (omega arith)
drop-append (u ∷ a) ys l = refl

length-extends : (a b ys : TypeArena) → b ≡ a ++ ys → 1 ≤ length a → 1 ≤ length b
length-extends a b ys e l = let many = ap length e ∙ length-append a ys in omega (arith, many)

-- A type stays found when more types are made.
found-later :
    (a : TypeArena) (ns : List TypeNode) (n : TypeNode) (i : ℕ)
    → 1 ≤ length a
    → find_node 1 (drop 1 a) n ≡ some i
    → find_node 1 (drop 1 (intern_all a ns)) n ≡ some i
found-later a ns n i l h =
    let (ys, e) = intern_all-extends a ns in
    ap (λ b. find_node 1 (drop 1 b) n) e
    ∙ ap (λ b. find_node 1 b n) (drop-append a ys l)
    ∙ find_node-append 1 i (drop 1 a) ys n h

-- In one arena, types are found at one place exactly if they are the same.
found_iff :
    (a : TypeArena) (m n : TypeNode) (i j : ℕ)
    → find_node 1 (drop 1 a) m ≡ some i
    → find_node 1 (drop 1 a) n ≡ some j
    → (i ≡ j) ↔ (m ≡ n)
found_iff a m n i j h k =
    let (p, ep, gp) = find_node-node 1 i (drop 1 a) m h in
    let (q, eq, gq) = find_node-node 1 j (drop 1 a) n k in
    (
      λ e.
          let same : p ≡ q = omega (arith, ep, eq, e) in
          some_injective (sym gp ∙ ap (λ r. get_elem? (drop 1 a) r) same ∙ gq),
      λ e. some_injective (sym h ∙ ap (λ r. find_node 1 (drop 1 a) r) e ∙ k),
    )

-- Two types of an arena have the same id exactly if they are the same, whatever types are made
-- between them.
pub intern-eq_iff :
    (a : TypeArena) (m n : TypeNode) (ns : List TypeNode)
    → 1 ≤ length a
    → IsKeyed m
    → IsKeyed n
    → ((intern a m).0 ≡ (intern (intern_all (intern a m).1 ns) n).0) ↔ (m ≡ n)
intern-eq_iff a m n ns l hm hn =
    let b = (intern a m).1 in
    let c = intern_all b ns in
    let (xs, ex) = intern-extends a m in
    let (ys, ey) = intern_all-extends b ns in
    let (zs, ez) = intern-extends c n in
    let lb = length-extends a b xs ex l in
    let lc = length-extends b c ys ey lb in
    let first = found-later b ns m (intern a m).0 lb (found-intern a m l hm) in
    let kept : find_node 1 (drop 1 (intern c n).1) m ≡ some (intern a m).0 =
      ap (λ d. find_node 1 (drop 1 d) m) ez
      ∙ ap (λ d. find_node 1 d m) (drop-append c zs lc)
      ∙ find_node-append 1 (intern a m).0 (drop 1 c) zs m first in
    found_iff (intern c n).1 m n (intern a m).0 (intern c n).0 kept (found-intern c n lc hn)
