-- ===== src/Semantic/Arena.antt =====
-- semantic/sem_types.c `TypeArena`: the constructors of types and what the arena tells of a type. The
-- node at place 0 is the unknown type, so the list holds one at least.
use arche.Base.{ℕ, zero, suc, Bool, true, false, ◌&&◌, ◌||◌, List, [], ◌∷◌, ◌++◌, length}
use arche.Base.{drop, get_elem?}
use arche.Base.{Option, none, some, ◌==◌, if◌then◌else◌, Bytes}
use arche.Semantic.TypeNode.{TypeNode, PrimKind, same_node, same_ids, same_name}
use arche.Semantic.TypeNode.{tyk_unknown, tyk_prim, tyk_nominal, tyk_slice, tyk_array}
use arche.Semantic.TypeNode.{tyk_tuple, tyk_handle, tyk_eff}
use arche.Semantic.TypeNode.{tyk_archetype_category, tyk_callable, tyk_func, tyk_proc, tyk_map}
use arche.Semantic.TypeNode.{tyk_policy}

abbrev pub TypeArena : Type 0
TypeArena = List TypeNode

unfoldable pub ty_arena_new : TypeArena
ty_arena_new = tyk_unknown ∷ []

-- `for (i = first; i < node_count; i++)`, up to the first node that is the same.
unfoldable pub find_node : ℕ → List TypeNode → TypeNode → Option ℕ
unfolding same_node
find_node i [] n = none
find_node i (m ∷ ms) n = let more = find_node (suc i) ms n in if same_node n m then some i else more

unfoldable pub push_node : TypeArena → TypeNode → ℕ × TypeArena
push_node a n = (length a, a ++ (n ∷ []))

-- Each constructor looks for its node from place 1 on, and else pushes it.
unfoldable pub intern : TypeArena → TypeNode → ℕ × TypeArena
unfolding find_node push_node
intern a n = elim (find_node 1 (drop 1 a) n) [ none ↦ push_node a n | some i ↦ (i, a) ]

abbrev pub tyid_of_prim : TypeArena → PrimKind → ℕ × TypeArena
tyid_of_prim a p = intern a (tyk_prim p)

abbrev pub tyid_of_nominal_sub : TypeArena → Bytes → ℕ → ℕ × TypeArena
tyid_of_nominal_sub a name backing = intern a (tyk_nominal name backing)

abbrev pub tyid_of_nominal : TypeArena → Bytes → ℕ × TypeArena
tyid_of_nominal a name = tyid_of_nominal_sub a name 0

abbrev pub tyid_of_slice : TypeArena → ℕ → ℕ × TypeArena
tyid_of_slice a elem = intern a (tyk_slice elem)

abbrev pub tyid_of_array : TypeArena → ℕ → ℕ → ℕ × TypeArena
tyid_of_array a elem rank = intern a (tyk_array elem rank)

abbrev pub tyid_of_tuple : TypeArena → List (Option Bytes) → List ℕ → ℕ × TypeArena
tyid_of_tuple a names types = intern a (tyk_tuple names types)

abbrev pub tyid_of_handle : TypeArena → Bytes → ℕ × TypeArena
tyid_of_handle a name = intern a (tyk_handle name)

abbrev pub tyid_of_archetype_category : TypeArena → ℕ × TypeArena
tyid_of_archetype_category a = intern a tyk_archetype_category

abbrev pub tyid_of_func : TypeArena → List ℕ → List ℕ → ℕ × TypeArena
tyid_of_func a params returns = intern a (tyk_callable tyk_func params returns)

abbrev pub tyid_of_proc : TypeArena → List ℕ → List ℕ → ℕ × TypeArena
tyid_of_proc a params returns = intern a (tyk_callable tyk_proc params returns)

abbrev pub tyid_of_map : TypeArena → List ℕ → ℕ × TypeArena
tyid_of_map a params = intern a (tyk_callable tyk_map params [])

abbrev pub tyid_of_policy : TypeArena → List ℕ → ℕ × TypeArena
tyid_of_policy a params = intern a (tyk_callable tyk_policy params [])

-- The node of a type; the unknown type and a place that is not there have the node at 0.
unfoldable pub node_of : TypeArena → ℕ → TypeNode
node_of a zero = tyk_unknown
node_of a (suc t) = elim (get_elem? a (suc t)) [ none ↦ tyk_unknown | some n ↦ n ]

unfoldable pub backing_in : TypeNode → ℕ
backing_in (tyk_nominal name backing) = backing
backing_in _ = 0

unfoldable pub tyid_backing : TypeArena → ℕ → ℕ
unfolding node_of backing_in
tyid_backing a t = backing_in (node_of a t)

-- A concrete effect fits a structural one with the same out-slots, and itself.
unfoldable pub eff_fits : TypeNode → TypeNode → Bool
unfolding same_ids same_name
eff_fits (tyk_eff from_extern from_slots _) (tyk_eff to_extern to_slots _) =
    same_ids from_slots to_slots && (same_name to_extern none || same_name to_extern from_extern)
eff_fits _ _ = false

-- The loop over the chain of backings, for at most so many rounds; none where they do not end it.
unfoldable pub reaches : ℕ → TypeArena → ℕ → ℕ → Option Bool
unfolding tyid_backing
reaches fuel a zero to = some false
reaches zero a (suc t) to = none
reaches (suc fuel) a (suc t) to =
    let more = reaches fuel a (tyid_backing a (suc t)) to in if suc t == to then some true else more

-- A backing is a type made before, so the chain is no longer than the type's place.
unfoldable pub tyid_usable_as : TypeArena → ℕ → ℕ → Option Bool
unfolding node_of eff_fits reaches
tyid_usable_as a from to =
    let chain = reaches from a from to in
    if eff_fits (node_of a from) (node_of a to) then some true else chain
