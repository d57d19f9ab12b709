-- ===== src/Semantic/TypeNode.antt =====
-- semantic/sem_types.c `TypeNode`, and the comparison by which its constructors find a node again. A
-- type is named by its place in the arena, 0 for the unknown type. A name in the string pool is its
-- text, since the pool holds each text once.
use arche.Base.{ℕ, Bool, true, false, ◌&&◌, List, [], ◌∷◌, Option, none, some, ◌==◌, Bytes}
use arche.Base.{text_eq}

pub data PrimKind : Type 0 where
  prim_void prim_bool prim_int prim_float prim_char prim_str : PrimKind

-- The kinds that share the payload `func`.
pub data CallableKind : Type 0 where
  tyk_func tyk_proc tyk_map tyk_policy : CallableKind

-- A constructor for each kind, with its payload. The variants of a sum are none until it is
-- complete; a rank is not negative.
pub data TypeNode : Type 0 where
  tyk_unknown : TypeNode
  tyk_prim : PrimKind → TypeNode
  tyk_nominal : (name : Bytes) (backing : ℕ) → TypeNode
  tyk_slice : (elem : ℕ) → TypeNode
  tyk_array : (elem len : ℕ) → TypeNode
  tyk_tuple : (names : List (Option Bytes)) (types : List ℕ) → TypeNode
  tyk_sum : (name : Bytes) (variants : Option (List (Bytes × List ℕ))) → TypeNode
  tyk_handle : (archetype_name : Bytes) → TypeNode
  tyk_eff :
      (extern_name : Option Bytes) (out_slots : List ℕ) (out_slot_names : List (Option Bytes))
      → TypeNode
  tyk_archetype_category : TypeNode
  tyk_callable : CallableKind → (params returns : List ℕ) → TypeNode

unfoldable pub same_prim : PrimKind → PrimKind → Bool
same_prim prim_void prim_void = true
same_prim prim_bool prim_bool = true
same_prim prim_int prim_int = true
same_prim prim_float prim_float = true
same_prim prim_char prim_char = true
same_prim prim_str prim_str = true
same_prim _ _ = false

unfoldable pub same_callable : CallableKind → CallableKind → Bool
same_callable tyk_func tyk_func = true
same_callable tyk_proc tyk_proc = true
same_callable tyk_map tyk_map = true
same_callable tyk_policy tyk_policy = true
same_callable _ _ = false

-- Arrays of ids of one length.
unfoldable pub same_ids : List ℕ → List ℕ → Bool
same_ids [] [] = true
same_ids (i ∷ is) (j ∷ js) = i == j && same_ids is js
same_ids _ _ = false

unfoldable pub same_name : Option Bytes → Option Bytes → Bool
unfolding text_eq
same_name none none = true
same_name (some a) (some b) = text_eq a b
same_name _ _ = false

unfoldable pub same_names : List (Option Bytes) → List (Option Bytes) → Bool
unfolding same_name
same_names [] [] = true
same_names (a ∷ as') (b ∷ bs) = same_name a b && same_names as' bs
same_names _ _ = false

-- The test in the loop of the constructors for these kinds. The first argument is the node looked
-- for; sums and effects are looked for in other ways.
unfoldable pub same_node : TypeNode → TypeNode → Bool
unfolding same_prim same_callable same_ids same_names text_eq
same_node (tyk_prim p) (tyk_prim q) = same_prim p q
same_node (tyk_nominal a i) (tyk_nominal b j) = text_eq a b && i == j
same_node (tyk_slice i) (tyk_slice j) = i == j
same_node (tyk_array i m) (tyk_array j n) = i == j && m == n
same_node (tyk_tuple as' is) (tyk_tuple bs js) = same_ids is js && same_names as' bs
same_node (tyk_handle a) (tyk_handle b) = text_eq a b
same_node tyk_archetype_category tyk_archetype_category = true
same_node (tyk_callable j ps rs) (tyk_callable k qs ss) =
    same_callable j k && same_ids ps qs && same_ids rs ss
same_node _ _ = false
