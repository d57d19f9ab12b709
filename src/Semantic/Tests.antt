-- ===== src/Semantic/Tests.antt =====
-- Runs of the type arena, and the theorems at concrete inputs.
use arche.Base.{◌<◌, length, ◌≡◌, ◌↔◌, refl, arith, [], ◌∷◌, true, false, codes}
use arche.Base.{List, some}
use arche.Semantic.TypeNode.{TypeNode, tyk_prim, tyk_nominal, tyk_slice, tyk_callable, tyk_func}
use arche.Semantic.TypeNode.{tyk_proc, prim_float, prim_int}
use arche.Semantic.Arena.{TypeArena, ty_arena_new, intern, tyid_of_prim, tyid_of_nominal_sub}
use arche.Semantic.Arena.{tyid_of_slice, tyid_usable_as}
use arche.Semantic.Interning.{intern_all, intern-eq_iff}
use arche.Semantic.Model.{SemModel, sem_model_new, sem_model_callee_name}
use arche.Semantic.Facts.{FactCall, set_callee_name, set_bind_alias, call_all, learn_all}
use arche.Semantic.Facts.{Answers, no_facts}
use arche.Base.{◌>>=◌, none, ◌^◌}
use arche.Semantic.Hints.{SemHints, sem_hints_new, sem_hints_param_is_own}
use arche.Semantic.HintFacts.{HintCall, set_param, set_elided_move, hint_calls, learn_hints}
use arche.Semantic.HintFacts.{Hinted, no_hints}
use arche.Semantic.HintSetters.{hint_calls-learn_hints}
use arche.Semantic.Setters.{call_all-learn_all}
use arche.Semantic.Usable.{WellBacked, intern-WellBacked}
use arche.Semantic.Usable.{ty_arena_new-WellBacked}

-- `float`, and `meters` backed by it.
abbrev float_arena : TypeArena
float_arena = (tyid_of_prim ty_arena_new prim_float).1

abbrev meters_arena : TypeArena
meters_arena = (tyid_of_nominal_sub float_arena (codes "meters") 1).1

meters_as_float : tyid_usable_as meters_arena 2 1 ≡ some true
unfolding tyid_usable_as intern ty_arena_new
meters_as_float = refl

float_as_meters : tyid_usable_as meters_arena 1 2 ≡ some false
unfolding tyid_usable_as intern ty_arena_new
float_as_meters = refl

float_arena-WellBacked : WellBacked float_arena
unfolding ty_arena_new arche.Semantic.Arena.backing_in
float_arena-WellBacked =
    intern-WellBacked ty_arena_new (tyk_prim prim_float) ty_arena_new-WellBacked (omega arith)

meters_backing : 1 < length float_arena
unfolding ty_arena_new intern
meters_backing = omega arith

intern-WellBacked_example : WellBacked meters_arena
unfolding arche.Semantic.Arena.backing_in
intern-WellBacked_example =
    intern-WellBacked float_arena (tyk_nominal (codes "meters") 1) float_arena-WellBacked
      meters_backing

intern-eq_iff_example :
    ((intern ty_arena_new (tyk_callable tyk_func [] [])).0
      ≡ (intern
          (intern_all
            (intern ty_arena_new (tyk_callable tyk_func [] [])).1
            (tyk_prim prim_int ∷ []))
          (tyk_callable tyk_proc [] [])).0)
    ↔ (tyk_callable tyk_func [] [] ≡ tyk_callable tyk_proc [] [])
unfolding ty_arena_new arche.Semantic.TypeNode.same_node
intern-eq_iff_example =
    intern-eq_iff ty_arena_new (tyk_callable tyk_func [] []) (tyk_callable tyk_proc [] [])
      (tyk_prim prim_int ∷ []) (omega arith) refl refl

abbrev two_calls : List FactCall
two_calls =
    set_callee_name 3 (some (codes "f"))
    ∷ set_bind_alias 70
    ∷ set_callee_name 3 (some (codes "g"))
    ∷ []

callee_of_3 :
    (call_all sem_model_new two_calls >>= λ m. sem_model_callee_name m 3) ≡ some (some (codes "g"))
unfolding sem_model_callee_name call_all
callee_of_3 = refl

-- At 2 ^ 31 the conversion to `int` is negative, nothing grows, and the store is out of bounds.
callee_out_of_bounds : call_all sem_model_new (set_bind_alias (2 ^ 31) ∷ []) ≡ none
unfolding call_all
callee_out_of_bounds = refl

call_all-learn_all_example :
    (m : SemModel) × (call_all sem_model_new two_calls ≡ some m)
    × Answers m (learn_all no_facts two_calls)
call_all-learn_all_example =
    call_all-learn_all two_calls (omega arith, (omega arith, (omega arith, tt)))

abbrev hint_line : List HintCall
hint_line = set_param 5 (some (codes "x")) true ∷ set_elided_move 90 ∷ set_param 5 none false ∷ []

own_of_5 : (hint_calls sem_hints_new hint_line >>= λ h. sem_hints_param_is_own h 5) ≡ some true
unfolding sem_hints_param_is_own hint_calls
own_of_5 = refl

hint_calls-learn_hints_example :
    (h : SemHints) × (hint_calls sem_hints_new hint_line ≡ some h)
    × Hinted h (learn_hints no_hints hint_line)
hint_calls-learn_hints_example =
    hint_calls-learn_hints hint_line (omega arith, (omega arith, (omega arith, tt)))
