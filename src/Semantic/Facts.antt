-- ===== src/Semantic/Facts.antt =====
-- What the tables of semantic/sem_model.c promise: a map from ids to facts, for each kind of fact.
use arche.Base.{ℕ, Bool, true}
use arche.Base.{false, Option, none}
use arche.Base.{List, [], ◌∷◌, Bytes, ◌==◌, if◌then◌else◌}
use arche.Semantic.Model.{DefId, defid_none, SemModel}
use arche.Semantic.Model.{sem_model_set_expr_type_id, sem_model_expr_type_id}
use arche.Semantic.Model.{sem_model_set_bind_alias, sem_model_bind_alias}
use arche.Semantic.Model.{sem_model_set_implicit_move, sem_model_implicit_move}
use arche.Semantic.Model.{sem_model_set_policy_elided, sem_model_policy_elided}
use arche.Semantic.Model.{sem_model_set_callee_name, sem_model_callee_name}
use arche.Semantic.Model.{sem_model_set_ref_name, sem_model_ref_name}
use arche.Semantic.Model.{sem_model_set_callee_def, sem_model_callee_def}
use arche.Semantic.Model.{sem_model_set_ref_def, sem_model_ref_def}
use arche.Base.{◌<◌, ◌≡◌, ◌^◌, ◌>>=◌, some, Option}
use arche.Semantic.Columns.{int_limit}

pub record Facts : Type 0 where
  pub expr_type_id_of : ℕ → ℕ
  pub bind_alias_of : ℕ → Bool
  pub implicit_move_of : ℕ → Bool
  pub policy_elided_of : ℕ → Bool
  pub callee_name_of : ℕ → Option Bytes
  pub ref_name_of : ℕ → Option Bytes
  pub callee_def_of : ℕ → DefId
  pub ref_def_of : ℕ → DefId

abbrev pub no_facts : Facts
no_facts = record {
  expr_type_id_of = λ j. 0;
  bind_alias_of = λ j. false;
  implicit_move_of = λ j. false;
  policy_elided_of = λ j. false;
  callee_name_of = λ j. none;
  ref_name_of = λ j. none;
  callee_def_of = λ j. defid_none;
  ref_def_of = λ j. defid_none;
}

-- What the getters answer, for every id that is not a negative `int`.
pub record Answers (m : SemModel) (f : Facts) : Type 0 where
  pub expr_type_id_is :
      (j : ℕ) → j < int_limit → sem_model_expr_type_id m j ≡ some (f.expr_type_id_of j)
  pub bind_alias_is : (j : ℕ) → j < int_limit → sem_model_bind_alias m j ≡ some (f.bind_alias_of j)
  pub implicit_move_is :
      (j : ℕ) → j < int_limit → sem_model_implicit_move m j ≡ some (f.implicit_move_of j)
  pub policy_elided_is :
      (j : ℕ) → j < int_limit → sem_model_policy_elided m j ≡ some (f.policy_elided_of j)
  pub callee_name_is :
      (j : ℕ) → j < int_limit → sem_model_callee_name m j ≡ some (f.callee_name_of j)
  pub ref_name_is : (j : ℕ) → j < int_limit → sem_model_ref_name m j ≡ some (f.ref_name_of j)
  pub callee_def_is : (j : ℕ) → j < int_limit → sem_model_callee_def m j ≡ some (f.callee_def_of j)
  pub ref_def_is : (j : ℕ) → j < int_limit → sem_model_ref_def m j ≡ some (f.ref_def_of j)

abbrev pub updated {ℓ} : {A : Type ℓ} → ℕ → A → (ℕ → A) → ℕ → A
updated id a f j = if j == id then a else f j

-- A call of a setter, on the tables and on the map.
pub data FactCall : Type 0 where
  set_expr_type_id : ℕ → ℕ → FactCall
  set_bind_alias : ℕ → FactCall
  set_implicit_move : ℕ → FactCall
  set_policy_elided : ℕ → FactCall
  set_callee_name : ℕ → Option Bytes → FactCall
  set_ref_name : ℕ → Option Bytes → FactCall
  set_callee_def : ℕ → DefId → FactCall
  set_ref_def : ℕ → DefId → FactCall

-- The node of a call.
abbrev pub node_of_call : FactCall → ℕ
node_of_call (set_expr_type_id id v) = id
node_of_call (set_bind_alias id) = id
node_of_call (set_implicit_move id) = id
node_of_call (set_policy_elided id) = id
node_of_call (set_callee_name id v) = id
node_of_call (set_ref_name id v) = id
node_of_call (set_callee_def id v) = id
node_of_call (set_ref_def id v) = id

-- The ids for which a doubled capacity fits an `int`.
abbrev pub IsSmall : FactCall → Type 0
IsSmall c = node_of_call c < 2 ^ 30

unfoldable pub call : SemModel → FactCall → Option SemModel
unfolding sem_model_set_expr_type_id sem_model_set_bind_alias sem_model_set_implicit_move
    sem_model_set_policy_elided sem_model_set_callee_name sem_model_set_ref_name
    sem_model_set_callee_def sem_model_set_ref_def
call m (set_expr_type_id id v) = sem_model_set_expr_type_id m id v
call m (set_bind_alias id) = sem_model_set_bind_alias m id
call m (set_implicit_move id) = sem_model_set_implicit_move m id
call m (set_policy_elided id) = sem_model_set_policy_elided m id
call m (set_callee_name id v) = sem_model_set_callee_name m id v
call m (set_ref_name id v) = sem_model_set_ref_name m id v
call m (set_callee_def id v) = sem_model_set_callee_def m id v
call m (set_ref_def id v) = sem_model_set_ref_def m id v

unfoldable pub learn : Facts → FactCall → Facts
learn f (set_expr_type_id id v) = record f { expr_type_id_of = updated id v f.expr_type_id_of }
learn f (set_bind_alias id) = record f { bind_alias_of = updated id true f.bind_alias_of }
learn f (set_implicit_move id) = record f { implicit_move_of = updated id true f.implicit_move_of }
learn f (set_policy_elided id) = record f { policy_elided_of = updated id true f.policy_elided_of }
learn f (set_callee_name id v) = record f { callee_name_of = updated id v f.callee_name_of }
learn f (set_ref_name id v) = record f { ref_name_of = updated id v f.ref_name_of }
learn f (set_callee_def id v) = record f { callee_def_of = updated id v f.callee_def_of }
learn f (set_ref_def id v) = record f { ref_def_of = updated id v f.ref_def_of }

unfoldable pub call_all : SemModel → List FactCall → Option SemModel
unfolding call
call_all m [] = some m
call_all m (c ∷ cs) = call m c >>= λ n. call_all n cs

unfoldable pub learn_all : Facts → List FactCall → Facts
unfolding learn
learn_all f [] = f
learn_all f (c ∷ cs) = learn_all (learn f c) cs
