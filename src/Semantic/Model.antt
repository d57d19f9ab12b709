-- ===== src/Semantic/Model.antt =====
-- semantic/sem_model.c `SemModel`: what the analysis finds out about nodes, in tables indexed by the
-- ids of nodes. None is a run whose behaviour is undefined, as in Columns. A flag (0 or 1) is a Boolean; a name is
-- copied, so its old copy is freed; the getters' NULL model is left out.
use arche.Base.{ℕ, Bool, true, false, List, [], Option, none, Bytes, if◌then◌else◌}
use arche.Base.Int.{ℤ, negsuc}
use arche.Semantic.Columns.{is_below, grown_cap, fill, set_at, entry}
use arche.Base.{◌>>=◌, some}

-- semantic/sem_ids.h
pub record DefId : Type 0 where
  pub unit : ℤ
  pub index : ℤ

abbrev pub defid_none : DefId
defid_none = record { unit = negsuc 0; index = negsuc 0 }

pub record SemModel : Type 0 where
  pub expr_type_id : List ℕ
  pub bind_alias : List Bool
  pub implicit_move : List Bool
  pub policy_elided : List Bool
  pub callee_name : List (Option Bytes)
  pub ref_name : List (Option Bytes)
  pub callee_def : List DefId
  pub ref_def : List DefId
  pub cap : ℕ

abbrev pub sem_model_new : SemModel
sem_model_new = record {
  expr_type_id = [];
  bind_alias = [];
  implicit_move = [];
  policy_elided = [];
  callee_name = [];
  ref_name = [];
  callee_def = [];
  ref_def = [];
  cap = 0;
}

unfoldable pub extended : ℕ → SemModel → SemModel
unfolding fill
extended newcap m = record {
  expr_type_id = fill m.cap newcap 0 m.expr_type_id;
  bind_alias = fill m.cap newcap false m.bind_alias;
  implicit_move = fill m.cap newcap false m.implicit_move;
  policy_elided = fill m.cap newcap false m.policy_elided;
  callee_name = fill m.cap newcap none m.callee_name;
  ref_name = fill m.cap newcap none m.ref_name;
  callee_def = fill m.cap newcap defid_none m.callee_def;
  ref_def = fill m.cap newcap defid_none m.ref_def;
  cap = newcap;
}

-- `ensure`
unfoldable pub ensure : SemModel → ℕ → Option SemModel
unfolding grown_cap extended
ensure m node_id =
    let grown = grown_cap m.cap node_id >>= λ newcap. some (extended newcap m) in
    if is_below node_id m.cap then some m else grown

unfoldable pub sem_model_set_expr_type_id : SemModel → ℕ → ℕ → Option SemModel
unfolding ensure set_at
sem_model_set_expr_type_id m node_id t = do
  g ← ensure m node_id
  column ← set_at node_id t g.expr_type_id
  some (record g { expr_type_id = column })

unfoldable pub sem_model_set_bind_alias : SemModel → ℕ → Option SemModel
unfolding ensure set_at
sem_model_set_bind_alias m node_id = do
  g ← ensure m node_id
  column ← set_at node_id true g.bind_alias
  some (record g { bind_alias = column })

unfoldable pub sem_model_set_implicit_move : SemModel → ℕ → Option SemModel
unfolding ensure set_at
sem_model_set_implicit_move m node_id = do
  g ← ensure m node_id
  column ← set_at node_id true g.implicit_move
  some (record g { implicit_move = column })

unfoldable pub sem_model_set_policy_elided : SemModel → ℕ → Option SemModel
unfolding ensure set_at
sem_model_set_policy_elided m node_id = do
  g ← ensure m node_id
  column ← set_at node_id true g.policy_elided
  some (record g { policy_elided = column })

unfoldable pub sem_model_set_callee_name : SemModel → ℕ → Option Bytes → Option SemModel
unfolding ensure set_at
sem_model_set_callee_name m node_id name = do
  g ← ensure m node_id
  column ← set_at node_id name g.callee_name
  some (record g { callee_name = column })

unfoldable pub sem_model_set_ref_name : SemModel → ℕ → Option Bytes → Option SemModel
unfolding ensure set_at
sem_model_set_ref_name m node_id name = do
  g ← ensure m node_id
  column ← set_at node_id name g.ref_name
  some (record g { ref_name = column })

unfoldable pub sem_model_set_callee_def : SemModel → ℕ → DefId → Option SemModel
unfolding ensure set_at
sem_model_set_callee_def m node_id d = do
  g ← ensure m node_id
  column ← set_at node_id d g.callee_def
  some (record g { callee_def = column })

unfoldable pub sem_model_set_ref_def : SemModel → ℕ → DefId → Option SemModel
unfolding ensure set_at
sem_model_set_ref_def m node_id d = do
  g ← ensure m node_id
  column ← set_at node_id d g.ref_def
  some (record g { ref_def = column })

unfoldable pub sem_model_expr_type_id : SemModel → ℕ → Option ℕ
unfolding entry
sem_model_expr_type_id m node_id = entry m.cap 0 m.expr_type_id node_id

unfoldable pub sem_model_bind_alias : SemModel → ℕ → Option Bool
unfolding entry
sem_model_bind_alias m node_id = entry m.cap false m.bind_alias node_id

unfoldable pub sem_model_implicit_move : SemModel → ℕ → Option Bool
unfolding entry
sem_model_implicit_move m node_id = entry m.cap false m.implicit_move node_id

unfoldable pub sem_model_policy_elided : SemModel → ℕ → Option Bool
unfolding entry
sem_model_policy_elided m node_id = entry m.cap false m.policy_elided node_id

unfoldable pub sem_model_callee_name : SemModel → ℕ → Option (Option Bytes)
unfolding entry
sem_model_callee_name m node_id = entry m.cap none m.callee_name node_id

unfoldable pub sem_model_ref_name : SemModel → ℕ → Option (Option Bytes)
unfolding entry
sem_model_ref_name m node_id = entry m.cap none m.ref_name node_id

unfoldable pub sem_model_callee_def : SemModel → ℕ → Option DefId
unfolding entry
sem_model_callee_def m node_id = entry m.cap defid_none m.callee_def node_id

unfoldable pub sem_model_ref_def : SemModel → ℕ → Option DefId
unfolding entry
sem_model_ref_def m node_id = entry m.cap defid_none m.ref_def node_id
