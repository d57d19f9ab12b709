-- ===== src/Semantic/Hints.antt =====
-- semantic/sem_hints.c `SemHints`: facts about nodes for the editor, in tables like those of
-- semantic/sem_model.c. None is a run whose behaviour is undefined, as in Columns.
use arche.Base.{ℕ, Bool, true, false, List, [], Option, none, some, Bytes, if◌then◌else◌}
use arche.Semantic.Columns.{is_below, grown_cap, fill, set_at, entry}
use arche.Base.{◌>>=◌}

pub record SemHints : Type 0 where
  pub param_name : List (Option Bytes)
  pub param_is_own : List Bool
  pub elided_move : List Bool
  pub cap : ℕ

abbrev pub sem_hints_new : SemHints
sem_hints_new = record { param_name = []; param_is_own = []; elided_move = []; cap = 0 }

unfoldable pub extended_hints : ℕ → SemHints → SemHints
unfolding fill
extended_hints newcap h = record {
  param_name = fill h.cap newcap none h.param_name;
  param_is_own = fill h.cap newcap false h.param_is_own;
  elided_move = fill h.cap newcap false h.elided_move;
  cap = newcap;
}

-- `ensure`
unfoldable pub ensure_hints : SemHints → ℕ → Option SemHints
unfolding grown_cap extended_hints
ensure_hints h node_id =
    let grown = grown_cap h.cap node_id >>= λ newcap. some (extended_hints newcap h) in
    if is_below node_id h.cap then some h else grown

-- Without a name nothing is recorded.
unfoldable pub sem_hints_set_param : SemHints → ℕ → Option Bytes → Bool → Option SemHints
unfolding ensure_hints set_at
sem_hints_set_param h node_id none is_own = some h
sem_hints_set_param h node_id (some name) is_own = do
  g ← ensure_hints h node_id
  names ← set_at node_id (some name) g.param_name
  owns ← set_at node_id is_own g.param_is_own
  some (record g { param_name = names; param_is_own = owns })

unfoldable pub sem_hints_param_name : SemHints → ℕ → Option (Option Bytes)
unfolding entry
sem_hints_param_name h node_id = entry h.cap none h.param_name node_id

unfoldable pub sem_hints_param_is_own : SemHints → ℕ → Option Bool
unfolding entry
sem_hints_param_is_own h node_id = entry h.cap false h.param_is_own node_id

unfoldable pub sem_hints_set_elided_move : SemHints → ℕ → Option SemHints
unfolding ensure_hints set_at
sem_hints_set_elided_move h node_id = do
  g ← ensure_hints h node_id
  moves ← set_at node_id true g.elided_move
  some (record g { elided_move = moves })

unfoldable pub sem_hints_is_elided_move : SemHints → ℕ → Option Bool
unfolding entry
sem_hints_is_elided_move h node_id = entry h.cap false h.elided_move node_id
