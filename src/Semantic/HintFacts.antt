-- ===== src/Semantic/HintFacts.antt =====
-- What the tables of semantic/sem_hints.c promise: a map from ids to hints.
use arche.Base.{ℕ, ◌<◌, ◌≡◌, ◌^◌, Bool, true, false}
use arche.Base.{◌>>=◌}
use arche.Base.{List, [], ◌∷◌, Option, none, some, Bytes}
use arche.Semantic.Columns.{int_limit}
use arche.Semantic.Facts.{updated}
use arche.Semantic.Hints.{SemHints}
use arche.Semantic.Hints.{sem_hints_set_param}
use arche.Semantic.Hints.{sem_hints_set_elided_move, sem_hints_param_name}
use arche.Semantic.Hints.{sem_hints_param_is_own}
use arche.Semantic.Hints.{sem_hints_is_elided_move}

-- The map, with the hints that a node has.
pub record NodeHints : Type 0 where
  pub param_name_of : ℕ → Option Bytes
  pub param_is_own_of : ℕ → Bool
  pub elided_move_of : ℕ → Bool

abbrev pub no_hints : NodeHints
no_hints = record {
  param_name_of = λ j. none;
  param_is_own_of = λ j. false;
  elided_move_of = λ j. false;
}

pub data HintCall : Type 0 where
  set_param : ℕ → Option Bytes → Bool → HintCall
  set_elided_move : ℕ → HintCall

-- A call of a setter, on the tables and on the map.
unfoldable pub hint_call : SemHints → HintCall → Option SemHints
unfolding sem_hints_set_param sem_hints_set_elided_move
hint_call h (set_param id name is_own) = sem_hints_set_param h id name is_own
hint_call h (set_elided_move id) = sem_hints_set_elided_move h id

unfoldable pub learn_hint : NodeHints → HintCall → NodeHints
learn_hint f (set_param id none is_own) = f
learn_hint f (set_param id (some name) is_own) = record f {
  param_name_of = updated id (some name) f.param_name_of;
  param_is_own_of = updated id is_own f.param_is_own_of;
}
learn_hint f (set_elided_move id) = record f { elided_move_of = updated id true f.elided_move_of }

unfoldable pub hint_calls : SemHints → List HintCall → Option SemHints
unfolding hint_call
hint_calls h [] = some h
hint_calls h (c ∷ cs) = hint_call h c >>= λ g. hint_calls g cs

unfoldable pub learn_hints : NodeHints → List HintCall → NodeHints
unfolding learn_hint
learn_hints f [] = f
learn_hints f (c ∷ cs) = learn_hints (learn_hint f c) cs

-- The ids for which a doubled capacity fits an `int`.
abbrev pub HasSmallId : HintCall → Type 0
HasSmallId (set_param id name is_own) = id < 2 ^ 30
HasSmallId (set_elided_move id) = id < 2 ^ 30

-- What the getters answer, for every id that is not a negative `int`.
pub record Hinted (h : SemHints) (f : NodeHints) : Type 0 where
  pub param_name_is : (j : ℕ) → j < int_limit → sem_hints_param_name h j ≡ some (f.param_name_of j)
  pub param_is_own_is :
      (j : ℕ) → j < int_limit → sem_hints_param_is_own h j ≡ some (f.param_is_own_of j)
  pub elided_move_is :
      (j : ℕ) → j < int_limit → sem_hints_is_elided_move h j ≡ some (f.elided_move_of j)
