-- ===== src/Semantic/Tables.antt =====
-- The tables of semantic/sem_model.c as maps, and what `ensure` keeps of them.
use arche.Base.{ℕ, ◌<◌, ◌≤◌, ◌≡◌, refl}
use arche.Base.{false, none}
use arche.Base.{length, Bool-cases}
use arche.Base.{inl, inr}
use arche.Semantic.Columns.{place}
use arche.Semantic.Columns.{length-fill, place-fill, entry-place}
use arche.Semantic.Model.{defid_none, SemModel, ensure, extended}
use arche.Semantic.Model.{sem_model_expr_type_id}
use arche.Semantic.Model.{sem_model_bind_alias}
use arche.Semantic.Model.{sem_model_implicit_move}
use arche.Semantic.Model.{sem_model_policy_elided}
use arche.Semantic.Model.{sem_model_callee_name}
use arche.Semantic.Model.{sem_model_ref_name}
use arche.Semantic.Model.{sem_model_callee_def}
use arche.Semantic.Model.{sem_model_ref_def}
use arche.Semantic.Facts.{Facts, Answers}
use arche.Base.{◌^◌, arith, some}
use arche.Semantic.Columns.{is_below, grown_cap-Grown}

-- The lengths of the tables.
pub record Shape : Type 0 where
  pub expr_type_id_length : ℕ
  pub bind_alias_length : ℕ
  pub implicit_move_length : ℕ
  pub policy_elided_length : ℕ
  pub callee_name_length : ℕ
  pub ref_name_length : ℕ
  pub callee_def_length : ℕ
  pub ref_def_length : ℕ
  pub room : ℕ

abbrev pub shape : SemModel → Shape
shape m = record {
  expr_type_id_length = length m.expr_type_id;
  bind_alias_length = length m.bind_alias;
  implicit_move_length = length m.implicit_move;
  policy_elided_length = length m.policy_elided;
  callee_name_length = length m.callee_name;
  ref_name_length = length m.ref_name;
  callee_def_length = length m.callee_def;
  ref_def_length = length m.ref_def;
  room = m.cap;
}

-- Every table is as long as the capacity.
pub record IsFull (s : Shape) : Type 0 where
  pub expr_type_id_full : s.expr_type_id_length ≡ s.room
  pub bind_alias_full : s.bind_alias_length ≡ s.room
  pub implicit_move_full : s.implicit_move_length ≡ s.room
  pub policy_elided_full : s.policy_elided_length ≡ s.room
  pub callee_name_full : s.callee_name_length ≡ s.room
  pub ref_name_full : s.ref_name_length ≡ s.room
  pub callee_def_full : s.callee_def_length ≡ s.room
  pub ref_def_full : s.ref_def_length ≡ s.room

abbrev pub IsModel : SemModel → Type 0
IsModel m = IsFull (shape m)

-- The tables as maps, read without a look at the capacity.
abbrev pub places : SemModel → Facts
places m = record {
  expr_type_id_of = place 0 m.expr_type_id;
  bind_alias_of = place false m.bind_alias;
  implicit_move_of = place false m.implicit_move;
  policy_elided_of = place false m.policy_elided;
  callee_name_of = place none m.callee_name;
  ref_name_of = place none m.ref_name;
  callee_def_of = place defid_none m.callee_def;
  ref_def_of = place defid_none m.ref_def;
}

pub Answers-places : (m : SemModel) → IsModel m → Answers m (places m)
unfolding sem_model_expr_type_id sem_model_bind_alias sem_model_implicit_move
    sem_model_policy_elided sem_model_callee_name sem_model_ref_name sem_model_callee_def
    sem_model_ref_def
Answers-places m w = record {
  expr_type_id_is = λ j h. entry-place m.cap 0 m.expr_type_id j w.expr_type_id_full h;
  bind_alias_is = λ j h. entry-place m.cap false m.bind_alias j w.bind_alias_full h;
  implicit_move_is = λ j h. entry-place m.cap false m.implicit_move j w.implicit_move_full h;
  policy_elided_is = λ j h. entry-place m.cap false m.policy_elided j w.policy_elided_full h;
  callee_name_is = λ j h. entry-place m.cap none m.callee_name j w.callee_name_full h;
  ref_name_is = λ j h. entry-place m.cap none m.ref_name j w.ref_name_full h;
  callee_def_is = λ j h. entry-place m.cap defid_none m.callee_def j w.callee_def_full h;
  ref_def_is = λ j h. entry-place m.cap defid_none m.ref_def j w.ref_def_full h;
}

places-extended : (newcap : ℕ) (m : SemModel) → places (extended newcap m) ≡ places m
unfolding extended
places-extended newcap m = λ i. record {
  expr_type_id_of = λ j. place-fill m.cap newcap 0 m.expr_type_id j i;
  bind_alias_of = λ j. place-fill m.cap newcap false m.bind_alias j i;
  implicit_move_of = λ j. place-fill m.cap newcap false m.implicit_move j i;
  policy_elided_of = λ j. place-fill m.cap newcap false m.policy_elided j i;
  callee_name_of = λ j. place-fill m.cap newcap none m.callee_name j i;
  ref_name_of = λ j. place-fill m.cap newcap none m.ref_name j i;
  callee_def_of = λ j. place-fill m.cap newcap defid_none m.callee_def j i;
  ref_def_of = λ j. place-fill m.cap newcap defid_none m.ref_def j i;
}

extended-IsModel :
    (newcap : ℕ) (m : SemModel) → IsModel m → m.cap ≤ newcap → IsModel (extended newcap m)
unfolding extended
extended-IsModel newcap m w h = record {
  expr_type_id_full = length-fill m.cap newcap 0 m.expr_type_id w.expr_type_id_full h;
  bind_alias_full = length-fill m.cap newcap false m.bind_alias w.bind_alias_full h;
  implicit_move_full = length-fill m.cap newcap false m.implicit_move w.implicit_move_full h;
  policy_elided_full = length-fill m.cap newcap false m.policy_elided w.policy_elided_full h;
  callee_name_full = length-fill m.cap newcap none m.callee_name w.callee_name_full h;
  ref_name_full = length-fill m.cap newcap none m.ref_name w.ref_name_full h;
  callee_def_full = length-fill m.cap newcap defid_none m.callee_def w.callee_def_full h;
  ref_def_full = length-fill m.cap newcap defid_none m.ref_def w.ref_def_full h;
}

-- What `ensure` gives: room for the id, and the same facts.
pub record Ensured (m : SemModel) (id : ℕ) : Type 0 where
  pub grown : SemModel
  pub runs : ensure m id ≡ some grown
  pub full : IsModel grown
  pub enough : id < grown.cap
  pub same : places grown ≡ places m

pub ensure-Ensured : (m : SemModel) (id : ℕ) → id < 2 ^ 30 → IsModel m → Ensured m id
unfolding ensure
ensure-Ensured m id s w = elim (Bool-cases (is_below id m.cap)) [
  | inl t ↦ record {
    grown = m;
    runs = rw t refl;
    full = w;
    enough = ground (arith, t, s);
    same = refl;
  }
  | inr f ↦
      let x = grown_cap-Grown m.cap id (ground (arith, f)) s in
      record {
        grown = extended x.newcap m;
        runs = rw (f, x.newcap_is) refl;
        full = extended-IsModel x.newcap m w x.more;
        enough = unfold extended in x.room;
        same = places-extended x.newcap m;
      }
]
