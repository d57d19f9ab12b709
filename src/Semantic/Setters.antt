-- ===== src/Semantic/Setters.antt =====
-- Calls of the setters of semantic/sem_model.c, as updates of maps.
use arche.Base.{ℕ, ◌<◌, ◌≡◌, refl, sym, subst, ◌∙◌, ap, true}
use arche.Base.{false, Option, none}
use arche.Base.{List, [], ◌∷◌, length, Bytes}
use arche.Semantic.Columns.{store, place, length-store}
use arche.Semantic.Columns.{place-store}
use arche.Semantic.Model.{DefId, defid_none, SemModel, sem_model_new}
use arche.Semantic.Facts.{FactCall, no_facts, updated, call, learn, call_all}
use arche.Semantic.Facts.{learn_all}
use arche.Semantic.Facts.{set_expr_type_id}
use arche.Semantic.Facts.{set_bind_alias}
use arche.Semantic.Facts.{set_implicit_move}
use arche.Semantic.Facts.{set_policy_elided}
use arche.Semantic.Facts.{set_callee_name}
use arche.Semantic.Facts.{set_ref_name}
use arche.Semantic.Facts.{set_callee_def}
use arche.Semantic.Facts.{set_ref_def}
use arche.Semantic.Tables.{Shape, shape, IsFull, IsModel, places, Answers-places}
use arche.Semantic.Tables.{ensure-Ensured}
use arche.Base.{◌^◌, ◌∷◌, [], All, some, Option}
use arche.Semantic.Columns.{set_at, set_at-store}
use arche.Semantic.Facts.{Answers, IsSmall}

IsFull-subst : {s t : Shape} → s ≡ t → IsFull t → IsFull s
IsFull-subst p w = subst IsFull (sym p) w

pub store-updated {ℓ} :
    {A : Type ℓ} (none_yet a : A) (id n : ℕ) (column : List A) (f : ℕ → A) (j : ℕ)
    → id < n
    → length column ≡ n
    → place none_yet column ≡ f
    → place none_yet (store id a column) j ≡ updated id a f j
store-updated none_yet a id n column f j h e p =
    place-store none_yet a id column j (subst (λ k. id < k) (sym e) h)
    ∙ ap (λ g. updated id a g j) p

pub set_at-room {ℓ} :
    {A : Type ℓ} (id : ℕ) (a : A) (n : ℕ) (column : List A)
    → id < n
    → length column ≡ n
    → set_at id a column ≡ some (store id a column)
set_at-room id a n column h e = set_at-store id a column (subst (λ k. id < k) (sym e) h)

-- A call runs, keeps the invariant and has the effect on the tables that it has on the map.
record Called (m : SemModel) (c : FactCall) : Type 0 where
  after : SemModel
  runs : call m c ≡ some after
  full : IsModel after
  learned : places after ≡ learn (places m) c

expr_type_id-Called :
    (m : SemModel) (id : ℕ) (v : ℕ) → id < 2 ^ 30 → IsModel m → Called m (set_expr_type_id id v)
unfolding call learn
expr_type_id-Called m id v s w =
    let e = ensure-Ensured m id s w in
    let g = e.grown in
    record {
      after = record g { expr_type_id = store id v g.expr_type_id };
      runs =
          rw (e.runs, set_at-room id v g.cap g.expr_type_id e.enough e.full.expr_type_id_full) refl;
      full =
          IsFull-subst
            (λ i. record (shape g) { expr_type_id_length = length-store id v g.expr_type_id i })
            e.full;
      learned = λ i. record (e.same i) {
        expr_type_id_of = λ j.
            store-updated 0 v id g.cap g.expr_type_id (place 0 m.expr_type_id) j e.enough
              e.full.expr_type_id_full (ap (λ f. f.expr_type_id_of) e.same) i;
      };
    }

bind_alias-Called : (m : SemModel) (id : ℕ) → id < 2 ^ 30 → IsModel m → Called m (set_bind_alias id)
unfolding call learn
bind_alias-Called m id s w =
    let e = ensure-Ensured m id s w in
    let g = e.grown in
    record {
      after = record g { bind_alias = store id true g.bind_alias };
      runs =
          rw (e.runs, set_at-room id true g.cap g.bind_alias e.enough e.full.bind_alias_full) refl;
      full =
          IsFull-subst
            (λ i. record (shape g) { bind_alias_length = length-store id true g.bind_alias i })
            e.full;
      learned = λ i. record (e.same i) {
        bind_alias_of = λ j.
            store-updated false true id g.cap g.bind_alias (place false m.bind_alias) j e.enough
              e.full.bind_alias_full (ap (λ f. f.bind_alias_of) e.same) i;
      };
    }

implicit_move-Called :
    (m : SemModel) (id : ℕ) → id < 2 ^ 30 → IsModel m → Called m (set_implicit_move id)
unfolding call learn
implicit_move-Called m id s w =
    let e = ensure-Ensured m id s w in
    let g = e.grown in
    record {
      after = record g { implicit_move = store id true g.implicit_move };
      runs =
          rw (e.runs, set_at-room id true g.cap g.implicit_move e.enough e.full.implicit_move_full)
            refl;
      full =
          IsFull-subst
            (λ i. record (shape g) {
              implicit_move_length = length-store id true g.implicit_move i;
            })
            e.full;
      learned = λ i. record (e.same i) {
        implicit_move_of = λ j.
            store-updated false true id g.cap g.implicit_move (place false m.implicit_move) j
              e.enough e.full.implicit_move_full (ap (λ f. f.implicit_move_of) e.same) i;
      };
    }

policy_elided-Called :
    (m : SemModel) (id : ℕ) → id < 2 ^ 30 → IsModel m → Called m (set_policy_elided id)
unfolding call learn
policy_elided-Called m id s w =
    let e = ensure-Ensured m id s w in
    let g = e.grown in
    record {
      after = record g { policy_elided = store id true g.policy_elided };
      runs =
          rw (e.runs, set_at-room id true g.cap g.policy_elided e.enough e.full.policy_elided_full)
            refl;
      full =
          IsFull-subst
            (λ i. record (shape g) {
              policy_elided_length = length-store id true g.policy_elided i;
            })
            e.full;
      learned = λ i. record (e.same i) {
        policy_elided_of = λ j.
            store-updated false true id g.cap g.policy_elided (place false m.policy_elided) j
              e.enough e.full.policy_elided_full (ap (λ f. f.policy_elided_of) e.same) i;
      };
    }

callee_name-Called :
    (m : SemModel) (id : ℕ) (v : Option Bytes)
    → id < 2 ^ 30
    → IsModel m
    → Called m (set_callee_name id v)
unfolding call learn
callee_name-Called m id v s w =
    let e = ensure-Ensured m id s w in
    let g = e.grown in
    record {
      after = record g { callee_name = store id v g.callee_name };
      runs =
          rw (e.runs, set_at-room id v g.cap g.callee_name e.enough e.full.callee_name_full) refl;
      full =
          IsFull-subst
            (λ i. record (shape g) { callee_name_length = length-store id v g.callee_name i })
            e.full;
      learned = λ i. record (e.same i) {
        callee_name_of = λ j.
            store-updated none v id g.cap g.callee_name (place none m.callee_name) j e.enough
              e.full.callee_name_full (ap (λ f. f.callee_name_of) e.same) i;
      };
    }

ref_name-Called :
    (m : SemModel) (id : ℕ) (v : Option Bytes)
    → id < 2 ^ 30
    → IsModel m
    → Called m (set_ref_name id v)
unfolding call learn
ref_name-Called m id v s w =
    let e = ensure-Ensured m id s w in
    let g = e.grown in
    record {
      after = record g { ref_name = store id v g.ref_name };
      runs = rw (e.runs, set_at-room id v g.cap g.ref_name e.enough e.full.ref_name_full) refl;
      full =
          IsFull-subst (λ i. record (shape g) { ref_name_length = length-store id v g.ref_name i })
            e.full;
      learned = λ i. record (e.same i) {
        ref_name_of = λ j.
            store-updated none v id g.cap g.ref_name (place none m.ref_name) j e.enough
              e.full.ref_name_full (ap (λ f. f.ref_name_of) e.same) i;
      };
    }

callee_def-Called :
    (m : SemModel) (id : ℕ) (v : DefId) → id < 2 ^ 30 → IsModel m → Called m (set_callee_def id v)
unfolding call learn
callee_def-Called m id v s w =
    let e = ensure-Ensured m id s w in
    let g = e.grown in
    record {
      after = record g { callee_def = store id v g.callee_def };
      runs = rw (e.runs, set_at-room id v g.cap g.callee_def e.enough e.full.callee_def_full) refl;
      full =
          IsFull-subst
            (λ i. record (shape g) { callee_def_length = length-store id v g.callee_def i }) e.full;
      learned = λ i. record (e.same i) {
        callee_def_of = λ j.
            store-updated defid_none v id g.cap g.callee_def (place defid_none m.callee_def) j
              e.enough e.full.callee_def_full (ap (λ f. f.callee_def_of) e.same) i;
      };
    }

ref_def-Called :
    (m : SemModel) (id : ℕ) (v : DefId) → id < 2 ^ 30 → IsModel m → Called m (set_ref_def id v)
unfolding call learn
ref_def-Called m id v s w =
    let e = ensure-Ensured m id s w in
    let g = e.grown in
    record {
      after = record g { ref_def = store id v g.ref_def };
      runs = rw (e.runs, set_at-room id v g.cap g.ref_def e.enough e.full.ref_def_full) refl;
      full =
          IsFull-subst (λ i. record (shape g) { ref_def_length = length-store id v g.ref_def i })
            e.full;
      learned = λ i. record (e.same i) {
        ref_def_of = λ j.
            store-updated defid_none v id g.cap g.ref_def (place defid_none m.ref_def) j e.enough
              e.full.ref_def_full (ap (λ f. f.ref_def_of) e.same) i;
      };
    }

call-Called : (m : SemModel) (c : FactCall) → IsSmall c → IsModel m → Called m c
call-Called m (set_expr_type_id id v) s w = expr_type_id-Called m id v s w
call-Called m (set_bind_alias id) s w = bind_alias-Called m id s w
call-Called m (set_implicit_move id) s w = implicit_move-Called m id s w
call-Called m (set_policy_elided id) s w = policy_elided-Called m id s w
call-Called m (set_callee_name id v) s w = callee_name-Called m id v s w
call-Called m (set_ref_name id v) s w = ref_name-Called m id v s w
call-Called m (set_callee_def id v) s w = callee_def-Called m id v s w
call-Called m (set_ref_def id v) s w = ref_def-Called m id v s w

-- The calls run, keep the invariant, and have the effect of all.
record Completed (m : SemModel) (cs : List FactCall) : Type 0 where
  after : SemModel
  runs : call_all m cs ≡ some after
  full : IsModel after
  learned : places after ≡ learn_all (places m) cs

calls-Completed : (m : SemModel) (cs : List FactCall) → All IsSmall cs → IsModel m → Completed m cs
unfolding call_all learn_all
calls-Completed m [] s w = record { after = m; runs = refl; full = w; learned = refl }
calls-Completed m (c ∷ cs) (s, ss) w =
    let x = call-Called m c s w in
    let y = calls-Completed x.after cs ss x.full in
    record {
      after = y.after;
      runs = rw x.runs y.runs;
      full = y.full;
      learned = y.learned ∙ ap (λ f. learn_all f cs) x.learned;
    }

new-IsModel : IsModel sem_model_new
new-IsModel = record {
  expr_type_id_full = refl;
  bind_alias_full = refl;
  implicit_move_full = refl;
  policy_elided_full = refl;
  callee_name_full = refl;
  ref_name_full = refl;
  callee_def_full = refl;
  ref_def_full = refl;
}

-- Whatever setters are called on a new model, on nodes with ids below 2 ^ 30, every call is defined,
-- and the getters answer for every node (an id below 2 ^ 31) what the last call for that node and that kind of fact has
-- set, and the default where none has.
pub call_all-learn_all :
    (cs : List FactCall)
    → All IsSmall cs
    → (m : SemModel) × (call_all sem_model_new cs ≡ some m) × Answers m (learn_all no_facts cs)
unfolding place
call_all-learn_all cs s =
    let x = calls-Completed sem_model_new cs s new-IsModel in
    (x.after, x.runs, subst (Answers x.after) x.learned (Answers-places x.after x.full))
