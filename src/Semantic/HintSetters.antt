-- ===== src/Semantic/HintSetters.antt =====
-- Calls of the setters of semantic/sem_hints.c, as updates of a map from ids to hints.
use arche.Base.{ℕ, ◌<◌, ◌≤◌, ◌≡◌, ◌^◌, refl, ap, subst, ◌∙◌, arith, Bool, true, false}
use arche.Base.{List, [], ◌∷◌, All, length, Option, none, some, Bytes, inl, inr, Bool-cases}
use arche.Semantic.Columns.{is_below, grown_cap-Grown, place, store, length-store}
use arche.Semantic.Columns.{length-fill, place-fill, entry-place}
use arche.Semantic.Setters.{store-updated, set_at-room}
use arche.Semantic.Hints.{SemHints, sem_hints_new, ensure_hints, extended_hints}
use arche.Semantic.Hints.{sem_hints_param_name}
use arche.Semantic.Hints.{sem_hints_param_is_own}
use arche.Semantic.Hints.{sem_hints_is_elided_move}
use arche.Semantic.HintFacts.{NodeHints, no_hints, HintCall, set_param, set_elided_move}
use arche.Semantic.HintFacts.{hint_call}
use arche.Semantic.HintFacts.{learn_hint, hint_calls, learn_hints, HasSmallId, Hinted}

-- Every table is as long as the capacity.
record IsWhole (names owns moves n : ℕ) : Type 0 where
  names_full : names ≡ n
  owns_full : owns ≡ n
  moves_full : moves ≡ n

abbrev IsHints : SemHints → Type 0
IsHints h = IsWhole (length h.param_name) (length h.param_is_own) (length h.elided_move) h.cap

-- The tables as maps, read without a look at the capacity.
abbrev hint_places : SemHints → NodeHints
hint_places h = record {
  param_name_of = place none h.param_name;
  param_is_own_of = place false h.param_is_own;
  elided_move_of = place false h.elided_move;
}

Hinted-hint_places : (h : SemHints) → IsHints h → Hinted h (hint_places h)
unfolding sem_hints_param_name sem_hints_param_is_own sem_hints_is_elided_move
Hinted-hint_places h w = record {
  param_name_is = λ j l. entry-place h.cap none h.param_name j w.names_full l;
  param_is_own_is = λ j l. entry-place h.cap false h.param_is_own j w.owns_full l;
  elided_move_is = λ j l. entry-place h.cap false h.elided_move j w.moves_full l;
}

-- What `ensure` gives: room for the id, and the same hints.
record Roomy (h : SemHints) (id : ℕ) : Type 0 where
  grown : SemHints
  runs : ensure_hints h id ≡ some grown
  full : IsHints grown
  enough : id < grown.cap
  same : hint_places grown ≡ hint_places h

extended-Roomy :
    (newcap : ℕ) (h : SemHints)
    → IsHints h
    → h.cap ≤ newcap
    → IsHints (extended_hints newcap h) × (hint_places (extended_hints newcap h) ≡ hint_places h)
unfolding extended_hints
extended-Roomy newcap h w l = (
  record {
    names_full = length-fill h.cap newcap none h.param_name w.names_full l;
    owns_full = length-fill h.cap newcap false h.param_is_own w.owns_full l;
    moves_full = length-fill h.cap newcap false h.elided_move w.moves_full l;
  },
  λ i. record {
    param_name_of = λ j. place-fill h.cap newcap none h.param_name j i;
    param_is_own_of = λ j. place-fill h.cap newcap false h.param_is_own j i;
    elided_move_of = λ j. place-fill h.cap newcap false h.elided_move j i;
  },
)

ensure_hints-Roomy : (h : SemHints) (id : ℕ) → id < 2 ^ 30 → IsHints h → Roomy h id
unfolding ensure_hints
ensure_hints-Roomy h id s w = elim (Bool-cases (is_below id h.cap)) [
  | inl t ↦ record {
    grown = h;
    runs = rw t refl;
    full = w;
    enough = ground (arith, t, s);
    same = refl;
  }
  | inr f ↦
      let x = grown_cap-Grown h.cap id (ground (arith, f)) s in
      let (full, same) = extended-Roomy x.newcap h w x.more in
      record {
        grown = extended_hints x.newcap h;
        runs = rw (f, x.newcap_is) refl;
        full = full;
        enough = unfold extended_hints in x.room;
        same = same;
      }
]

-- A call runs, keeps the invariant and has the effect on the tables that it has on the map.
record HintDone (h : SemHints) (c : HintCall) : Type 0 where
  after : SemHints
  runs : hint_call h c ≡ some after
  full : IsHints after
  learned : hint_places after ≡ learn_hint (hint_places h) c

set_param-HintDone :
    (h : SemHints) (id : ℕ) (name : Option Bytes) (is_own : Bool)
    → id < 2 ^ 30
    → IsHints h
    → HintDone h (set_param id name is_own)
unfolding hint_call learn_hint
set_param-HintDone h id none is_own s w = record {
  after = h;
  runs = refl;
  full = w;
  learned = refl;
}
set_param-HintDone h id (some name) is_own s w =
    let e = ensure_hints-Roomy h id s w in
    let g = e.grown in
    record {
      after = record g {
        param_name = store id (some name) g.param_name;
        param_is_own = store id is_own g.param_is_own;
      };
      runs =
          rw
            (
              e.runs,
              set_at-room id (some name) g.cap g.param_name e.enough e.full.names_full,
              set_at-room id is_own g.cap g.param_is_own e.enough e.full.owns_full,
            )
            refl;
      full = record {
        names_full = length-store id (some name) g.param_name ∙ e.full.names_full;
        owns_full = length-store id is_own g.param_is_own ∙ e.full.owns_full;
        moves_full = e.full.moves_full;
      };
      learned = λ i. record (e.same i) {
        param_name_of = λ j.
            store-updated none (some name) id g.cap g.param_name (place none h.param_name) j
              e.enough e.full.names_full (ap (λ f. f.param_name_of) e.same) i;
        param_is_own_of = λ j.
            store-updated false is_own id g.cap g.param_is_own (place false h.param_is_own) j
              e.enough e.full.owns_full (ap (λ f. f.param_is_own_of) e.same) i;
      };
    }

set_elided_move-HintDone :
    (h : SemHints) (id : ℕ) → id < 2 ^ 30 → IsHints h → HintDone h (set_elided_move id)
unfolding hint_call learn_hint
set_elided_move-HintDone h id s w =
    let e = ensure_hints-Roomy h id s w in
    let g = e.grown in
    record {
      after = record g { elided_move = store id true g.elided_move };
      runs = rw (e.runs, set_at-room id true g.cap g.elided_move e.enough e.full.moves_full) refl;
      full = record {
        names_full = e.full.names_full;
        owns_full = e.full.owns_full;
        moves_full = length-store id true g.elided_move ∙ e.full.moves_full;
      };
      learned = λ i. record (e.same i) {
        elided_move_of = λ j.
            store-updated false true id g.cap g.elided_move (place false h.elided_move) j e.enough
              e.full.moves_full (ap (λ f. f.elided_move_of) e.same) i;
      };
    }

call-HintDone : (h : SemHints) (c : HintCall) → HasSmallId c → IsHints h → HintDone h c
call-HintDone h (set_param id name is_own) s w = set_param-HintDone h id name is_own s w
call-HintDone h (set_elided_move id) s w = set_elided_move-HintDone h id s w

-- On any tables that are as long as their capacity the calls run, and have the effect of all.
abbrev HintsDone : SemHints → List HintCall → Type 0
HintsDone h cs =
    (g : SemHints) × (hint_calls h cs ≡ some g)
    × IsHints g
    × (hint_places g ≡ learn_hints (hint_places h) cs)

calls-HintsDone :
    (h : SemHints) (cs : List HintCall) → All HasSmallId cs → IsHints h → HintsDone h cs
unfolding hint_calls learn_hints
calls-HintsDone h [] s w = (h, refl, w, refl)
calls-HintsDone h (c ∷ cs) (s, ss) w =
    let x = call-HintDone h c s w in
    let (g, runs, full, learned) = calls-HintsDone x.after cs ss x.full in
    (g, rw x.runs runs, full, learned ∙ ap (λ f. learn_hints f cs) x.learned)

-- Whatever setters are called on new hints, on nodes with ids below 2 ^ 30, every call is defined, and
-- the getters answer for every node (an id below 2 ^ 31) the parameter of the last call with a name
-- for that node, and whether a call has marked its move; a call without a name changes nothing.
pub hint_calls-learn_hints :
    (cs : List HintCall)
    → All HasSmallId cs
    → (h : SemHints) × (hint_calls sem_hints_new cs ≡ some h) × Hinted h (learn_hints no_hints cs)
unfolding place
hint_calls-learn_hints cs s =
    let new : IsHints sem_hints_new = record {
      names_full = refl;
      owns_full = refl;
      moves_full = refl;
    } in
    let (h, runs, full, learned) = calls-HintsDone sem_hints_new cs s new in
    (h, runs, subst (Hinted h) learned (Hinted-hint_places h full))
