-- ===== src/Compile/Roots.antt =====
-- compile/variant_select.c `arche_lib_roots`: how the list of roots grows.
use arche.Base.{ℕ, zero, suc, ◌≤◌, ◌<◌, Bool, true, false, not, [], ◌∷◌, ◌++◌, All}
use arche.Base.{All-append, append-nil, append_assoc, length, length-append, length-take}
use arche.Base.{drop}
use arche.Base.{◌≡◌, refl, sym, ap, ◌∙◌, arith, Option, none, some, leb, ◌==◌}
use arche.Base.{if_holds, Bool-cases, inl, inr, Bytes}
use arche.Compile.Text.{is_blank, skip_while, text_while, fgets, fit}
use arche.Compile.LibRoots.{LibRoots, lib_roots_add, add_entry, array_loop, array_text}
use arche.Compile.LibRoots.{roots_lines, lib_roots_from_manifest, has_root, read_entry}
use arche.Compile.LibRoots.{path_loop, roots_of_env, arche_lib_roots, manifest_dir}
use arche.Compile.LibRoots.{arche_lib_max_roots, is_colon, no_colon}

-- The sizes of `dirs` in variant_select.h; no root is empty.
abbrev pub IsRoots : LibRoots → Type 0
IsRoots out = (length out ≤ arche_lib_max_roots) × All (λ r. (0 < length r) × (length r < 1024)) out

-- The second is the first with roots behind it, and fits if the first does.
pub record Grown (out out' : LibRoots) : Type 0 where
  pub more : LibRoots
  pub behind : out' ≡ out ++ more
  pub fits : IsRoots out → IsRoots out'

Grown-refl : (out : LibRoots) → Grown out out
Grown-refl out = record { more = []; behind = sym (append-nil out); fits = λ h. h }

Grown-trans : {a b c : LibRoots} → Grown a b → Grown b c → Grown a c
Grown-trans {a} g h = record {
  more = g.more ++ h.more;
  behind = h.behind ∙ ap (λ k. k ++ h.more) g.behind ∙ append_assoc a g.more h.more;
  fits = λ r. h.fits (g.fits r);
}

one_more-Grown :
    (out : LibRoots) (c : ℕ) (cs : Bytes)
    → leb arche_lib_max_roots (length out) ≡ false
    → Grown out (out ++ (fit 1024 (c ∷ cs) ∷ []))
one_more-Grown out c cs room = record {
  more = fit 1024 (c ∷ cs) ∷ [];
  behind = refl;
  fits = λ (n, h). (
    ground (arith, length-append out (fit 1024 (c ∷ cs) ∷ [])),
    All-append (λ r. (0 < length r) × (length r < 1024)) out (fit 1024 (c ∷ cs) ∷ []) h
        ((omega arith, omega (arith, length-take 1022 cs)), tt),
  );
}

lib_roots_add-Grown : (out : LibRoots) (dir : Bytes) → Grown out (lib_roots_add out dir)
unfolding lib_roots_add
lib_roots_add-Grown out [] = Grown-refl out
lib_roots_add-Grown out (c ∷ cs) = elim (Bool-cases (leb arche_lib_max_roots (length out))) [
  | inl full ↦ rw full (Grown-refl out)
  | inr room ↦
      rw room (
        if_holds (Grown out) (has_root out (c ∷ cs)) (Grown-refl out)
          (one_more-Grown out c cs room))
]

add_entry-Grown : (out : LibRoots) (dir entry : Bytes) → Grown out (add_entry out dir entry)
unfolding add_entry
add_entry-Grown out dir [] = Grown-refl out
add_entry-Grown out dir (c ∷ cs) =
    if_holds (Grown out) (c == b'/') (lib_roots_add-Grown out (c ∷ cs))
      (lib_roots_add-Grown out (fit 2304 (dir ++ (b'/' ∷ c ∷ cs))))

array_loop-Grown :
    (fuel : ℕ) (out : LibRoots) (dir q : Bytes) → Grown out (array_loop fuel out dir q).0
unfolding array_loop
array_loop-Grown zero out dir q = Grown-refl out
array_loop-Grown (suc fuel) out dir [] = Grown-refl out
array_loop-Grown (suc fuel) out dir (c ∷ cs) =
    let read = read_entry 1023 cs in
    let next = add_entry out dir read.0 in
    let added =
      Grown-trans (add_entry-Grown out dir read.0)
        (array_loop-Grown fuel next dir (drop 1 read.1)) in
    if_holds {A = LibRoots × Bool} (λ r. Grown out r.0) (c == b']') {x = (out, false)}
      (Grown-refl out)
      (if_holds {A = LibRoots × Bool} (λ r. Grown out r.0) (not (c == b'"'))
        {x = array_loop fuel out dir cs} (array_loop-Grown fuel out dir cs)
        (quoted read.1 (array_loop fuel next dir (drop 1 read.1)) added))
  where
    quoted :
        (left : Bytes) (r : LibRoots × Bool)
        → Grown out r.0
        → Grown out (elim left as (λ _. LibRoots × Bool) [ [] ↦ (out, true) | d ∷ ds ↦ r ]).0
    quoted [] r g = Grown-refl out
    quoted (d ∷ ds) r g = g

path_loop-Grown : (fuel : ℕ) (out : LibRoots) (p : Bytes) → Grown out (path_loop fuel out p)
unfolding path_loop
path_loop-Grown zero out p = Grown-refl out
path_loop-Grown (suc fuel) out p =
    from_start (skip_while is_colon p) (λ k q. path_loop-Grown fuel k q)
  where
    from_start :
        (q : Bytes)
        → ((k : LibRoots) (q : Bytes) → Grown k (path_loop fuel k q))
        → Grown out (elim q as (λ _. LibRoots) [
          | [] ↦ out
          | c ∷ cs ↦
              path_loop fuel
                (lib_roots_add out (text_while no_colon (c ∷ cs)))
                (skip_while no_colon (c ∷ cs))
        ])
    from_start [] more = Grown-refl out
    from_start (c ∷ cs) more = Grown-trans (lib_roots_add-Grown out _) (more _ _)

roots_of_env-IsRoots : (env : Option Bytes) → IsRoots (roots_of_env env)
unfolding roots_of_env
roots_of_env-IsRoots none = (omega arith, tt)
roots_of_env-IsRoots (some env) =
    (path_loop-Grown (length (fit 4096 env)) [] (fit 4096 env)).fits (omega arith, tt)

roots_lines-Grown :
    (fuel : ℕ) (out : LibRoots) (dir section : Bytes) (in_array : Bool) (file : Bytes)
    → Grown out (roots_lines fuel out dir section in_array file)
unfolding roots_lines
roots_lines-Grown zero out dir section in_array file = Grown-refl out
roots_lines-Grown (suc fuel) out dir section in_array [] = Grown-refl out
roots_lines-Grown (suc fuel) out dir section in_array (c ∷ cs) =
    let read = fgets 1024 (c ∷ cs) in
    let text = array_text in_array section (skip_while is_blank read.0) in
    on_text read.1 text.0 text.1 (λ k s b f. roots_lines-Grown fuel k dir s b f)
  where
    on_text :
        (left section' : Bytes) (text : Option Bytes)
        → ((k : LibRoots) (s : Bytes) (b : Bool) (f : Bytes)
            → Grown k (roots_lines fuel k dir s b f))
        → Grown out (elim text as (λ _. LibRoots) [
          | none ↦ roots_lines fuel out dir section' false left
          | some p ↦
              roots_lines fuel
                (array_loop (length p) out dir p).0
                dir
                section'
                (array_loop (length p) out dir p).1
                left
        ])
    on_text left section' none more = more out section' false left
    on_text left section' (some p) more =
        Grown-trans (array_loop-Grown (length p) out dir p) (more _ _ _ _)

-- The roots of ARCHE_PATH come first, in their order, whatever the manifest holds; and there are no
-- more roots than the array takes, none empty and none longer than its place.
pub arche_lib_roots-Grown :
    (env : Option Bytes) (manifest : Option (Bytes × Bytes))
    → Grown (roots_of_env env) (arche_lib_roots env manifest)
      × IsRoots (arche_lib_roots env manifest)
unfolding arche_lib_roots lib_roots_from_manifest
arche_lib_roots-Grown env none = (Grown-refl (roots_of_env env), roots_of_env-IsRoots env)
arche_lib_roots-Grown env (some (path, file)) =
    let dir = manifest_dir path in
    let read = roots_lines-Grown (length file) (roots_of_env env) dir [] false file in
    let all =
      Grown-trans read
        (lib_roots_add-Grown (lib_roots_from_manifest (roots_of_env env) dir file) dir) in
    (all, all.fits (roots_of_env-IsRoots env))
