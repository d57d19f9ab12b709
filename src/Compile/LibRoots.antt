-- ===== src/Compile/LibRoots.antt =====
-- compile/variant_select.c `arche_lib_roots`: the directories that modules are searched in. ARCHE_PATH
-- and the manifest, its path and its bytes, are arguments; a file that cannot be opened has no bytes.
use arche.Base.{ℕ, zero, suc, Bool, true, false, not, List, [], ◌∷◌, ◌++◌, length}
use arche.Base.{drop}
use arche.Base.{Option, none, some, leb, ◌==◌, if◌then◌else◌, Bytes, codes, text_eq}
use arche.Compile.Text.{is_blank, skip_while, text_while, trim_end, split_at, fit, fgets}
use arche.Compile.Manifest.{is_skipped, section_of}

abbrev pub arche_lib_max_roots : ℕ
arche_lib_max_roots = 16

abbrev pub LibRoots : Type 0
LibRoots = List Bytes

unfoldable pub has_root : LibRoots → Bytes → Bool
has_root [] dir = false
has_root (r ∷ roots) dir = if text_eq r dir then true else has_root roots dir

unfoldable pub lib_roots_add : LibRoots → Bytes → LibRoots
unfolding has_root
lib_roots_add out [] = out
lib_roots_add out (c ∷ cs) =
    if leb arche_lib_max_roots (length out)
    then out
    else if has_root out (c ∷ cs)
    then out
    else out ++ (fit 1024 (c ∷ cs) ∷ [])

-- An entry up to its quote, of so many bytes at most, and the text from where the scan stopped.
unfoldable pub read_entry : ℕ → Bytes → Bytes × Bytes
read_entry zero q = ([], q)
read_entry (suc room) [] = ([], [])
read_entry (suc room) (c ∷ cs) =
    let more = read_entry room cs in if c == b'"' then ([], c ∷ cs) else (c ∷ more.0, more.1)

-- A relative entry is taken from the directory of the manifest.
unfoldable pub add_entry : LibRoots → Bytes → Bytes → LibRoots
unfolding lib_roots_add
add_entry out dir [] = out
add_entry out dir (c ∷ cs) =
    if c == b'/'
    then lib_roots_add out (c ∷ cs)
    else lib_roots_add out (fit 2304 (dir ++ (b'/' ∷ c ∷ cs)))

-- The body of the array on one line; whether it goes on with the next line. Each round takes a byte.
unfoldable pub array_loop : ℕ → LibRoots → Bytes → Bytes → LibRoots × Bool
unfolding add_entry read_entry
array_loop zero out dir q = (out, true)
array_loop (suc fuel) out dir [] = (out, true)
array_loop (suc fuel) out dir (c ∷ cs) =
    let (entry, left) = read_entry 1023 cs in
    let passed = array_loop fuel out dir cs in
    let added = array_loop fuel (add_entry out dir entry) dir (drop 1 left) in
    if c == b']'
    then (out, false)
    else if not (c == b'"')
    then passed
    else elim left [ [] ↦ (out, true) | d ∷ ds ↦ added ]

-- The key before a `=` is `paths`: the text behind it.
unfoldable pub paths_value : Bytes → Bytes → Option Bytes
unfolding split_at
paths_value section p =
    if text_eq section (codes "lib")
    then elim (split_at b'=' p) [
      | none ↦ none
      | some halves ↦
          if text_eq (fit 64 (trim_end halves.0)) (codes "paths") then some halves.1 else none
    ]
    else none

-- A line outside the array, from its first byte that is no blank: the section behind it, and the
-- text of the array that it begins.
unfoldable pub outer_line : Bytes → Bytes → Bytes × Option Bytes
unfolding section_of paths_value
outer_line section [] = (section, none)
outer_line section (c ∷ cs) =
    if is_skipped c
    then (section, none)
    else if c == b'['
    then (section_of section cs, none)
    else (section, paths_value section (c ∷ cs))

-- The array text of a line, whether it begins there or goes on.
unfoldable pub array_text : Bool → Bytes → Bytes → Bytes × Option Bytes
unfolding outer_line
array_text true section p = (section, some p)
array_text false section p = outer_line section p

unfoldable pub roots_lines : ℕ → LibRoots → Bytes → Bytes → Bool → Bytes → LibRoots
unfolding array_loop array_text fgets skip_while
roots_lines zero out dir section in_array file = out
roots_lines (suc fuel) out dir section in_array [] = out
roots_lines (suc fuel) out dir section in_array (c ∷ cs) =
    let (line, left) = fgets 1024 (c ∷ cs) in
    let (section', text) = array_text in_array section (skip_while is_blank line) in
    elim text [
      | none ↦ roots_lines fuel out dir section' false left
      | some p ↦
          let (out', goes_on) = array_loop (length p) out dir p in
          roots_lines fuel out' dir section' goes_on left
    ]

unfoldable pub lib_roots_from_manifest : LibRoots → Bytes → Bytes → LibRoots
unfolding roots_lines
lib_roots_from_manifest out dir file = roots_lines (length file) out dir [] false file

abbrev pub no_colon : ℕ → Bool
no_colon c = not (c == b':')

abbrev pub is_colon : ℕ → Bool
is_colon c = c == b':'

-- `strtok_r` on colons: each round takes a byte.
unfoldable pub path_loop : ℕ → LibRoots → Bytes → LibRoots
unfolding lib_roots_add skip_while text_while
path_loop zero out p = out
path_loop (suc fuel) out p = elim (skip_while is_colon p) [
  | [] ↦ out
  | c ∷ cs ↦
      path_loop fuel (lib_roots_add out (text_while no_colon (c ∷ cs)))
        (skip_while no_colon (c ∷ cs))
]

unfoldable pub roots_of_env : Option Bytes → LibRoots
unfolding path_loop
roots_of_env none = []
roots_of_env (some env) = path_loop (length (fit 4096 env)) [] (fit 4096 env)

-- `strrchr`: the text before the last slash, or all of it where there is none.
unfoldable pub before_slash : Bytes → Option Bytes
before_slash [] = none
before_slash (c ∷ cs) = elim (before_slash cs) [
  | some more ↦ some (c ∷ more)
  | none ↦ (if c == b'/' then some [] else none)
]

unfoldable pub manifest_dir : Bytes → Bytes
unfolding before_slash
manifest_dir path = elim (before_slash (fit 1024 path)) [
  | some (c ∷ cs) ↦ c ∷ cs
  | some [] ↦ codes "/"
  | none ↦ elim (fit 1024 path) [ [] ↦ codes "/" | c ∷ cs ↦ c ∷ cs ]
]

-- The path of the nearest manifest and its bytes, or none.
unfoldable pub arche_lib_roots : Option Bytes → Option (Bytes × Bytes) → LibRoots
unfolding roots_of_env lib_roots_from_manifest lib_roots_add manifest_dir
arche_lib_roots env none = roots_of_env env
arche_lib_roots env (some (path, file)) =
    let dir = manifest_dir path in
    lib_roots_add (lib_roots_from_manifest (roots_of_env env) dir file) dir
