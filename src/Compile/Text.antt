-- ===== src/Compile/Text.antt =====
-- The scanning loops that the parsers of compile/variant_select.c share.
use arche.Base.{ℕ, zero, suc, ◌-◌, Bool, ◌||◌, [], ◌∷◌}
use arche.Base.{take}
use arche.Base.{Option, none, some, ◌==◌, if◌then◌else◌, Bytes}

abbrev pub is_blank : ℕ → Bool
is_blank c = c == b' ' || c == b'\t'

-- `while (test(*p)) p++;`, for a test that a NUL fails.
unfoldable pub skip_while : (ℕ → Bool) → Bytes → Bytes
skip_while test [] = []
skip_while test (c ∷ cs) = let past = skip_while test cs in if test c then past else c ∷ cs

-- The text that such a loop steps over.
unfoldable pub text_while : (ℕ → Bool) → Bytes → Bytes
text_while test [] = []
text_while test (c ∷ cs) = let more = text_while test cs in if test c then c ∷ more else []

-- `while (end > start && blank(end[-1])) end--;`
unfoldable pub trim_end : Bytes → Bytes
trim_end [] = []
trim_end (c ∷ cs) = elim (trim_end cs) [
  | [] ↦ if is_blank c then [] else c ∷ []
  | d ∷ ds ↦ c ∷ d ∷ ds
]

-- `strchr`: the text before the first `mark`, and behind it.
unfoldable pub split_at : ℕ → Bytes → Option (Bytes × Bytes)
split_at mark [] = none
split_at mark (c ∷ cs) =
    let more = split_at mark cs in
    if c == mark
    then some ([], cs)
    else elim more [ none ↦ none | some halves ↦ some (c ∷ halves.0, halves.1) ]

-- A copy into an array of `cap` bytes, with the NUL at its end.
abbrev pub fit : ℕ → Bytes → Bytes
fit cap text = take (cap - 1) text

-- `fgets` into an array of `cap` bytes: the line with its newline, cut where the array ends, and
-- what is left of the file.
unfoldable pub fgets : ℕ → Bytes → Bytes × Bytes
fgets zero text = ([], text)
fgets (suc cap) [] = ([], [])
fgets (suc cap) (c ∷ cs) = elim cap [
  | zero ↦ ([], c ∷ cs)
  | suc more ↦ let read = fgets cap cs in if c == b'\n' then (c ∷ [], cs) else (c ∷ read.0, read.1)
]
