-- ===== src/Cli/Spec.antt =====
-- cli/args.h `ArgSpec`, and cli/args.c `forms_contain` and `first_form`: the spellings of a flag. A
-- list of spellings is one text, with spaces between them.
use arche.Base.{ℕ, zero, suc, Bool, true, false, [], ◌∷◌, length, take, ◌==◌, ◌-◌}
use arche.Base.{if◌then◌else◌, Bytes, text_eq}

pub data ArgKind : Type 0 where
  arg_flag arg_value : ArgKind

-- The fields that only the help prints are left out.
pub record ArgSpec : Type 0 where
  pub id : ℕ
  pub forms : Bytes
  pub kind : ArgKind

unfoldable pub skip_spaces : Bytes → Bytes
skip_spaces [] = []
skip_spaces (c ∷ cs) = let past = skip_spaces cs in if c == b' ' then past else c ∷ cs

-- The bytes up to the next space, and those from there on.
unfoldable pub word_of : Bytes → Bytes
word_of [] = []
word_of (c ∷ cs) = let more = word_of cs in if c == b' ' then [] else c ∷ more

unfoldable pub after_word : Bytes → Bytes
after_word [] = []
after_word (c ∷ cs) = let past = after_word cs in if c == b' ' then c ∷ cs else past

-- The outer loop of `forms_contain`; `tok` is the text of `toklen` bytes.
unfoldable pub forms_loop : ℕ → Bytes → Bytes → Bool
unfolding skip_spaces word_of after_word
forms_loop zero p tok = false
forms_loop (suc fuel) [] tok = false
forms_loop (suc fuel) (c ∷ cs) tok =
    let start = skip_spaces (c ∷ cs) in
    let more = forms_loop fuel (after_word start) tok in
    if text_eq (word_of start) tok then true else more

-- Each round takes a byte.
unfoldable pub forms_contain : Bytes → Bytes → Bool
unfolding forms_loop
forms_contain forms tok = forms_loop (length forms) forms tok

-- The first spelling, cut to the buffer.
unfoldable pub first_form : ArgSpec → ℕ → Bytes
unfolding skip_spaces word_of
first_form s cap = take (cap - 1) (word_of (skip_spaces s.forms))
