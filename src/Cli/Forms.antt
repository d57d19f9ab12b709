-- ===== src/Cli/Forms.antt =====
-- `forms_contain` of cli/args.c against the list of spellings that the text stands for.
use arche.Base.{append-nil}
use arche.Base.{ℕ, zero, suc, ◌≤◌, ◌<◌, Bool, true, false, List, [], ◌∷◌, ◌++◌}
use arche.Base.{length}
use arche.Base.{◌≡◌, refl, ap, sym, ◌∙◌, arith, All, Bytes, text_eq, ◌==◌, if◌then◌else◌}
use arche.Base.{length-append}
use arche.Cli.Spec.{skip_spaces, word_of, after_word, forms_loop, forms_contain}

abbrev pub joined : List Bytes → Bytes
joined [] = []
joined (w ∷ []) = w
joined (w ∷ v ∷ ws) = w ++ (b' ' ∷ joined (v ∷ ws))

-- A spelling has a byte, and no space.
abbrev pub IsSpelling : Bytes → Type 0
IsSpelling w = (0 < length w) × All (λ c. (c == b' ') ≡ false) w

abbrev pub one_of : List Bytes → Bytes → Bool
one_of [] tok = false
one_of (w ∷ ws) tok = if text_eq w tok then true else one_of ws tok

skip_spaces-word : (w rest : Bytes) → IsSpelling w → skip_spaces (w ++ rest) ≡ w ++ rest
unfolding skip_spaces
skip_spaces-word [] rest (h, k) = absurd (omega arith)
skip_spaces-word (c ∷ w) rest (h, (k, ks)) = rw k refl

word_of-word :
    (w rest : Bytes) → All (λ c. (c == b' ') ≡ false) w → word_of (w ++ rest) ≡ w ++ word_of rest
unfolding word_of
word_of-word [] rest h = refl
word_of-word (c ∷ w) rest (h, hs) = rw (h, word_of-word w rest hs)

after_word-word :
    (w rest : Bytes) → All (λ c. (c == b' ') ≡ false) w → after_word (w ++ rest) ≡ after_word rest
unfolding after_word
after_word-word [] rest h = refl
after_word-word (c ∷ w) rest (h, hs) = rw (h, after_word-word w rest hs)

length-skip_spaces : (p : Bytes) → length (skip_spaces p) ≤ length p
unfolding skip_spaces
length-skip_spaces [] = omega arith
length-skip_spaces (c ∷ cs) = ground (arith, length-skip_spaces cs)

-- What follows the first spelling.
behind : List Bytes → Bytes
behind [] = []
behind (v ∷ ws) = b' ' ∷ joined (v ∷ ws)

joined-behind : (w : Bytes) (ws : List Bytes) → joined (w ∷ ws) ≡ w ++ behind ws
unfolding behind
joined-behind w [] = sym (append-nil w)
joined-behind w (v ∷ ws) = refl

word_of-behind : (ws : List Bytes) → word_of (behind ws) ≡ []
unfolding behind word_of
word_of-behind [] = refl
word_of-behind (v ∷ ws) = refl

after_word-behind : (ws : List Bytes) → after_word (behind ws) ≡ behind ws
unfolding behind after_word
after_word-behind [] = refl
after_word-behind (v ∷ ws) = refl

forms_round :
    (fuel c : ℕ) (cs tok : Bytes)
    → forms_loop (suc fuel) (c ∷ cs) tok ≡ (
        if text_eq (word_of (skip_spaces (c ∷ cs))) tok
        then true
        else forms_loop fuel (after_word (skip_spaces (c ∷ cs))) tok)
unfolding forms_loop
forms_round fuel c cs tok = refl

forms_loop-end : (fuel : ℕ) (tok : Bytes) → forms_loop fuel [] tok ≡ false
unfolding forms_loop
forms_loop-end zero tok = refl
forms_loop-end (suc fuel) tok = refl

round-joined :
    (w : Bytes) (ws : List Bytes) (fuel c : ℕ) (cs tok : Bytes)
    → IsSpelling w
    → skip_spaces (c ∷ cs) ≡ joined (w ∷ ws)
    → forms_loop (suc fuel) (c ∷ cs) tok
      ≡ (if text_eq w tok then true else forms_loop fuel (behind ws) tok)
round-joined w ws fuel c cs tok (_, h) e =
    let start : skip_spaces (c ∷ cs) ≡ w ++ behind ws = e ∙ joined-behind w ws in
    let word : word_of (w ++ behind ws) ≡ w =
      word_of-word w (behind ws) h ∙ ap (λ r. w ++ r) (word_of-behind ws) ∙ append-nil w in
    let past : after_word (w ++ behind ws) ≡ behind ws =
      after_word-word w (behind ws) h ∙ after_word-behind ws in
    forms_round fuel c cs tok ∙ rw (start, word, past) refl

shorter :
    (w : Bytes) (ws : List Bytes) (p : Bytes)
    → IsSpelling w
    → skip_spaces p ≡ joined (w ∷ ws)
    → length (behind ws) < length p
shorter w ws p (h, _) e =
    let start : length (skip_spaces p) ≡ length (w ++ behind ws) =
      ap length (e ∙ joined-behind w ws) in
    omega (arith, length-append w (behind ws), length-skip_spaces p, start)

skip_spaces-joined :
    (w : Bytes) (ws : List Bytes) → IsSpelling w → skip_spaces (joined (w ∷ ws)) ≡ joined (w ∷ ws)
skip_spaces-joined w ws h = rw (joined-behind w ws) (skip_spaces-word w (behind ws) h)

skip_spaces-behind :
    (v : Bytes) (ws : List Bytes)
    → IsSpelling v
    → skip_spaces (b' ' ∷ joined (v ∷ ws)) ≡ joined (v ∷ ws)
unfolding skip_spaces
skip_spaces-behind v ws h = skip_spaces-joined v ws h

-- The loop at a text that begins, behind its spaces, with the spellings `w ∷ ws`.
forms_loop-joined :
    (ws : List Bytes) (w : Bytes) (fuel c : ℕ) (cs tok : Bytes)
    → IsSpelling w
    → All IsSpelling ws
    → skip_spaces (c ∷ cs) ≡ joined (w ∷ ws)
    → length (c ∷ cs) ≤ fuel
    → forms_loop fuel (c ∷ cs) tok ≡ one_of (w ∷ ws) tok
unfolding behind
forms_loop-joined ws w zero c cs tok h hs e k = absurd (omega arith)
forms_loop-joined [] w (suc fuel) c cs tok h hs e k =
    round-joined w [] fuel c cs tok h e ∙ rw (forms_loop-end fuel tok) refl
forms_loop-joined (v ∷ ws) w (suc fuel) c cs tok h (hv, hs) e k =
    let more =
      forms_loop-joined ws v fuel b' ' (joined (v ∷ ws)) tok hv hs (skip_spaces-behind v ws hv)
        (omega (arith, shorter w (v ∷ ws) (c ∷ cs) h e)) in
    round-joined w (v ∷ ws) fuel c cs tok h e ∙ rw more refl

some_text :
    (w : Bytes) (ws : List Bytes)
    → IsSpelling w
    → (c : ℕ) × (cs : Bytes) × (joined (w ∷ ws) ≡ c ∷ cs)
some_text [] ws (h, _) = absurd (omega arith)
some_text (c ∷ w) ws h = (c, w ++ behind ws, joined-behind (c ∷ w) ws)

-- Spellings joined by spaces contain a token exactly if it is one of them.
pub forms_contain-joined :
    (words : List Bytes) (tok : Bytes)
    → All IsSpelling words
    → forms_contain (joined words) tok ≡ one_of words tok
unfolding forms_contain
forms_contain-joined [] tok h = forms_loop-end 0 tok
forms_contain-joined (w ∷ ws) tok (h, hs) =
    let (c, cs, e) = some_text w ws h in
    let skipped : skip_spaces (c ∷ cs) ≡ joined (w ∷ ws) =
      ap skip_spaces (sym e) ∙ skip_spaces-joined w ws h in
    let found = forms_loop-joined ws w (length (c ∷ cs)) c cs tok h hs skipped (omega arith) in
    ap (λ p. forms_loop (length p) p tok) e ∙ found
