-- ===== src/Lexer/WordRun.antt =====
-- Text made of words, as the lexer of lexer/lexer.c reads it back: one token for each word.
use arche.Base.{ℕ, zero, suc, ◌<◌, ◌≤◌, ◌≡◌, refl, sym, ap, ap₂, subst, ◌∙◌, arith}
use arche.Base.{Bool, true, false, List, [], ◌∷◌, ◌++◌}
use arche.Base.{length, length-append, All, Option, some, Bytes}
use mathlib.Core.List.{map}
use mathlib.Core.Option
use arche.Lexer.Kind.{TokenKind, tok_eof}
use arche.Lexer.Token.{Token, make_token}
use arche.Lexer.State.{Lexer, first_or_nul, tail_of, peek, skip, lexer_init}
use arche.Lexer.Words.{is_space, skip_whitespace, is_ident_char, is_ident_start, keyword_kind}
use arche.Lexer.Words.{spanning, lex_identifier}
use arche.Lexer.Next.{lex_token, lex_from, next_or_pending, next_token, is_eof, tokenize_loop}
use arche.Lexer.Next.{tokenize}
use arche.Lexer.Moves.{Moves}
use arche.Lexer.Loops.{skip-Scanned, lexeme-Moves}
use arche.Lexer.Spans.{keyword_kind-live}
use arche.Lexer.Stream.{put_back}

abbrev pub Passes : (ℕ → Bool) → Bytes → Type 0
Passes test text = All (λ c. test c ≡ true) text

-- There is one way to split a text into the bytes that pass a test and what follows them.
split_unique :
    (test : ℕ → Bool) (a b ra rb : Bytes)
    → a ++ ra ≡ b ++ rb
    → Passes test a
    → Passes test b
    → test (first_or_nul ra) ≡ false
    → test (first_or_nul rb) ≡ false
    → (a ≡ b) × (ra ≡ rb)
split_unique test [] [] ra rb e pa pb sa sb = (refl, e)
split_unique test [] (y ∷ b) ra rb e pa pb sa sb = cc (ap first_or_nul e, pb.0)
split_unique test (x ∷ a) [] ra rb e pa pb sa sb = cc (ap first_or_nul e, pa.0)
split_unique test (x ∷ a) (y ∷ b) ra rb e pa pb sa sb =
    let (same, rest_same) = split_unique test a b ra rb (ap tail_of e) pa.1 pb.1 sa sb in
    (ap₂ ◌∷◌ (ap first_or_nul e) same, rest_same)

-- A scan over bytes that pass the test, up to one that does not, takes exactly these.
pub skip-exact :
    (test : ℕ → Bool) (l : Lexer) (text rest : Bytes)
    → test 0 ≡ false
    → l.rest ≡ text ++ rest
    → Passes test text
    → test (first_or_nul rest) ≡ false
    → Moves l text (skip test l) × ((skip test l).rest ≡ rest)
skip-exact test l text rest at_nul e p s =
    let x = skip-Scanned test l at_nul in
    let (same, rest_same) =
      split_unique test x.text text (skip test l).rest rest (sym x.moves.rest_is ∙ e) x.passes p
        x.stops s in
    (subst (λ t. Moves l t (skip test l)) same x.moves, rest_same)

-- A word that the lexer reads as one identifier or keyword.
pub record IsWord (text : Bytes) : Type 0 where
  pub starts : is_ident_start (first_or_nul text) ≡ true
  pub continues : Passes is_ident_char text

lex_from-word : (l : Lexer) → is_ident_start (peek l) ≡ true → lex_from l ≡ lex_identifier l
unfolding lex_from lex_token
lex_from-word l h = ground (arith, ap lex_identifier (put_back is_ident_start l refl refl h))

first-word : (word rest : Bytes) → IsWord word → first_or_nul (word ++ rest) ≡ first_or_nul word
first-word [] rest w = cc (w.starts)
first-word (c ∷ cs) rest w = refl

-- The lexer standing at a word takes it whole, with the kind that the keyword table gives.
lex_from_at_word :
    (l : Lexer) (word rest : Bytes)
    → IsWord word
    → l.rest ≡ word ++ rest
    → is_ident_char (first_or_nul rest) ≡ false
    → ((lex_from l).0.kind ≡ keyword_kind word)
      × Moves l word (lex_from l).1
      × ((lex_from l).1.rest ≡ rest)
lex_from_at_word l word rest w e s =
    let at_word : peek l ≡ first_or_nul word = ap first_or_nul e ∙ first-word word rest w in
    let (m, left) = skip-exact is_ident_char l word rest refl e w.continues s in
    rw (lex_from-word l (rw at_word w.starts)) (
      unfold lex_identifier spanning make_token in ap keyword_kind (lexeme-Moves m),
      unfold lex_identifier in m,
      unfold lex_identifier in left,
    )

abbrev pub words_text : List Bytes → Bytes
words_text [] = []
words_text (w ∷ ws) = w ++ (b' ' ∷ words_text ws)

first-words_text :
    (ws : List Bytes) → All IsWord ws → is_space (first_or_nul (words_text ws)) ≡ false
first-words_text [] h = refl
first-words_text (w ∷ ws) (h, hs) =
    let start = h.starts in rw (first-word w (b' ' ∷ words_text ws) h) (ground arith)

length-words_text : (ws : List Bytes) → length ws ≤ length (words_text ws)
length-words_text [] = omega arith
length-words_text (w ∷ ws) =
    omega (arith, length-append w (b' ' ∷ words_text ws), length-words_text ws)

abbrev pub kinds_of : Option (List Token) → Option (List TokenKind)
kinds_of = Option.map (map (λ (t : Token). t.kind))

lex_from_at_end : (l : Lexer) → peek l ≡ 0 → (lex_from l).0.kind ≡ tok_eof
unfolding lex_from make_token
lex_from_at_end l e = ground arith

next_token_skips : (l : Lexer) → l.pending_tokens ≡ [] → next_token l ≡ lex_from (skip is_space l)
unfolding next_token skip_whitespace next_or_pending
next_token_skips l e = ground arith

loop_step :
    (fuel : ℕ) (l : Lexer) {ks : List TokenKind}
    → is_eof (next_token l).0.kind ≡ false
    → kinds_of (tokenize_loop fuel (next_token l).1) ≡ some ks
    → kinds_of (tokenize_loop (suc fuel) l) ≡ some ((next_token l).0.kind ∷ ks)
unfolding tokenize_loop
loop_step fuel l live e = ground arith

loop_end :
    (fuel : ℕ) (l : Lexer)
    → (next_token l).0.kind ≡ tok_eof
    → kinds_of (tokenize_loop (suc fuel) l) ≡ some (tok_eof ∷ [])
unfolding tokenize_loop
loop_end fuel l e = ground arith

loop-words :
    (ws : List Bytes) (fuel : ℕ) (l : Lexer) (gap : Bytes)
    → All IsWord ws
    → l.pending_tokens ≡ []
    → Passes is_space gap
    → l.rest ≡ gap ++ words_text ws
    → length ws < fuel
    → kinds_of (tokenize_loop fuel l) ≡ some (map keyword_kind ws ++ (tok_eof ∷ []))
loop-words ws zero l gap h none_pending p e enough = elim enough [ ]
loop-words [] (suc fuel) l gap h none_pending p e enough =
    let m = skip is_space l in
    let (moves, left) = skip-exact is_space l gap [] refl e p refl in
    loop_end fuel l
      (rw (next_token_skips l none_pending) (lex_from_at_end m (ap first_or_nul left)))
loop-words (w ∷ ws) (suc fuel) l gap (h, hs) none_pending p e enough =
    let m = skip is_space l in
    let (gap_moves, left) =
      skip-exact is_space l gap (words_text (w ∷ ws)) refl e p
        (first-words_text (w ∷ ws) (h, hs)) in
    let (kind_is, moves, behind) = lex_from_at_word m w (b' ' ∷ words_text ws) h left refl in
    let next_is = next_token_skips l none_pending in
    rw (← kind_is, ← next_is)
      (loop_step fuel l (rw (next_is, kind_is) (keyword_kind-live w)) (
        loop-words ws fuel (next_token l).1 (b' ' ∷ []) hs
          (rw next_is (moves.pending_is ∙ gap_moves.pending_is ∙ none_pending)) (refl, tt)
          (rw next_is behind) (omega arith)))

-- Words written one behind the other, each with a space after it, are lexed one token a word, each
-- with the kind of the keyword that it spells or else as an identifier, and then the end mark.
pub tokenize-words_text :
    (ws : List Bytes)
    → All IsWord ws
    → kinds_of (tokenize (words_text ws)) ≡ some (map keyword_kind ws ++ (tok_eof ∷ []))
unfolding tokenize lexer_init
tokenize-words_text ws h =
    loop-words ws (suc (length (words_text ws))) (lexer_init (words_text ws)) [] h refl tt refl
      (omega (arith, length-words_text ws))
