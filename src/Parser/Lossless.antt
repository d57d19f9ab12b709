-- ===== src/Parser/Lossless.antt =====
-- `parse_source` of parser/parser.c on any source: the tokens that its tree holds.
use arche.Base.{ℕ, zero, suc, ◌+◌, ◌<◌, ◌≤◌, ◌≡◌, sym, ap, subst, ◌∙◌, arith, true, false}
use arche.Base.{List, [], ◌++◌, some, inl, inr, ◌⊎◌, Bool-cases, Bytes}
use arche.Base.{length, append-nil}
use arche.Lexer.Token.{Token}
use arche.Lexer.State.{lexer_init}
use arche.Lexer.Next.{is_eof, tokenize}
use arche.Lexer.Tokenize.{tokenize-Tiles}
use arche.Syntax.Tree.{SyntaxNode, syntax_builder_finish, syntax_builder_new}
use arche.Syntax.Tree.{u32_mod, count}
use arche.Syntax.Tree.{CstBuilder, SyntaxToken}
use arche.Parser.Kept.{LeavesOf, Tiles-LeavesOf}
use arche.Syntax.Calls.{BuilderCall, perform_all, tokens_of, build}
use arche.Syntax.Leaves.{node_leaves, build-leaves}
use arche.Syntax.Ids.{node_ids, counting, build-counting}
use arche.Parser.State.{Parser, wrap, parser_create}
use arche.Parser.Measure.{left, size, left-live}
use arche.Parser.Recovery.{left-synchronize}
use arche.Parser.Steps.{left-Steps}
use arche.Parser.Monad.{Ran, returned, failed, moved}
use arche.Parser.Program.{settle, decl_run, top_level_decl, decl_loop, parse_program}
use arche.Parser.Program.{parse_source, max_decl_loop}
use arche.Parser.Ahead.{leaf_tokens, leaf_tokens-append, Yields, Ahead, at_end, at_token}
use arche.Parser.Ahead.{cut_off, tokenize_loop-Yields}
use arche.Parser.Reads.{Reads-trans}
use arche.Parser.Runs.{Steps-Reads, parser_create-Reads, left-parser_create}

left-settle :
    {p : Parser} {n : ℕ} (cp : ℕ) (x : Ran p n (left p) moved (Unit {0}))
    → 0 < left p
    → left (settle cp x).0 < left p
unfolding wrap
left-settle cp (returned a q s h) l = h.0
left-settle cp (failed q s) l = omega (arith, left-Steps s, left-synchronize q)

-- A round of the loop over the declarations consumes a token, whether it parses one or recovers.
pub top_level_decl-lt-left :
    (p : Parser) → is_eof p.current.kind ≡ false → left (top_level_decl p).0 < left p
unfolding top_level_decl
top_level_decl-lt-left p live = left-settle (count p.builder.items) (decl_run p) (left-live p live)

decl_loop-at_end : (n : ℕ) (p : Parser) → is_eof p.current.kind ≡ true → (decl_loop n p).0 ≡ p
unfolding decl_loop
decl_loop-at_end zero p eof = rw eof
decl_loop-at_end (suc n) p eof = rw eof

decl_loop-limit :
    (p : Parser)
    → is_eof p.current.kind ≡ false
    → (decl_loop zero p).0 ≡ record p { had_error = true }
unfolding decl_loop
decl_loop-limit p live = rw live

decl_loop-live :
    (n : ℕ) (p : Parser)
    → is_eof p.current.kind ≡ false
    → (decl_loop (suc n) p).0 ≡ (decl_loop n (top_level_decl p).0).0
unfolding decl_loop
decl_loop-live n p live = rw live

-- The loop over the declarations ends at the end mark, or each of its rounds has consumed a token.
abbrev Ends : ℕ → Parser → Parser → Type 0
Ends n p q = (is_eof q.current.kind ≡ true) ⊎ (left q + n ≤ left p)

pub decl_loop-Ends : (n : ℕ) (p : Parser) → Ends n p (decl_loop n p).0
decl_loop-Ends zero p = elim (Bool-cases (is_eof p.current.kind)) [
  | inl eof ↦ inl (ap (λ q. is_eof q.current.kind) (decl_loop-at_end zero p eof) ∙ eof)
  | inr live ↦ inr (omega (arith, ap left (decl_loop-limit p live)))
]
decl_loop-Ends (suc n) p = elim (Bool-cases (is_eof p.current.kind)) [
  | inl eof ↦ inl (ap (λ q. is_eof q.current.kind) (decl_loop-at_end (suc n) p eof) ∙ eof)
  | inr live ↦
      let on = decl_loop-live n p live in
      elim (decl_loop-Ends n (top_level_decl p).0) [
        | inl ended ↦ inl (ap (λ q. is_eof q.current.kind) on ∙ ended)
        | inr more ↦ inr (omega (arith, ap left on, more, top_level_decl-lt-left p live))
      ]
]

-- What is left unread at the end of the loop, where 1000 bounds what the parser began with.
decl_loop-reads_all :
    (b n : ℕ) (p : Parser) (rest : List Token)
    → Ahead b (decl_loop n p).0 rest
    → left p ≤ b
    → b ≤ 1000
    → b < n
    → rest ≡ []
decl_loop-reads_all b n p rest (at_end eof e) l h k = e
decl_loop-reads_all b n p rest (cut_off eof far) l h k = absurd (omega arith)
decl_loop-reads_all b n p rest (at_token us live e y) l h k = elim (decl_loop-Ends n p) [
  | inl eof ↦ absurd (cc)
  | inr more ↦ absurd (omega arith)
]

-- The tree is built by calls that push the leaves of the tokens of `lexer_tokenize`, up to a `rest`
-- that is empty for a source of at most 1000 bytes.
pub record Built (g : ℕ) (src : Bytes) (root : SyntaxNode) (toks : List Token) : Type 0 where
  pub calls : List BuilderCall
  pub rest : List Token
  pub root_is : root ≡ (build g calls).0
  pub pushed : leaf_tokens toks ≡ tokens_of calls ++ leaf_tokens rest
  pub leaves_of : LeavesOf toks (leaf_tokens toks)
  pub complete : length src ≤ 1000 → rest ≡ []

finish-build :
    (g : ℕ) (b c : CstBuilder) (cs : List BuilderCall)
    → c ≡ perform_all b cs
    → b ≡ syntax_builder_new g
    → (syntax_builder_finish c).0 ≡ (build g cs).0
unfolding build
finish-build g b c cs e f = ap (λ d. (syntax_builder_finish d).0) (e ∙ ap (λ d. perform_all d cs) f)

parse_program-Built :
    (g : ℕ) (src : Bytes) (toks us : List Token)
    → Yields (lexer_init src) us
    → leaf_tokens us ≡ leaf_tokens toks
    → LeavesOf toks (leaf_tokens toks)
    → Built g src (parse_program (parser_create g (lexer_init src))).syntax_root toks
unfolding parse_program lexer_init
parse_program-Built g src toks us y same leaves_of =
    let l = lexer_init src in
    let p = parser_create g l in
    let (q, e, x) = parser_create-Reads g l us y in
    let z = Reads-trans x (
      Steps-Reads (size l) (decl_loop max_decl_loop p).1 x.rest x.ahead (left-parser_create g l)) in
    record {
      calls = z.calls;
      rest = z.rest;
      root_is = finish-build g q.builder (decl_loop max_decl_loop p).0.builder z.calls z.built e;
      pushed =
          sym same
          ∙ (ap leaf_tokens z.split
              ∙ (leaf_tokens-append z.read z.rest
                  ∙ ap (λ ts. ts ++ leaf_tokens z.rest) (sym z.emitted)));
      leaves_of = leaves_of;
      complete = λ h.
          decl_loop-reads_all (size l) max_decl_loop p z.rest z.ahead (left-parser_create g l)
            (omega (arith, h)) (omega (arith, h));
    }

pub parse_source-Built :
    (g : ℕ) (src : Bytes)
    → (toks : List Token) × (tokenize src ≡ some toks)
      × Built g src (parse_source g src).syntax_root toks
unfolding parse_source tokenize
parse_source-Built g src =
    let (toks, e, t) = tokenize-Tiles src in
    let (us, y, same) = tokenize_loop-Yields (suc (length src)) (lexer_init src) toks e in
    (toks, e, parse_program-Built g src toks us y same (Tiles-LeavesOf t))

-- Whatever the source, its tokens have leaves, one each but for the end mark and errors, with their
-- kinds and places, and the leaves of its tree are the first of these, in their order.
pub parse_source-prefix :
    (g : ℕ) (src : Bytes)
    → (toks : List Token) × (unread : List SyntaxToken) × (tokenize src ≡ some toks)
      × LeavesOf toks (node_leaves (parse_source g src).syntax_root ++ unread)
parse_source-prefix g src =
    let (toks, e, b) = parse_source-Built g src in
    let leaves_are = ap node_leaves b.root_is ∙ build-leaves g b.calls in
    (
      toks,
      leaf_tokens b.rest,
      e,
      subst (LeavesOf toks) (b.pushed ∙ ap (λ ts. ts ++ leaf_tokens b.rest) (sym leaves_are))
          b.leaves_of,
    )

-- The tree of a source of at most 1000 bytes, well-formed or not, has one leaf for each token of the
-- source but the end mark and errors, with its kind and place, in the order of the tokens, and no
-- other leaf.
pub parse_source-leaves :
    (g : ℕ) (src : Bytes)
    → length src ≤ 1000
    → (toks : List Token) × (tokenize src ≡ some toks)
      × LeavesOf toks (node_leaves (parse_source g src).syntax_root)
unfolding leaf_tokens
parse_source-leaves g src h =
    let (toks, e, b) = parse_source-Built g src in
    let none_left = ap (λ ts. tokens_of b.calls ++ leaf_tokens ts) (b.complete h) in
    let all = b.pushed ∙ (none_left ∙ append-nil (tokens_of b.calls)) in
    let leaves_are = ap node_leaves b.root_is ∙ build-leaves g b.calls in
    (toks, e, subst (LeavesOf toks) (all ∙ sym leaves_are) b.leaves_of)

-- The ids of the nodes of a parsed tree, read in post-order, count up from the value that the
-- counter had before.
pub parse_source-ids :
    (g : ℕ) (src : Bytes)
    → g < u32_mod
    → node_ids (parse_source g src).syntax_root
      ≡ counting g (length (node_ids (parse_source g src).syntax_root))
parse_source-ids g src h =
    let (toks, e, b) = parse_source-Built g src in rw b.root_is (build-counting g b.calls h).0
