-- ===== src/Syntax/Spans.antt =====
-- The spans that the builder of syntax/syntax_tree.c gives to nodes.
use arche.Base.{ℕ, ◌+◌, ◌-◌, ◌%◌, ◌≤◌, ◌<◌, ◌≡◌, refl, sym, ◌∙◌, arith, Bool-cases, inl, inr}
use arche.Base.{List, [], ◌∷◌, leb, ◌≢◌}
use arche.Syntax.NodeKind.{SyntaxNodeKind, sn_source_file}
use arche.Syntax.Tree.{SyntaxToken, SyntaxNode, SyntaxElem, SyntaxElems, no_elems, one_elem}
use arche.Syntax.Tree.{syntax_node, se_node, se_token, CstBuilder, syntax_builder_new}
use arche.Syntax.Tree.{syntax_builder_token, syntax_builder_wrap, syntax_builder_finish}
use arche.Syntax.Tree.{count, join, items_before, items_from, make_node, builder_push, u32_mod}
use arche.Syntax.Tree.{elem_offset, elem_end, last_elem}
use arche.Syntax.Calls.{BuilderCall, push_token, wrap_from, perform, perform_all, build}
use arche.Syntax.Calls.{tokens_of}
use arche.Syntax.Leaves.{leaves, leaves-perform_all}
use arche.Syntax.Calls.{join_before_from, items_from-some}

-- Tokens in the order of the source, from offset `p` on, at offsets that a `uint32_t` holds.
unfoldable pub InOrder : ℕ → List SyntaxToken → Type 0
InOrder p [] = Unit
InOrder p (t ∷ ts) = p ≤ t.offset × t.offset + t.length < u32_mod × InOrder (t.offset + t.length) ts

-- A node begins where its first child begins and ends where its last child ends.
unfoldable pub Tight : ℕ → ℕ → SyntaxElems → Type 0
Tight offset stop no_elems = ⊥
Tight offset stop (one_elem e es) = (offset ≡ elem_offset e) × (stop ≡ elem_end (last_elem e es))

-- Every node of a tree has children, is tight around them, and has them in order within its span.
unfoldable mutual
  pub NodeSpans : SyntaxNode → Type 0
  NodeSpans (syntax_node kind id offset length children) =
      offset + length < u32_mod
      × Tight offset (offset + length) children
      × Within offset (offset + length) children

  pub ElemSpans : SyntaxElem → Type 0
  ElemSpans (se_node n) = NodeSpans n
  ElemSpans (se_token t) = t.offset + t.length < u32_mod

  pub Within : ℕ → ℕ → SyntaxElems → Type 0
  Within p q no_elems = p ≤ q
  Within p q (one_elem e es) = p ≤ elem_offset e × ElemSpans e × Within (elem_end e) q es

ElemSpans-le : (e : SyntaxElem) → ElemSpans e → elem_offset e ≤ elem_end e
unfolding ElemSpans
ElemSpans-le (se_node (syntax_node k i o l cs)) (h, _, _) = omega arith
ElemSpans-le (se_token t) h = omega arith

ElemSpans-lt : (e : SyntaxElem) → ElemSpans e → elem_end e < u32_mod
unfolding ElemSpans
ElemSpans-lt (se_node (syntax_node k i o l cs)) (h, _, _) = omega arith
ElemSpans-lt (se_token t) h = omega arith

Within-le : (p q : ℕ) (es : SyntaxElems) → Within p q es → p ≤ q
unfolding Within
Within-le p q no_elems h = h
Within-le p q (one_elem e es) (a, b, c) =
    omega (arith, ElemSpans-le e b, Within-le (elem_end e) q es c)

Within-join :
    (p q : ℕ) (es ds : SyntaxElems)
    → Within p q (join es ds)
    → (m : ℕ) × Within p m es × Within m q ds
unfolding Within join
Within-join p q no_elems ds h = (p, omega arith, h)
Within-join p q (one_elem e es) ds (a, b, c) =
    let (m, l, r) = Within-join (elem_end e) q es ds c in (m, (a, b, l), r)

join-Within :
    (p m q : ℕ) (es ds : SyntaxElems) → Within p m es → Within m q ds → Within p q (join es ds)
unfolding Within join
join-Within p m q no_elems (one_elem e ds) h (a, b, c) = (omega arith, b, c)
join-Within p m q no_elems no_elems h k = omega arith
join-Within p m q (one_elem e es) ds (a, b, c) k = (a, b, join-Within (elem_end e) m q es ds c k)

last-Within :
    (p q : ℕ) (e : SyntaxElem) (es : SyntaxElems)
    → Within p q (one_elem e es)
    → (elem_offset e ≤ elem_end (last_elem e es))
      × (elem_end (last_elem e es) ≤ q)
      × (elem_end (last_elem e es) < u32_mod)
unfolding Within last_elem
last-Within p q e no_elems (a, b, c) = (ElemSpans-le e b, c, ElemSpans-lt e b)
last-Within p q e (one_elem d ds) (a, b, c) =
    let (l, m, n) = last-Within (elem_end e) q d ds c in
    (omega (arith, ElemSpans-le e b, c.0), m, n)

shrink-Within :
    (p q : ℕ) (e : SyntaxElem) (es : SyntaxElems)
    → Within p q (one_elem e es)
    → Within p (elem_end (last_elem e es)) (one_elem e es)
unfolding Within last_elem
shrink-Within p q e no_elems (a, b, c) = (a, b, omega arith)
shrink-Within p q e (one_elem d ds) (a, b, c) = (a, b, shrink-Within (elem_end e) q d ds c)

spanned : (o z : ℕ) → o ≤ z → z < u32_mod → o + (z + u32_mod - o) % u32_mod ≡ z
spanned o z h k = omega arith

make_node-NodeSpans :
    (p q id : ℕ) (k : SyntaxNodeKind) (e : SyntaxElem) (es : SyntaxElems)
    → Within p q (one_elem e es)
    → NodeSpans (make_node id (one_elem e es) k)
unfolding Within make_node Tight
make_node-NodeSpans p q id k e es h =
    let (a, b, c) = last-Within p q e es h in
    let (_, r, s) = shrink-Within p q e es h in
    let covers = spanned (elem_offset e) (elem_end (last_elem e es)) a c in
    rw covers (c, (refl, refl), (omega arith, r, s))

-- The node made of a range stands where the range stood.
make_node-Within :
    (p q id : ℕ) (k : SyntaxNodeKind) (e : SyntaxElem) (es : SyntaxElems)
    → Within p q (one_elem e es)
    → Within p q (one_elem (se_node (make_node id (one_elem e es) k)) no_elems)
unfolding Within make_node
make_node-Within p q id k e es h =
    let (a, b, c) = last-Within p q e es h in
    let covers = spanned (elem_offset e) (elem_end (last_elem e es)) a c in
    (h.0, make_node-NodeSpans p q id k e es h, omega (arith, covers))

wrap-Within :
    (q : ℕ) (b : CstBuilder) (n : ℕ) (kind : SyntaxNodeKind)
    → Within 0 q b.items
    → Within 0 q ((syntax_builder_wrap b n kind).1).items
unfolding syntax_builder_wrap
wrap-Within q b n kind h = elim (Bool-cases (leb (count b.items) n)) [
  | inl t ↦ rw t h
  | inr f ↦
      let (e, es, found) = items_from-some n b.items (ground arith) in
      let (m, l, r) =
        Within-join 0 q (items_before n b.items) (items_from n b.items)
          (rw (join_before_from n b.items) h) in
      rw (f, found)
        (join-Within 0 m q (items_before n b.items) _ l
          (make_node-Within m q b.next_id kind e es (rw (← found) r)))
]

token-Within :
    (p : ℕ) (b : CstBuilder) (t : SyntaxToken)
    → Within 0 p b.items
    → p ≤ t.offset
    → t.offset + t.length < u32_mod
    → Within 0 (t.offset + t.length) (syntax_builder_token b t).items
unfolding syntax_builder_token builder_push Within
token-Within p b t h k l =
    join-Within 0 p (t.offset + t.length) b.items (one_elem (se_token t) no_elems) h
      (k, l, omega arith)

perform_all-Within :
    (p : ℕ) (cs : List BuilderCall) (b : CstBuilder)
    → Within 0 p b.items
    → InOrder p (tokens_of cs)
    → (q : ℕ) × Within 0 q (perform_all b cs).items
unfolding perform_all perform tokens_of InOrder
perform_all-Within p [] b h k = (p, h)
perform_all-Within p (push_token t ∷ cs) b h (k, l, more) =
    perform_all-Within (t.offset + t.length) cs _ (token-Within _ b t h k l) more
perform_all-Within p (wrap_from n kind ∷ cs) b h more =
    perform_all-Within p cs _ (wrap-Within _ b n kind h) more

finish-NodeSpans :
    (q id : ℕ) (es : SyntaxElems)
    → Within 0 q es
    → leaves es ≢ []
    → NodeSpans (make_node id es sn_source_file)
unfolding leaves
finish-NodeSpans q id no_elems h some_token = absurd (some_token refl)
finish-NodeSpans q id (one_elem e es) h some_token =
    make_node-NodeSpans 0 q id sn_source_file e es h

-- Where the tokens pushed are in the order of the source, one at least, every node of the finished
-- tree begins with its first child, ends with its last, and holds its children in order.
pub build-NodeSpans :
    (g : ℕ) (cs : List BuilderCall)
    → InOrder 0 (tokens_of cs)
    → tokens_of cs ≢ []
    → NodeSpans (build g cs).0
unfolding build syntax_builder_finish syntax_builder_new Within leaves
build-NodeSpans g cs h some_token =
    let b = perform_all (syntax_builder_new g) cs in
    let (q, within) = perform_all-Within 0 cs (syntax_builder_new g) (omega arith) h in
    finish-NodeSpans q b.next_id b.items within
      (λ e. some_token (sym (leaves-perform_all (syntax_builder_new g) cs) ∙ e))
