-- ===== src/Syntax/Leaves.antt =====
-- The leaves of the trees that the builder of syntax/syntax_tree.c makes.
use arche.Base.{ℕ, ◌≡◌, refl, sym, ◌∙◌, Bool-cases, inl, inr}
use arche.Base.{List, [], ◌∷◌, ◌++◌, append-nil, append_assoc, leb}
use arche.Syntax.NodeKind.{SyntaxNodeKind, sn_source_file}
use arche.Syntax.Tree.{SyntaxToken, SyntaxNode, SyntaxElem, SyntaxElems, no_elems, one_elem}
use arche.Syntax.Tree.{syntax_node, se_node, se_token, CstBuilder, syntax_builder_new}
use arche.Syntax.Tree.{syntax_builder_token, syntax_builder_wrap, syntax_builder_finish}
use arche.Syntax.Tree.{count, join, items_before, items_from, make_node, builder_push}
use arche.Syntax.Calls.{BuilderCall, push_token, wrap_from, perform, perform_all, build}
use arche.Syntax.Calls.{tokens_of, join_before_from}

unfoldable mutual
  pub node_leaves : SyntaxNode → List SyntaxToken
  node_leaves (syntax_node kind id offset length children) = leaves children

  pub elem_leaves : SyntaxElem → List SyntaxToken
  elem_leaves (se_node n) = node_leaves n
  elem_leaves (se_token t) = t ∷ []

  pub leaves : SyntaxElems → List SyntaxToken
  leaves no_elems = []
  leaves (one_elem e es) = elem_leaves e ++ leaves es

leaves-join : (es ds : SyntaxElems) → leaves (join es ds) ≡ leaves es ++ leaves ds
unfolding leaves join
leaves-join no_elems ds = refl
leaves-join (one_elem e es) ds = rw (leaves-join es ds, append_assoc)

node_leaves-make_node :
    (id : ℕ) (es : SyntaxElems) (k : SyntaxNodeKind) → node_leaves (make_node id es k) ≡ leaves es
unfolding node_leaves make_node
node_leaves-make_node id no_elems k = refl
node_leaves-make_node id (one_elem e es) k = refl

leaves-single : (e : SyntaxElem) → leaves (one_elem e no_elems) ≡ elem_leaves e
unfolding leaves
leaves-single e = append-nil (elem_leaves e)

leaves-wrapped :
    (id n : ℕ) (es : SyntaxElems) (k : SyntaxNodeKind)
    → leaves
        (join (items_before n es) (one_elem (se_node (make_node id (items_from n es) k)) no_elems))
      ≡ leaves es
unfolding elem_leaves
leaves-wrapped id n es k = rw (
  leaves-join,
  leaves-single (se_node (make_node id (items_from n es) k)),
  node_leaves-make_node id (items_from n es) k,
  ← leaves-join,
  join_before_from,
)

leaves-wrap :
    (b : CstBuilder) (n : ℕ) (k : SyntaxNodeKind)
    → leaves ((syntax_builder_wrap b n k).1).items ≡ leaves b.items
unfolding syntax_builder_wrap
leaves-wrap b n k = elim (Bool-cases (leb (count b.items) n)) [
  | inl t ↦ rw t
  | inr f ↦ rw (f, leaves-wrapped b.next_id n b.items k)
]

leaves-token :
    (b : CstBuilder) (t : SyntaxToken)
    → leaves (syntax_builder_token b t).items ≡ leaves b.items ++ (t ∷ [])
unfolding syntax_builder_token builder_push elem_leaves
leaves-token b t = leaves-join b.items (one_elem (se_token t) no_elems)

pub leaves-perform_all :
    (b : CstBuilder) (cs : List BuilderCall)
    → leaves (perform_all b cs).items ≡ leaves b.items ++ tokens_of cs
unfolding perform_all perform tokens_of
leaves-perform_all b [] = sym (append-nil _)
leaves-perform_all b (push_token t ∷ cs) =
    rw (leaves-perform_all (syntax_builder_token b t) cs, leaves-token b t, append_assoc)
leaves-perform_all b (wrap_from n k ∷ cs) =
    rw (leaves-perform_all ((syntax_builder_wrap b n k).1) cs, leaves-wrap b n k)

-- However tokens are pushed and ranges wrapped, the leaves of the finished tree are the tokens
-- pushed, in their order.
pub build-leaves : (g : ℕ) (cs : List BuilderCall) → node_leaves (build g cs).0 ≡ tokens_of cs
unfolding build syntax_builder_finish syntax_builder_new leaves
build-leaves g cs =
    let b = perform_all (syntax_builder_new g) cs in
    node_leaves-make_node b.next_id b.items sn_source_file
    ∙ leaves-perform_all (syntax_builder_new g) cs
