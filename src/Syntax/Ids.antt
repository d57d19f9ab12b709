-- ===== src/Syntax/Ids.antt =====
-- The ids that the builder of syntax/syntax_tree.c gives to nodes.
use arche.Base.{ℕ, zero, suc, ◌+◌, ◌%◌, ◌<◌, ◌≡◌, refl, ap, ◌∙◌, arith, Bool-cases, inl, inr}
use arche.Base.{List, [], ◌∷◌, ◌++◌, append-nil, append_assoc, length, length-append, leb}
use arche.Syntax.NodeKind.{SyntaxNodeKind, sn_source_file}
use arche.Syntax.Tree.{SyntaxToken, SyntaxNode, SyntaxElem, SyntaxElems, no_elems, one_elem}
use arche.Syntax.Tree.{syntax_node, se_node, se_token, CstBuilder, syntax_builder_new}
use arche.Syntax.Tree.{syntax_builder_token, syntax_builder_wrap, syntax_builder_finish}
use arche.Syntax.Tree.{count, join, items_before, items_from, make_node, builder_push, u32_mod}
use arche.Syntax.Calls.{BuilderCall, push_token, wrap_from, perform, perform_all, build}
use arche.Syntax.Calls.{join_before_from}

-- The ids of a tree in post-order.
unfoldable mutual
  pub node_ids : SyntaxNode → List ℕ
  node_ids (syntax_node kind id offset length children) = ids children ++ (id ∷ [])

  pub elem_ids : SyntaxElem → List ℕ
  elem_ids (se_node n) = node_ids n
  elem_ids (se_token t) = []

  pub ids : SyntaxElems → List ℕ
  ids no_elems = []
  ids (one_elem e es) = elem_ids e ++ ids es

-- The `k` numbers from `g` on, in order, as `uint32_t`.
unfoldable pub counting : ℕ → ℕ → List ℕ
counting g zero = []
counting g (suc k) = counting g k ++ ((g + k) % u32_mod ∷ [])

length-counting : (g k : ℕ) → length (counting g k) ≡ k
unfolding counting
length-counting g zero = refl
length-counting g (suc k) =
    omega (arith, length-append (counting g k) ((g + k) % u32_mod ∷ []), length-counting g k)

ids-join : (es ds : SyntaxElems) → ids (join es ds) ≡ ids es ++ ids ds
unfolding ids join
ids-join no_elems ds = refl
ids-join (one_elem e es) ds = rw (ids-join es ds, append_assoc)

ids-single : (e : SyntaxElem) → ids (one_elem e no_elems) ≡ elem_ids e
unfolding ids
ids-single e = append-nil (elem_ids e)

node_ids-make_node :
    (id : ℕ) (es : SyntaxElems) (k : SyntaxNodeKind)
    → node_ids (make_node id es k) ≡ ids es ++ (id ∷ [])
unfolding ids make_node
node_ids-make_node id no_elems k = refl
node_ids-make_node id (one_elem e es) k = refl

-- The builder began with the counter at `g`, and has made so many nodes.
record Dense (g : ℕ) (b : CstBuilder) : Type 0 where
  made : ℕ
  in_items : ids b.items ≡ counting g made
  next : b.next_id ≡ (g + made) % u32_mod

ids-wrapped :
    (id n : ℕ) (es : SyntaxElems) (k : SyntaxNodeKind)
    → ids
        (join (items_before n es) (one_elem (se_node (make_node id (items_from n es) k)) no_elems))
      ≡ ids es ++ (id ∷ [])
unfolding ids
ids-wrapped id n es k = rw (
  ids-join,
  ids-single (se_node (make_node id (items_from n es) k)),
  node_ids-make_node id (items_from n es) k,
  ← append_assoc,
  ← ids-join,
  join_before_from,
)

wrap-Dense :
    {g : ℕ} (b : CstBuilder) (n : ℕ) (kind : SyntaxNodeKind)
    → Dense g b
    → Dense g ((syntax_builder_wrap b n kind).1)
unfolding syntax_builder_wrap counting
wrap-Dense b n kind d = elim (Bool-cases (leb (count b.items) n)) [
  | inl t ↦ rw t d
  | inr f ↦ rw f (record {
    made = suc d.made;
    in_items = rw (ids-wrapped b.next_id n b.items kind, d.in_items, d.next);
    next = omega (arith, d.next);
  })
]

token-Dense :
    {g : ℕ} (b : CstBuilder) (t : SyntaxToken) → Dense g b → Dense g (syntax_builder_token b t)
unfolding syntax_builder_token builder_push ids
token-Dense b t d = record {
  made = d.made;
  in_items =
      ids-join b.items (one_elem (se_token t) no_elems) ∙ append-nil (ids b.items) ∙ d.in_items;
  next = d.next;
}

perform_all-Dense :
    {g : ℕ} (cs : List BuilderCall) (b : CstBuilder) → Dense g b → Dense g (perform_all b cs)
unfolding perform_all perform
perform_all-Dense [] b h = h
perform_all-Dense (push_token t ∷ cs) b h = perform_all-Dense cs _ (token-Dense b t h)
perform_all-Dense (wrap_from n k ∷ cs) b h = perform_all-Dense cs _ (wrap-Dense b n k h)

new-Dense : {g : ℕ} → g < u32_mod → Dense g (syntax_builder_new g)
unfolding syntax_builder_new ids counting
new-Dense h = record { made = 0; in_items = refl; next = omega arith }

build-made :
    (g : ℕ) (cs : List BuilderCall)
    → g < u32_mod
    → (k : ℕ) × (node_ids (build g cs).0 ≡ counting g k) × ((build g cs).1 ≡ (g + k) % u32_mod)
unfolding build syntax_builder_finish counting
build-made g cs h =
    let b = perform_all (syntax_builder_new g) cs in
    let d = perform_all-Dense cs (syntax_builder_new g) (new-Dense h) in
    (
      suc d.made,
      rw (node_ids-make_node b.next_id b.items sn_source_file, d.in_items, d.next),
      omega (arith, d.next),
    )

-- The ids of a finished tree, read in post-order, count up from the value that the counter had at
-- the start, as `uint32_t`; the counter ends behind the last, the root's.
pub build-counting :
    (g : ℕ) (cs : List BuilderCall)
    → g < u32_mod
    → (node_ids (build g cs).0 ≡ counting g (length (node_ids (build g cs).0)))
      × ((build g cs).1 ≡ (g + length (node_ids (build g cs).0)) % u32_mod)
build-counting g cs h =
    let (k, in_tree, next) = build-made g cs h in
    let many : length (node_ids (build g cs).0) ≡ k = ap length in_tree ∙ length-counting g k in
    (rw many in_tree, rw many next)
