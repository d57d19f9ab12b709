-- ===== src/Syntax/ViewEdges.antt =====
-- Positions and child nodes that the accessors of syntax/syntax_view.c find.
use arche.Base.{ℕ, zero, suc, ◌<◌, ◌≡◌, ◌≢◌, ◌↔◌, refl, arith, Bool, true}
use arche.Base.{false}
use arche.Base.{List, [], ◌∷◌, ◌++◌, All, none, some}
use arche.Base.{ltb, ltb_iff, not, ◌&&◌, if◌then◌else◌}
use arche.Syntax.NodeKind.{SyntaxNodeKind}
use arche.Syntax.Tree.{SyntaxToken, SyntaxNode, SyntaxElems, no_elems, one_elem}
use arche.Syntax.Tree.{syntax_node, se_node, se_token}
use arche.Syntax.Leaves.{node_leaves, elem_leaves, leaves}
use arche.Syntax.View.{CvPos, no_pos, leaf_pos, token_pos_edge, edge_over}
use arche.Syntax.View.{count_nodes, nth_node, node_children, any_kind}
use arche.Syntax.View.{sv_first_token_pos, sv_last_token_pos, sv_node_at, sv_node_count}
use arche.Syntax.View.{sv_child_at, sv_count, sv_type_at, sv_type_count}
use arche.Syntax.NodeValue.{is_kind, is_type_kind}

-- The position of the first of some tokens, and of the last; `best` where there are none.
unfoldable pub first_of : CvPos → List SyntaxToken → CvPos
first_of best [] = best
first_of best (t ∷ ts) = leaf_pos t

unfoldable pub last_of : CvPos → List SyntaxToken → CvPos
last_of best [] = best
last_of best (t ∷ ts) = last_of (leaf_pos t) ts

unfoldable pub edge_of : Bool → CvPos → List SyntaxToken → CvPos
edge_of true best ts = last_of best ts
edge_of false best ts = first_of best ts

abbrev pub HasLine : SyntaxToken → Type 0
HasLine t = 0 < t.line

last_of-append :
    (best : CvPos) (xs ys : List SyntaxToken)
    → last_of best (xs ++ ys) ≡ last_of (last_of best xs) ys
unfolding last_of
last_of-append best [] ys = refl
last_of-append best (x ∷ xs) ys = last_of-append (leaf_pos x) xs ys

last_of-HasLine :
    (best : CvPos) (xs : List SyntaxToken)
    → 0 < best.line
    → All HasLine xs
    → 0 < (last_of best xs).line
unfolding last_of
last_of-HasLine best [] b _ = b
last_of-HasLine best (x ∷ xs) b (h, hs) = last_of-HasLine (leaf_pos x) xs h hs

-- A round of the loop over the children at a node: `sub` is the edge of its leaves `xs`.
abbrev round : Bool → CvPos → CvPos → List SyntaxToken → CvPos
round want_last best sub ys =
    let rest = edge_of want_last (if ltb 0 sub.line then sub else best) ys in
    if ltb 0 sub.line && not want_last then sub else rest

round-edge_of :
    (want_last : Bool) (best : CvPos) (xs ys : List SyntaxToken)
    → All HasLine xs
    → round want_last best (edge_of want_last no_pos xs) ys ≡ edge_of want_last best (xs ++ ys)
unfolding edge_of first_of last_of
round-edge_of true best [] ys h = refl
round-edge_of false best [] ys h = refl
round-edge_of false best (x ∷ xs) ys (h, hs) = rw ((ltb_iff 0 x.line).1 h)
round-edge_of true best (x ∷ xs) ys (h, hs) = rw (
  (ltb_iff 0 (last_of (leaf_pos x) xs).line).1 (last_of-HasLine (leaf_pos x) xs h hs),
  last_of-append (leaf_pos x) xs ys,
)

All-left : (P : SyntaxToken → Type 0) (xs ys : List SyntaxToken) → All P (xs ++ ys) → All P xs
All-left P [] ys h = tt
All-left P (x ∷ xs) ys (h, hs) = (h, All-left P xs ys hs)

All-right : (P : SyntaxToken → Type 0) (xs ys : List SyntaxToken) → All P (xs ++ ys) → All P ys
All-right P [] ys h = h
All-right P (x ∷ xs) ys (h, hs) = All-right P xs ys hs

mutual
  unfolding token_pos_edge edge_over node_leaves leaves elem_leaves edge_of first_of last_of

  edge_of_node :
      (want_last : Bool) (v : SyntaxNode)
      → All HasLine (node_leaves v)
      → token_pos_edge want_last v ≡ edge_of want_last no_pos (node_leaves v)
  edge_of_node want_last (syntax_node kind id offset length children) h =
      edge_of_elems want_last no_pos children h

  edge_of_elems :
      (want_last : Bool) (best : CvPos) (es : SyntaxElems)
      → All HasLine (leaves es)
      → edge_over want_last best es ≡ edge_of want_last best (leaves es)
  edge_of_elems true best no_elems h = refl
  edge_of_elems false best no_elems h = refl
  edge_of_elems want_last best (one_elem (se_node v) es) h = rw (
    edge_of_node want_last v (All-left HasLine (node_leaves v) (leaves es) h),
    edge_of_elems want_last
        (if ltb 0 (edge_of want_last no_pos (node_leaves v)).line
          then edge_of want_last no_pos (node_leaves v)
          else best)
        es (All-right HasLine (node_leaves v) (leaves es) h),
    round-edge_of want_last best (node_leaves v) (leaves es)
        (All-left HasLine (node_leaves v) (leaves es) h),
  )
  edge_of_elems true best (one_elem (se_token t) es) (h, hs) = edge_of_elems true (leaf_pos t) es hs
  edge_of_elems false best (one_elem (se_token t) es) (h, hs) = refl

-- In a tree whose tokens have lines above 0, the position found first is that of the first leaf of
-- the node, and the position found last that of its last leaf; without leaves both have line 0.
pub token_pos-leaves :
    (v : SyntaxNode)
    → All HasLine (node_leaves v)
    → (sv_first_token_pos (some v) ≡ first_of no_pos (node_leaves v))
      × (sv_last_token_pos (some v) ≡ last_of no_pos (node_leaves v))
unfolding edge_of
token_pos-leaves v h = (edge_of_node false v h, edge_of_node true v h)

nth_node-count_nodes :
    (q : SyntaxNodeKind → Bool) (n : ℕ) (es : SyntaxElems)
    → (nth_node q n es ≢ none) ↔ (n < count_nodes q es)
unfolding nth_node count_nodes
nth_node-count_nodes q n no_elems = ground arith
nth_node-count_nodes q n (one_elem (se_token t) es) = nth_node-count_nodes q n es
nth_node-count_nodes q zero (one_elem (se_node v) es) =
    ground (arith, nth_node-count_nodes q zero es)
nth_node-count_nodes q (suc n) (one_elem (se_node v) es) =
    ground (arith, nth_node-count_nodes q n es, nth_node-count_nodes q (suc n) es)

-- The accessors by place find a child exactly at the places below the count: of all child nodes, of
-- those of one kind, and of those that are types.
pub child_at-count :
    (v : SyntaxNode) (kind : SyntaxNodeKind) (n : ℕ)
    → ((sv_node_at v n ≢ none) ↔ (n < sv_node_count v))
      × ((sv_child_at v kind n ≢ none) ↔ (n < sv_count v kind))
      × ((sv_type_at v n ≢ none) ↔ (n < sv_type_count v))
child_at-count v kind n = (
  nth_node-count_nodes any_kind n (node_children v),
  nth_node-count_nodes (is_kind kind) n (node_children v),
  nth_node-count_nodes is_type_kind n (node_children v),
)
