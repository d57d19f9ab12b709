-- ===== src/Syntax/View.antt =====
-- syntax/syntax_view.c: the accessors of a node. A view is the node and the text of the source; an
-- accessor that does not read the text takes the node alone, and none is an absent view or text.
use arche.Base.{ℕ, zero, suc, ◌+◌, Bool, true, false, not, ◌&&◌, ◌||◌, Option, none, some}
use arche.Base.{ltb, if◌then◌else◌, Bytes, text_eq, take, drop}
use arche.Lexer.Kind.{TokenKind, tok_ident}
use arche.Parser.Kinds.{is}
use arche.Syntax.NodeKind.{SyntaxNodeKind, sn_field_expr, sn_index_expr, sn_slice_expr}
use arche.Syntax.NodeKind.{sn_call_expr, sn_paren_expr, sn_error}
use arche.Syntax.NodeValue.{is_kind, is_expr_kind, is_type_kind}
use arche.Syntax.Tree.{SyntaxToken, SyntaxNode, SyntaxElems, no_elems, one_elem}
use arche.Syntax.Tree.{syntax_node, se_node, se_token}

abbrev pub node_kind : SyntaxNode → SyntaxNodeKind
node_kind (syntax_node kind id offset length children) = kind

abbrev pub node_children : SyntaxNode → SyntaxElems
node_children (syntax_node kind id offset length children) = children

-- The slice of the source that a `SynText` borrows.
abbrev pub slice : Bytes → ℕ → ℕ → Bytes
slice src offset length = take length (drop offset src)

unfoldable pub sv_text : Bytes → Option SyntaxNode → Option Bytes
sv_text src none = none
sv_text src (some (syntax_node kind id offset length children)) = some (slice src offset length)

unfoldable pub sv_text_eq : Bytes → Option SyntaxNode → Bytes → Bool
unfolding sv_text
sv_text_eq src v s = elim (sv_text src v) [ none ↦ false | some t ↦ text_eq t s ]

-- The child nodes whose kind passes a test: the loops of sv_node_count, sv_count and sv_type_count.
unfoldable pub count_nodes : (SyntaxNodeKind → Bool) → SyntaxElems → ℕ
count_nodes q no_elems = 0
count_nodes q (one_elem (se_token t) es) = count_nodes q es
count_nodes q (one_elem (se_node v) es) =
    let rest = count_nodes q es in if q (node_kind v) then suc rest else rest

-- The n-th of them: the loops of sv_node_at, sv_child_at, sv_expr_at and sv_type_at.
unfoldable pub nth_node : (SyntaxNodeKind → Bool) → ℕ → SyntaxElems → Option SyntaxNode
nth_node q n no_elems = none
nth_node q n (one_elem (se_token t) es) = nth_node q n es
nth_node q zero (one_elem (se_node v) es) =
    let rest = nth_node q zero es in if q (node_kind v) then some v else rest
nth_node q (suc n) (one_elem (se_node v) es) =
    let here = nth_node q n es in
    let rest = nth_node q (suc n) es in if q (node_kind v) then here else rest

abbrev pub any_kind : SyntaxNodeKind → Bool
any_kind k = true

abbrev pub sv_node_count : SyntaxNode → ℕ
sv_node_count v = count_nodes any_kind (node_children v)

abbrev pub sv_node_at : SyntaxNode → ℕ → Option SyntaxNode
sv_node_at v index = nth_node any_kind index (node_children v)

abbrev pub sv_child_at : SyntaxNode → SyntaxNodeKind → ℕ → Option SyntaxNode
sv_child_at v kind n = nth_node (is_kind kind) n (node_children v)

abbrev pub sv_child : SyntaxNode → SyntaxNodeKind → Option SyntaxNode
sv_child v kind = sv_child_at v kind 0

abbrev pub sv_count : SyntaxNode → SyntaxNodeKind → ℕ
sv_count v kind = count_nodes (is_kind kind) (node_children v)

abbrev pub sv_expr_at : SyntaxNode → ℕ → Option SyntaxNode
sv_expr_at v idx = nth_node is_expr_kind idx (node_children v)

abbrev pub sv_type_at : SyntaxNode → ℕ → Option SyntaxNode
sv_type_at v idx = nth_node is_type_kind idx (node_children v)

abbrev pub sv_type_count : SyntaxNode → ℕ
sv_type_count v = count_nodes is_type_kind (node_children v)

unfoldable mutual
  pub sv_node_count_deep : SyntaxNode → ℕ
  sv_node_count_deep (syntax_node kind id offset length children) = count_deep children

  pub count_deep : SyntaxElems → ℕ
  count_deep no_elems = 0
  count_deep (one_elem (se_token t) es) = count_deep es
  count_deep (one_elem (se_node v) es) = suc (sv_node_count_deep v + count_deep es)

-- The n-th token of a kind among the children.
unfoldable pub nth_token : TokenKind → ℕ → SyntaxElems → Option SyntaxToken
unfolding is
nth_token kind n no_elems = none
nth_token kind n (one_elem (se_node v) es) = nth_token kind n es
nth_token kind zero (one_elem (se_token t) es) =
    let rest = nth_token kind zero es in if is kind t.kind then some t else rest
nth_token kind (suc n) (one_elem (se_token t) es) =
    let here = nth_token kind n es in
    let rest = nth_token kind (suc n) es in if is kind t.kind then here else rest

unfoldable pub sv_token : Bytes → SyntaxNode → TokenKind → Option Bytes
unfolding nth_token
sv_token src v kind = elim (nth_token kind 0 (node_children v)) [
  | none ↦ none
  | some t ↦ some (slice src t.offset t.length)
]

unfoldable pub sv_has_token : SyntaxNode → TokenKind → Bool
unfolding nth_token
sv_has_token v kind = elim (nth_token kind 0 (node_children v)) [ none ↦ false | some t ↦ true ]

unfoldable pub sv_is_postfix_kind : SyntaxNodeKind → Bool
sv_is_postfix_kind sn_field_expr = true
sv_is_postfix_kind sn_index_expr = true
sv_is_postfix_kind sn_slice_expr = true
sv_is_postfix_kind sn_call_expr = true
sv_is_postfix_kind _ = false

unfoldable pub nested_base : Option SyntaxNode → Option SyntaxNode
unfolding sv_is_postfix_kind
nested_base none = none
nested_base (some first) =
    if sv_is_postfix_kind (node_kind first) || is_kind sn_paren_expr (node_kind first)
    then some first
    else none

unfoldable pub base_subexpr : Option SyntaxNode → Option SyntaxNode
unfolding sv_has_token nth_node nested_base
base_subexpr none = none
base_subexpr (some v) =
    if not (sv_is_postfix_kind (node_kind v)) || sv_has_token v tok_ident
    then none
    else nested_base (sv_node_at v 0)

unfoldable mutual
  pub sv_has_error : SyntaxNode → Bool
  sv_has_error (syntax_node kind id offset length children) =
      is_kind sn_error kind || any_error children

  pub any_error : SyntaxElems → Bool
  any_error no_elems = false
  any_error (one_elem (se_token t) es) = any_error es
  any_error (one_elem (se_node v) es) = sv_has_error v || any_error es

-- The position of a token; line 0 where there is none.
pub record CvPos : Type 0 where
  pub line : ℕ
  pub column : ℕ
  pub offset : ℕ
  pub length : ℕ

abbrev pub no_pos : CvPos
no_pos = record { line = 0; column = 0; offset = 0; length = 0 }

abbrev pub leaf_pos : SyntaxToken → CvPos
leaf_pos t = record { line = t.line; column = t.column; offset = t.offset; length = t.length }

unfoldable pub sv_token_pos_at : Option SyntaxNode → TokenKind → ℕ → CvPos
unfolding nth_token
sv_token_pos_at none kind n = no_pos
sv_token_pos_at (some v) kind n = elim (nth_token kind n (node_children v)) [
  | none ↦ no_pos
  | some t ↦ leaf_pos t
]

abbrev pub sv_token_pos : Option SyntaxNode → TokenKind → CvPos
sv_token_pos v kind = sv_token_pos_at v kind 0

-- `token_pos_edge`, and its loop over the children with the `best` so far.
unfoldable mutual
  pub token_pos_edge : Bool → SyntaxNode → CvPos
  token_pos_edge want_last (syntax_node kind id offset length children) =
      edge_over want_last no_pos children

  pub edge_over : Bool → CvPos → SyntaxElems → CvPos
  edge_over want_last best no_elems = best
  edge_over want_last best (one_elem (se_node v) es) =
      let sub = token_pos_edge want_last v in
      let rest = edge_over want_last (if ltb 0 sub.line then sub else best) es in
      if ltb 0 sub.line && not want_last then sub else rest
  edge_over want_last best (one_elem (se_token t) es) =
      let rest = edge_over want_last (leaf_pos t) es in if want_last then rest else leaf_pos t

abbrev pub sv_first_token_pos : Option SyntaxNode → CvPos
sv_first_token_pos none = no_pos
sv_first_token_pos (some v) = token_pos_edge false v

abbrev pub sv_last_token_pos : Option SyntaxNode → CvPos
sv_last_token_pos none = no_pos
sv_last_token_pos (some v) = token_pos_edge true v
