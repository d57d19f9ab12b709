-- ===== src/Syntax/Tree.antt =====
-- syntax/syntax_tree.h and syntax/syntax_tree.c: the tree and the builder that wraps a range of the
-- elements seen so far into a node. Offsets, lengths and ids are `uint32_t`. The counter of node ids
-- is static in the program; here the builder that uses it carries it.
use arche.Base.{ℕ, zero, suc, ◌+◌, ◌-◌, ◌%◌, ◌^◌, Option, none, some, leb, if◌then◌else◌}
use arche.Lexer.Kind.{TokenKind}
use arche.Syntax.NodeKind.{SyntaxNodeKind, sn_source_file}

-- The `token` of the union in a `SyntaxElem`.
pub record SyntaxToken : Type 0 where
  pub kind : TokenKind
  pub offset : ℕ
  pub length : ℕ
  pub line : ℕ
  pub column : ℕ

mutual
  pub data SyntaxNode : Type 0 where
    syntax_node :
        (kind : SyntaxNodeKind) (id offset length : ℕ) (children : SyntaxElems) → SyntaxNode

  pub data SyntaxElem : Type 0 where
    se_node : SyntaxNode → SyntaxElem
    se_token : SyntaxToken → SyntaxElem

  -- An array of elements.
  pub data SyntaxElems : Type 0 where
    no_elems : SyntaxElems
    one_elem : SyntaxElem → SyntaxElems → SyntaxElems

abbrev pub u32_mod : ℕ
u32_mod = 2 ^ 32

unfoldable pub count : SyntaxElems → ℕ
count no_elems = 0
count (one_elem e es) = suc (count es)

unfoldable pub join : SyntaxElems → SyntaxElems → SyntaxElems
join no_elems ds = ds
join (one_elem e es) ds = one_elem e (join es ds)

-- `items[0 .. n)` and `items[n .. count)`.
unfoldable pub items_before : ℕ → SyntaxElems → SyntaxElems
items_before zero es = no_elems
items_before (suc n) no_elems = no_elems
items_before (suc n) (one_elem e es) = one_elem e (items_before n es)

unfoldable pub items_from : ℕ → SyntaxElems → SyntaxElems
items_from zero es = es
items_from (suc n) no_elems = no_elems
items_from (suc n) (one_elem e es) = items_from n es

abbrev pub elem_offset : SyntaxElem → ℕ
elem_offset (se_node (syntax_node kind id offset length children)) = offset
elem_offset (se_token t) = t.offset

abbrev pub elem_end : SyntaxElem → ℕ
elem_end (se_node (syntax_node kind id offset length children)) = (offset + length) % u32_mod
elem_end (se_token t) = (t.offset + t.length) % u32_mod

unfoldable pub last_elem : SyntaxElem → SyntaxElems → SyntaxElem
last_elem e no_elems = e
last_elem e (one_elem d ds) = last_elem d ds

-- `make_node` on a range, and the id that its callers give to the node.
unfoldable pub make_node : ℕ → SyntaxElems → SyntaxNodeKind → SyntaxNode
make_node id no_elems kind = syntax_node kind id 0 0 no_elems
make_node id (one_elem e es) kind =
    let length = (elem_end (last_elem e es) + u32_mod - elem_offset e) % u32_mod in
    syntax_node kind id (elem_offset e) length (one_elem e es)

pub record CstBuilder : Type 0 where
  pub items : SyntaxElems
  -- the counter `g_node_id`
  pub next_id : ℕ

unfoldable pub syntax_builder_new : ℕ → CstBuilder
syntax_builder_new g = record { items = no_elems; next_id = g }

unfoldable pub builder_push : CstBuilder → SyntaxElem → CstBuilder
builder_push b e = record b { items = join b.items (one_elem e no_elems) }

unfoldable pub syntax_builder_token : CstBuilder → SyntaxToken → CstBuilder
unfolding builder_push
syntax_builder_token b t = builder_push b (se_token t)

abbrev pub syntax_builder_checkpoint : CstBuilder → ℕ
syntax_builder_checkpoint b = count b.items

-- The node returned, or none for NULL, and the builder after the call. A checkpoint below 0 is
-- taken as 0.
unfoldable pub syntax_builder_wrap :
    CstBuilder → ℕ → SyntaxNodeKind → Option SyntaxNode × CstBuilder
unfolding make_node
syntax_builder_wrap b checkpoint kind =
    if leb (count b.items) checkpoint
    then (none, b)
    else let node = make_node b.next_id (items_from checkpoint b.items) kind in
      let wrapped = join (items_before checkpoint b.items) (one_elem (se_node node) no_elems) in
      (some node, record { items = wrapped; next_id = (b.next_id + 1) % u32_mod })

-- The tree, and the counter after the call.
unfoldable pub syntax_builder_finish : CstBuilder → SyntaxNode × ℕ
unfolding make_node
syntax_builder_finish b = (make_node b.next_id b.items sn_source_file, (b.next_id + 1) % u32_mod)
