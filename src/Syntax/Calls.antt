-- ===== src/Syntax/Calls.antt =====
-- Sequences of calls of the builder (syntax/syntax_tree.c), and the lemmas on arrays of elements
-- that what holds after every sequence of calls rests on.
use arche.Base.{ℕ, zero, suc, ◌<◌, ◌≡◌, refl, ap, arith, List, [], ◌∷◌}
use arche.Syntax.NodeKind.{SyntaxNodeKind}
use arche.Syntax.Tree.{SyntaxToken, SyntaxNode, SyntaxElem, SyntaxElems, no_elems, one_elem}
use arche.Syntax.Tree.{CstBuilder, syntax_builder_new, syntax_builder_token}
use arche.Syntax.Tree.{syntax_builder_wrap}
use arche.Syntax.Tree.{syntax_builder_finish, count, join, items_before, items_from}

pub data BuilderCall : Type 0 where
  push_token : SyntaxToken → BuilderCall
  wrap_from : (checkpoint : ℕ) → SyntaxNodeKind → BuilderCall

unfoldable pub perform : CstBuilder → BuilderCall → CstBuilder
unfolding syntax_builder_token syntax_builder_wrap
perform b (push_token t) = syntax_builder_token b t
perform b (wrap_from checkpoint kind) = (syntax_builder_wrap b checkpoint kind).1

unfoldable pub perform_all : CstBuilder → List BuilderCall → CstBuilder
unfolding perform
perform_all b [] = b
perform_all b (c ∷ cs) = perform_all (perform b c) cs

-- The tree, and the counter of ids, at the end of a parse that begins with the counter at `g`.
unfoldable pub build : ℕ → List BuilderCall → SyntaxNode × ℕ
unfolding perform_all syntax_builder_new syntax_builder_finish
build g cs = syntax_builder_finish (perform_all (syntax_builder_new g) cs)

unfoldable pub tokens_of : List BuilderCall → List SyntaxToken
tokens_of [] = []
tokens_of (push_token t ∷ cs) = t ∷ tokens_of cs
tokens_of (wrap_from checkpoint kind ∷ cs) = tokens_of cs

pub join_before_from : (n : ℕ) (es : SyntaxElems) → join (items_before n es) (items_from n es) ≡ es
unfolding join items_before items_from
join_before_from zero es = refl
join_before_from (suc n) no_elems = refl
join_before_from (suc n) (one_elem e es) = ap (one_elem e) (join_before_from n es)

-- A checkpoint below the count leaves an element to wrap.
pub items_from-some :
    (n : ℕ) (es : SyntaxElems)
    → n < count es
    → (e : SyntaxElem) × (ds : SyntaxElems) × (items_from n es ≡ one_elem e ds)
unfolding count items_from
items_from-some n no_elems h = absurd (omega arith)
items_from-some zero (one_elem e es) h = (e, es, refl)
items_from-some (suc n) (one_elem e es) h = items_from-some n es (omega arith)
