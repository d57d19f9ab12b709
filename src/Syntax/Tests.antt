-- ===== src/Syntax/Tests.antt =====
-- Runs of the builder and the highlighter, and the theorems at concrete inputs.
use arche.Base.{◌≡◌, ◌≢◌, refl, arith, List, [], ◌∷◌, length, ◌+◌, ◌%◌, some, All}
use arche.Base.{codes}
use arche.Lexer.Kind.{tok_ident, tok_plus, tok_number}
use arche.Lexer.Words.{keyword_kind}
use arche.Syntax.NodeKind.{sn_name_ref, sn_literal_expr}
use arche.Syntax.NodeKind.{sn_binary_expr, sn_block}
use arche.Syntax.Tree.{SyntaxToken, u32_mod}
use arche.Syntax.Calls.{BuilderCall, push_token, wrap_from, build, tokens_of}
use arche.Syntax.Leaves.{node_leaves, build-leaves}
use arche.Syntax.Ids.{node_ids, counting, build-counting}
use arche.Syntax.View.{no_pos, sv_first_token_pos, sv_last_token_pos}
use arche.Syntax.ViewEdges.{first_of, last_of, HasLine, token_pos-leaves}
use arche.Syntax.Spans.{NodeSpans, InOrder, build-NodeSpans}
use arche.Syntax.Category.{token_category}
use arche.Syntax.Highlight.{token_category-keyword_kind, word_category}

-- `a + 1`
abbrev a_token : SyntaxToken
a_token = record { kind = tok_ident; offset = 0; length = 1; line = 1; column = 1 }

abbrev plus_token : SyntaxToken
plus_token = record { kind = tok_plus; offset = 2; length = 1; line = 1; column = 3 }

abbrev one_token : SyntaxToken
one_token = record { kind = tok_number; offset = 4; length = 1; line = 1; column = 5 }

abbrev sum_calls : List BuilderCall
sum_calls =
    push_token a_token
    ∷ wrap_from 0 sn_name_ref
    ∷ push_token plus_token
    ∷ push_token one_token
    ∷ wrap_from 2 sn_literal_expr
    ∷ wrap_from 0 sn_binary_expr
    ∷ wrap_from 5 sn_block
    ∷ []

sum_ids : node_ids (build 7 sum_calls).0 ≡ 7 ∷ 8 ∷ 9 ∷ 10 ∷ []
unfolding node_ids build arche.Syntax.Tree.count arche.Syntax.Tree.join
    arche.Syntax.Tree.items_before arche.Syntax.Tree.items_from
sum_ids = refl

build-leaves_example : node_leaves (build 7 sum_calls).0 ≡ tokens_of sum_calls
build-leaves_example = build-leaves 7 sum_calls

build-counting_example :
    (node_ids (build 7 sum_calls).0 ≡ counting 7 (length (node_ids (build 7 sum_calls).0)))
    × ((build 7 sum_calls).1 ≡ (7 + length (node_ids (build 7 sum_calls).0)) % u32_mod)
build-counting_example = build-counting 7 sum_calls (omega arith)

sum_calls-InOrder : InOrder 0 (tokens_of sum_calls)
unfolding InOrder tokens_of
sum_calls-InOrder =
    (omega arith, omega arith, (omega arith, omega arith, (omega arith, omega arith, tt)))

sum_calls-some : tokens_of sum_calls ≢ []
unfolding tokens_of
sum_calls-some e = ground arith

build-NodeSpans_example : NodeSpans (build 7 sum_calls).0
build-NodeSpans_example = build-NodeSpans 7 sum_calls sum_calls-InOrder sum_calls-some

token_category-keyword_kind_example :
    token_category (keyword_kind (codes "match")) sn_block
    ≡ some (word_category (keyword_kind (codes "match")) sn_block)
token_category-keyword_kind_example = token_category-keyword_kind (codes "match") sn_block

sum_leaves-HasLine : All HasLine (node_leaves (build 7 sum_calls).0)
unfolding node_leaves build arche.Syntax.Tree.count arche.Syntax.Tree.join
    arche.Syntax.Tree.items_before arche.Syntax.Tree.items_from
sum_leaves-HasLine = (omega arith, (omega arith, (omega arith, tt)))

token_pos-leaves_example :
    (sv_first_token_pos (some (build 7 sum_calls).0)
      ≡ first_of no_pos (node_leaves (build 7 sum_calls).0))
    × (sv_last_token_pos (some (build 7 sum_calls).0)
        ≡ last_of no_pos (node_leaves (build 7 sum_calls).0))
token_pos-leaves_example = token_pos-leaves (build 7 sum_calls).0 sum_leaves-HasLine
