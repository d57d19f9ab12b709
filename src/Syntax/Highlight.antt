-- ===== src/Syntax/Highlight.antt =====
-- Highlighting (syntax/token_category.c) of what the lexer produces.
use Prim.Native.String.{String}
use arche.Base.{◌≡◌, ◌↔◌, Bool, true, false, arith, none, some, Bytes}
use arche.Lexer.Kind.{TokenKind, tok_eof, tok_error, tok_hash, tok_ident}
use arche.Lexer.Words.{keyword_kind}
use arche.Syntax.NodeKind.{SyntaxNodeKind}
use arche.Syntax.Category.{token_category, ident_role}

abbrev is_uncategorized : TokenKind → Bool
is_uncategorized tok_eof = true
is_uncategorized tok_error = true
is_uncategorized tok_hash = true
is_uncategorized _ = false

-- A token has no category exactly if it is the end mark, an error or a bare `#`.
pub token_category-none_iff :
    (k : TokenKind) (parent : SyntaxNodeKind)
    → (token_category k parent ≡ none) ↔ (is_uncategorized k ≡ true)
unfolding token_category
token_category-none_iff tok_eof parent = ground arith
token_category-none_iff _ parent = ground arith

-- Words that are no keyword.
unfoldable pub word_category : TokenKind → SyntaxNodeKind → String
unfolding ident_role
word_category tok_ident parent = ident_role parent
word_category _ parent = "keyword"

-- Every word that the lexer makes a keyword is highlighted as one; every other word takes the role
-- that its node gives it.
pub token_category-keyword_kind :
    (text : Bytes) (parent : SyntaxNodeKind)
    → token_category (keyword_kind text) parent ≡ some (word_category (keyword_kind text) parent)
unfolding token_category keyword_kind word_category
token_category-keyword_kind text parent = ground arith
