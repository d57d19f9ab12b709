-- ===== src/Lexer/Keywords.antt =====
-- The keyword table and the doc comments of lexer/lexer.c, against descriptions of their own.
use arche.Base.{true, ◌≡◌, ◌≢◌, ◌↔◌, ◌⊎◌, inl, inr, refl, sym, ◌∙◌, arith}
use arche.Base.{[], ◌∷◌, ◌++◌, Option, some, none, Bytes, codes, text_eq, text_eq_iff}
use mathlib.Core.Option
use arche.Lexer.Token.{is_doc_comment, is_inner_doc_comment}
use arche.Lexer.State.{first_or_nul}
use arche.Lexer.Words.{keyword_kind}
use arche.Lexer.Kind.{TokenKind, tok_alias, tok_archetype, tok_break, tok_continue, tok_copy}
use arche.Lexer.Kind.{tok_else, tok_enum, tok_for, tok_func, tok_ident, tok_if, tok_in}
use arche.Lexer.Kind.{tok_let, tok_map, tok_match, tok_move, tok_own, tok_policy, tok_proc}
use arche.Lexer.Kind.{tok_query, tok_return, tok_system}

-- The one spelling of each keyword.
abbrev pub keyword_text : TokenKind → Option Bytes
keyword_text tok_archetype = some (codes "arche")
keyword_text tok_proc = some (codes "proc")
keyword_text tok_map = some (codes "map")
keyword_text tok_system = some (codes "system")
keyword_text tok_query = some (codes "query")
keyword_text tok_func = some (codes "func")
keyword_text tok_policy = some (codes "policy")
keyword_text tok_enum = some (codes "enum")
keyword_text tok_match = some (codes "match")
keyword_text tok_let = some (codes "let")
keyword_text tok_for = some (codes "for")
keyword_text tok_if = some (codes "if")
keyword_text tok_else = some (codes "else")
keyword_text tok_in = some (codes "in")
keyword_text tok_break = some (codes "break")
keyword_text tok_continue = some (codes "continue")
keyword_text tok_move = some (codes "move")
keyword_text tok_own = some (codes "own")
keyword_text tok_copy = some (codes "copy")
keyword_text tok_alias = some (codes "alias")
keyword_text tok_return = some (codes "return")
keyword_text _ = none

Spelled : Bytes → TokenKind → Type 0
Spelled text k = (k ≡ tok_ident) ⊎ (keyword_text k ≡ some text)

keyword_kind-Spelled : (text : Bytes) → Spelled text (keyword_kind text)
unfolding keyword_kind Spelled
keyword_kind-Spelled text = ground (
  arith,
  text_eq_iff text (codes "arche"),
  text_eq_iff text (codes "proc"),
  text_eq_iff text (codes "map"),
  text_eq_iff text (codes "system"),
  text_eq_iff text (codes "query"),
  text_eq_iff text (codes "func"),
  text_eq_iff text (codes "policy"),
  text_eq_iff text (codes "enum"),
  text_eq_iff text (codes "match"),
  text_eq_iff text (codes "let"),
  text_eq_iff text (codes "for"),
  text_eq_iff text (codes "if"),
  text_eq_iff text (codes "else"),
  text_eq_iff text (codes "in"),
  text_eq_iff text (codes "break"),
  text_eq_iff text (codes "continue"),
  text_eq_iff text (codes "move"),
  text_eq_iff text (codes "own"),
  text_eq_iff text (codes "copy"),
  text_eq_iff text (codes "alias"),
  text_eq_iff text (codes "return"),
)

spelled_back :
    (k : TokenKind)
    → Option.map keyword_kind (keyword_text k) ≡ Option.map (λ _. k) (keyword_text k)
unfolding keyword_kind text_eq
spelled_back tok_ident = refl
spelled_back _ = refl

keyword_text-keyword :
    (k : TokenKind) (text : Bytes) → keyword_text k ≡ some text → keyword_kind text ≡ k
keyword_text-keyword k text e =
    let found : some (keyword_kind text) ≡ some k = rw e at (spelled_back k) in cc

-- A text is lexed as a keyword exactly if it is the one spelling of that keyword.
pub keyword_kind-eq_iff :
    (text : Bytes) (k : TokenKind)
    → k ≢ tok_ident
    → (keyword_kind text ≡ k) ↔ (keyword_text k ≡ some text)
unfolding Spelled
keyword_kind-eq_iff text k ne = (
  λ e. elim (keyword_kind-Spelled text) [
    | inl ident ↦ absurd (ne (sym e ∙ ident))
    | inr spelled ↦ rw e at spelled
  ],
  keyword_text-keyword k text,
)

-- A comment documents what follows it exactly if it begins with three slashes and no fourth.
pub is_doc_comment_iff :
    (text : Bytes)
    → (is_doc_comment text ≡ true)
      ↔ ((rest : Bytes) × (text ≡ codes "///" ++ rest) × (first_or_nul rest ≢ b'/'))
unfolding is_doc_comment
is_doc_comment_iff [] = (λ e. cc, λ (r, e, n). cc)
is_doc_comment_iff (a ∷ []) = (λ e. ground arith, λ (r, e, n). cc)
is_doc_comment_iff (a ∷ b ∷ []) = (λ e. ground arith, λ (r, e, n). cc)
is_doc_comment_iff (a ∷ b ∷ c ∷ []) =
    (λ e. ([], ground arith, ground arith), λ (r, e, n). ground arith)
is_doc_comment_iff (a ∷ b ∷ c ∷ d ∷ rest) =
    (λ e. (d ∷ rest, ground arith, ground arith), λ (r, e, n). ground arith)

-- A comment documents its module exactly if it begins with two slashes and an exclamation mark.
pub is_inner_doc_comment_iff :
    (text : Bytes)
    → (is_inner_doc_comment text ≡ true) ↔ ((rest : Bytes) × (text ≡ codes "//!" ++ rest))
unfolding is_inner_doc_comment
is_inner_doc_comment_iff [] = (λ e. cc, λ (r, e). cc)
is_inner_doc_comment_iff (a ∷ []) = (λ e. ground arith, λ (r, e). cc)
is_inner_doc_comment_iff (a ∷ b ∷ []) = (λ e. ground arith, λ (r, e). cc)
is_inner_doc_comment_iff (a ∷ b ∷ c ∷ rest) = (λ e. (rest, ground arith), λ (r, e). ground arith)
