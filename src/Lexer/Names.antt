-- ===== src/Lexer/Names.antt =====
-- The names of token kinds (`token_kind_name` of lexer/lexer.c): which kinds a name tells apart.
use Prim.Native.String.{String}
use text.Mathlib.Text.{◌==◌}
use arche.Base.{Bool, true, false, ◌≡◌, ◌↔◌, ◌≢◌, Bool-cases, inl, inr, refl, sym, ap, ◌∙◌}
use arche.Base.{arith}
use arche.Base.{List, [], ◌∷◌, Option, some, none, if◌then◌else◌}
use arche.Lexer.Kind.{TokenKind, token_kind_name, tok_eof, tok_error, tok_ident, tok_number}
use arche.Lexer.Kind.{tok_string, tok_char_lit, tok_comment, tok_archetype, tok_proc, tok_map}
use arche.Lexer.Kind.{tok_system, tok_query, tok_func, tok_let, tok_for, tok_if, tok_else}
use arche.Lexer.Kind.{tok_in, tok_break, tok_continue, tok_move, tok_own, tok_copy, tok_alias}
use arche.Lexer.Kind.{tok_return, tok_use, tok_each_field, tok_run, tok_enum, tok_match}
use arche.Lexer.Kind.{tok_policy, tok_lparen, tok_rparen, tok_lbrace, tok_rbrace, tok_lbracket}
use arche.Lexer.Kind.{tok_rbracket, tok_comma, tok_dot, tok_dotdotdot, tok_colon, tok_semi}
use arche.Lexer.Kind.{tok_at, tok_hash, tok_hash_module, tok_hash_file, tok_hash_foreign}
use arche.Lexer.Kind.{tok_hash_link, tok_hash_cflags, tok_hash_run, tok_eq, tok_plus_eq}
use arche.Lexer.Kind.{tok_minus_eq, tok_star_eq, tok_slash_eq, tok_percent_eq, tok_plus}
use arche.Lexer.Kind.{tok_minus, tok_star, tok_slash, tok_percent, tok_eq_eq, tok_bang_eq}
use arche.Lexer.Kind.{tok_lt, tok_gt, tok_lt_eq, tok_gt_eq, tok_amp_amp, tok_pipe_pipe}
use arche.Lexer.Kind.{tok_pipe_gt, tok_arrow, tok_bang, tok_question}

-- The kinds that the switch leaves out.
abbrev pub is_unnamed : TokenKind → Bool
is_unnamed tok_else = true
is_unnamed tok_use = true
is_unnamed tok_run = true
is_unnamed tok_pipe_gt = true
is_unnamed _ = false

abbrev all_kinds : List TokenKind
all_kinds =
    tok_eof ∷ tok_error ∷ tok_ident ∷ tok_number ∷ tok_string ∷ tok_char_lit ∷ tok_comment
    ∷ tok_archetype ∷ tok_proc ∷ tok_map ∷ tok_system ∷ tok_query ∷ tok_func ∷ tok_let ∷ tok_for
    ∷ tok_if ∷ tok_else ∷ tok_in ∷ tok_break ∷ tok_continue ∷ tok_move ∷ tok_own ∷ tok_copy
    ∷ tok_alias ∷ tok_return ∷ tok_use ∷ tok_each_field ∷ tok_run ∷ tok_enum ∷ tok_match
    ∷ tok_policy ∷ tok_lparen ∷ tok_rparen ∷ tok_lbrace ∷ tok_rbrace ∷ tok_lbracket ∷ tok_rbracket
    ∷ tok_comma ∷ tok_dot ∷ tok_dotdotdot ∷ tok_colon ∷ tok_semi ∷ tok_at ∷ tok_hash
    ∷ tok_hash_module ∷ tok_hash_file ∷ tok_hash_foreign ∷ tok_hash_link ∷ tok_hash_cflags
    ∷ tok_hash_run ∷ tok_eq ∷ tok_plus_eq ∷ tok_minus_eq ∷ tok_star_eq ∷ tok_slash_eq
    ∷ tok_percent_eq ∷ tok_plus ∷ tok_minus ∷ tok_star ∷ tok_slash ∷ tok_percent ∷ tok_eq_eq
    ∷ tok_bang_eq ∷ tok_lt ∷ tok_gt ∷ tok_lt_eq ∷ tok_gt_eq ∷ tok_amp_amp ∷ tok_pipe_pipe
    ∷ tok_pipe_gt ∷ tok_arrow ∷ tok_bang ∷ tok_question ∷ []

named_in : List TokenKind → String → Option TokenKind
named_in [] name = none
named_in (k ∷ ks) name = if token_kind_name k == name then some k else named_in ks name

named_in-name :
    (k : TokenKind) → is_unnamed k ≡ false → named_in all_kinds (token_kind_name k) ≡ some k
unfolding named_in token_kind_name
named_in-name tok_else h = cc
named_in-name tok_use h = cc
named_in-name tok_run h = cc
named_in-name tok_pipe_gt h = cc
named_in-name _ h = refl

unnamed-name : (k : TokenKind) → is_unnamed k ≡ true → token_kind_name k ≡ "TOK_UNKNOWN"
unfolding token_kind_name
unnamed-name _ h = ground arith

-- A name tells which kind it was, unless the kind is one of the four that have none.
pub token_kind_name_injective :
    (a b : TokenKind)
    → is_unnamed a ≡ false
    → is_unnamed b ≡ false
    → token_kind_name a ≡ token_kind_name b
    → a ≡ b
token_kind_name_injective a b ha hb e =
    cc (named_in-name a ha, named_in-name b hb, ap (named_in all_kinds) e)

named_in-unknown : named_in all_kinds "TOK_UNKNOWN" ≡ some tok_else
unfolding named_in token_kind_name
named_in-unknown = refl

named-name : (k : TokenKind) → is_unnamed k ≡ false → token_kind_name k ≢ "TOK_UNKNOWN"
named-name k h e =
    let found : some k ≡ some tok_else =
      sym (named_in-name k h) ∙ ap (named_in all_kinds) e ∙ named_in-unknown in
    ground arith

-- Exactly the kinds of `else`, `#import`, `|>` and the retired `run` have no name of their own.
pub token_kind_name-unknown_iff :
    (k : TokenKind) → (token_kind_name k ≡ "TOK_UNKNOWN") ↔ (is_unnamed k ≡ true)
token_kind_name-unknown_iff k = (
  λ e. elim (Bool-cases (is_unnamed k)) [ inl t ↦ t | inr f ↦ absurd (named-name k f e) ],
  unnamed-name k,
)
