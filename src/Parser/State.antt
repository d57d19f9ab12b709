-- ===== src/Parser/State.antt =====
-- parser/parser.c: the `Parser` struct, the trivia it gathers, `advance`, `error` and `synchronize`,
-- and the tests that it makes on the builder. The builder is always there, as `parser_init` makes it.
use arche.Base.{ℕ, zero, suc, ◌+◌, ◌-◌, ◌%◌, Bool, true, false, List, [], ◌∷◌, ◌++◌}
use arche.Base.{Option, none, some, leb, ltb, ◌==◌, if◌then◌else◌, Bytes, take, drop, text_eq}
use arche.Base.{codes}
use arche.Base.Int.{ℤ}
use Prim.Native.String.{String}
use arche.Lexer.Kind.{TokenKind, tok_eof, tok_error, tok_comment, tok_semi, tok_archetype}
use arche.Lexer.Kind.{tok_proc, tok_map, tok_system, tok_func, tok_let, tok_for}
use arche.Lexer.Token.{Token, Trivia, Start, offset, message, trivia_line_comment}
use arche.Lexer.Token.{trivia_blank_lines, nonneg}
use arche.Lexer.State.{Lexer}
use arche.Lexer.Next.{next_token, is_eof}
use arche.Syntax.NodeKind.{SyntaxNodeKind, sn_error}
use arche.Syntax.Tree.{SyntaxToken, syntax_node, se_node}
use arche.Syntax.Tree.{SyntaxElems, no_elems, one_elem, CstBuilder, syntax_builder_token}
use arche.Syntax.Tree.{syntax_builder_wrap, syntax_builder_new, items_from, u32_mod}

pub record ParseError : Type 0 where
  pub text : String
  pub line : ℕ
  pub column : ℕ

pub record Parser : Type 0 where
  pub lexer : Lexer
  pub current : Token
  pub previous : Token
  pub had_error : Bool
  pub panic_mode : Bool
  pub errors : List ParseError
  pub pending_trivia : List Trivia
  pub recursion_depth : ℤ
  pub no_brace_lit : Bool
  pub in_foreign : Bool
  pub builder : CstBuilder

-- The line of a trivia, and behind a run of blank lines the line after it.
unfoldable pub line_behind : Trivia → ℕ
line_behind t = elim t.kind [ trivia_blank_lines ↦ t.line + t.blank_count | _ ↦ t.line ]

unfoldable pub trivia_anchor_line : List Trivia → ℕ → ℕ
unfolding line_behind
trivia_anchor_line [] prev_line = prev_line
trivia_anchor_line (t ∷ ts) prev_line = trivia_anchor_line ts (line_behind t)

unfoldable pub maybe_append_blank_trivia : List Trivia → ℕ → ℕ → List Trivia
maybe_append_blank_trivia pending anchor next =
    if anchor == 0
    then pending
    else if leb next (anchor + 1)
    then pending
    else pending
      ++ record {
        kind = trivia_blank_lines;
        start = none;
        length = 0;
        line = anchor + 1;
        column = 1;
        blank_count = next - anchor - 1;
      }
        ∷ []

unfoldable pub comment_trivia : Token → Trivia
comment_trivia t = record {
  kind = trivia_line_comment;
  start = some t.start;
  length = t.length;
  line = t.line;
  column = t.column;
  blank_count = 0;
}

-- The leaf of a token. One whose `start` is a message is not in the source, and has none.
unfoldable pub leaf_of : Token → Start → Option SyntaxToken
leaf_of t (offset n) = some (record {
  kind = t.kind;
  offset = n % u32_mod;
  length = t.length % u32_mod;
  line = t.line;
  column = t.column;
})
leaf_of t (message text) = none

-- The leaf that `advance` emits for the token it consumes.
unfoldable pub leaf : Token → Option SyntaxToken
unfolding leaf_of
leaf t = elim t.kind [ tok_eof ↦ none | tok_error ↦ none | _ ↦ leaf_of t t.start ]

unfoldable pub emit : Option SyntaxToken → CstBuilder → CstBuilder
unfolding syntax_builder_token
emit none b = b
emit (some t) b = syntax_builder_token b t

-- The text of a token that is in the source is `kw`, as a comparison of its length and `strncmp` say.
unfoldable pub spells : String → Bytes → Token → Bool
spells kw src t = elim t.start [
  | offset n ↦ text_eq (take t.length (drop n src)) (codes kw)
  | message text ↦ text_eq text (codes kw)
]

abbrev pub is_comment : TokenKind → Bool
is_comment tok_comment = true
is_comment _ = false

abbrev pub is_error : TokenKind → Bool
is_error tok_error = true
is_error _ = false

abbrev pub as_eof : Token → Token
as_eof t = record t { kind = tok_eof }

-- `current = lexer_next_token(lexer)`.
unfoldable pub fetch : Parser → Parser
fetch p = let (tok, l) = next_token p.lexer in record p { current = tok; lexer = l }

-- A comment that is the current token becomes a leaf and a trivia.
unfoldable pub keep_comment : ℕ → Parser → Parser
unfolding emit leaf leaf_of trivia_anchor_line maybe_append_blank_trivia comment_trivia
keep_comment prev_line p =
    let t = p.current in
    let anchor = trivia_anchor_line p.pending_trivia prev_line in
    record p {
      builder = emit (leaf t) p.builder;
      pending_trivia =
          maybe_append_blank_trivia p.pending_trivia anchor t.line ++ comment_trivia t ∷ [];
    }

-- The loop over comments, with the rounds of MAX_COMMENT_LOOP that are left.
unfoldable pub skip_comments : ℕ → ℕ → Parser → Parser
skip_comments zero prev_line p =
    if is_comment p.current.kind
    then record p { had_error = true; current = as_eof p.current }
    else p
skip_comments (suc rounds) prev_line p =
    let more = skip_comments rounds prev_line (fetch (keep_comment prev_line p)) in
    if is_comment p.current.kind then more else p

-- What `advance` does behind the loop.
unfoldable pub note_blanks : ℕ → Parser → Parser
unfolding trivia_anchor_line maybe_append_blank_trivia
note_blanks prev_line p =
    let anchor = trivia_anchor_line p.pending_trivia prev_line in
    let blanks = maybe_append_blank_trivia p.pending_trivia anchor p.current.line in
    record p {
      pending_trivia = if is_eof p.current.kind then p.pending_trivia else blanks;
      had_error = if is_error p.current.kind then true else p.had_error;
    }

abbrev pub max_comment_loop : ℕ
max_comment_loop = 1000

-- The consumed token becomes a leaf and the previous token.
unfoldable pub consume : Parser → Parser
unfolding emit leaf leaf_of
consume p = record p { builder = emit (leaf p.current) p.builder; previous = p.current }

unfoldable pub advance : Parser → Parser
advance p =
    let line = p.current.line in
    note_blanks line (skip_comments max_comment_loop line (fetch (consume p)))

-- The kinds at which `synchronize` stops.
abbrev pub begins_construct : TokenKind → Bool
begins_construct tok_archetype = true
begins_construct tok_proc = true
begins_construct tok_map = true
begins_construct tok_system = true
begins_construct tok_func = true
begins_construct tok_let = true
begins_construct tok_for = true
begins_construct _ = false

abbrev pub is_semi : TokenKind → Bool
is_semi tok_semi = true
is_semi _ = false

-- The loop of `synchronize`, with the rounds of MAX_SYNC_LOOP that are left.
unfoldable pub sync_loop : ℕ → Parser → Parser
sync_loop zero p =
    if is_eof p.current.kind then p else record p { had_error = true; current = as_eof p.current }
sync_loop (suc rounds) p =
    let more = sync_loop rounds (advance p) in
    if is_eof p.current.kind
    then p
    else if is_semi p.previous.kind
    then p
    else if begins_construct p.current.kind
    then p
    else more

abbrev pub max_sync_loop : ℕ
max_sync_loop = 1000

-- `synchronize` up to its loop: the panic ends, and the offending token is consumed.
unfoldable pub skip_offending : Parser → Parser
skip_offending p =
    let q = record p { panic_mode = false } in if is_eof q.current.kind then q else advance q

unfoldable pub synchronize : Parser → Parser
synchronize p = sync_loop max_sync_loop (skip_offending p)

unfoldable pub error : String → Parser → Parser
error msg p = if p.panic_mode then p else record p {
  panic_mode = true;
  had_error = true;
  errors = p.errors ++ record { text = msg; line = p.current.line; column = p.current.column } ∷ [];
}

unfoldable pub wrap : ℕ → SyntaxNodeKind → Parser → Parser
unfolding syntax_builder_wrap
wrap checkpoint kind p = record p { builder = (syntax_builder_wrap p.builder checkpoint kind).1 }

-- The kind of the node, if the elements are one node.
unfoldable pub lone_kind : SyntaxElems → Option SyntaxNodeKind
lone_kind (one_elem (se_node (syntax_node kind id at length children)) no_elems) = some kind
lone_kind _ = none

unfoldable pub syntax_single_node_kind : ℕ → Parser → SyntaxNodeKind
unfolding lone_kind items_from
syntax_single_node_kind checkpoint p = elim (lone_kind (items_from checkpoint p.builder.items)) [
  | none ↦ sn_error
  | some kind ↦ kind
]

unfoldable pub syntax_single_node : ℕ → Parser → Bool
unfolding lone_kind items_from
syntax_single_node checkpoint p = elim (lone_kind (items_from checkpoint p.builder.items)) [
  | none ↦ false
  | some kind ↦ true
]

-- The token of an all-zero struct.
abbrev pub no_token : Token
no_token = record {
  kind = tok_eof;
  start = offset 0;
  length = 0;
  line = 0;
  column = 0;
  int_val = nonneg 0;
  leading_trivia = [];
}

-- The parser of `parser_init` before its `advance`, with the counter of node ids at `g`.
unfoldable pub new_parser : ℕ → Lexer → Parser
unfolding syntax_builder_new
new_parser g l = record {
  lexer = l;
  current = no_token;
  previous = no_token;
  had_error = false;
  panic_mode = false;
  errors = [];
  pending_trivia = [];
  recursion_depth = ℤ.pos 0;
  no_brace_lit = false;
  in_foreign = false;
  builder = syntax_builder_new g;
}

unfoldable pub parser_create : ℕ → Lexer → Parser
parser_create g l = advance (new_parser g l)

-- `recursion_depth++`, `recursion_depth--`, and whether it is above MAX_RECURSION_DEPTH.
abbrev pub deeper : ℤ → ℤ
deeper (ℤ.pos n) = ℤ.pos (n + 1)
deeper (ℤ.negsuc zero) = ℤ.pos 0
deeper (ℤ.negsuc (suc n)) = ℤ.negsuc n

abbrev pub shallower : ℤ → ℤ
shallower (ℤ.pos zero) = ℤ.negsuc 0
shallower (ℤ.pos (suc n)) = ℤ.pos n
shallower (ℤ.negsuc n) = ℤ.negsuc (n + 1)

abbrev pub too_deep : ℤ → Bool
too_deep (ℤ.pos n) = ltb 1000 n
too_deep (ℤ.negsuc n) = false
