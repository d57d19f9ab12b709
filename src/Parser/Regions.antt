-- ===== src/Parser/Regions.antt =====
-- parser/parser.c: regions, imports, decorators and `parse_decl`.
use Prim.Native.String.{String}
use arche.Parser.Shared.{ℕ, Bool, true, false, ◌||◌, if◌then◌else◌, ◌+◌, ◌==◌, Stage, inside}
use arche.Parser.Shared.{moved, Begun, fresh_begun, inside_begun, moved_begun, M, ◌>>=◌, ◌>>◌}
use arche.Parser.Shared.{done, stop, reads, orelse, when, call, call_first, loop, Procs, refuse}
use arche.Parser.Shared.{syntax_wrap, drain_pending_trivia, set_in_foreign, if_state, if_at}
use arche.Parser.Shared.{if_spells, on, expect, take, repeat, commas, while_each, if_closed}
use arche.Parser.Shared.{TokenKind, is, SyntaxNodeKind}
use arche.Lexer.Kind.{tok_eof, tok_ident, tok_number, tok_string, tok_proc, tok_func, tok_use}
use arche.Lexer.Kind.{tok_policy, tok_lparen, tok_rparen, tok_lbrace, tok_rbrace, tok_lbracket}
use arche.Lexer.Kind.{tok_comma, tok_dot, tok_at, tok_hash_module, tok_hash_file}
use arche.Lexer.Kind.{tok_hash_foreign}
use arche.Lexer.Kind.{tok_hash_link, tok_hash_cflags, tok_hash_run}
use arche.Syntax.NodeKind.{sn_default_decl, sn_use_decl, sn_region, sn_run_decl, sn_error}
use arche.Parser.Decls.{parse_static_decl}

module _ {n : ℕ} (r : Procs n) {o : ℕ} where
  -- A declaration with its node, from the checkpoint `cp`.
  unfoldable pub decl_item : ℕ → M n o inside moved (Unit {0})
  decl_item cp = do drain_pending_trivia; kind ← call_first r.decl; syntax_wrap cp kind

module _ {n : ℕ} (r : Procs n) {o : ℕ} where
  -- Behind the marker, which may be `#foreign`.
  unfoldable pub parse_region : Bool → M n o moved moved SyntaxNodeKind
  parse_region is_foreign = do
    saved ← reads (λ p. p.in_foreign)
    on tok_lbrace
        (do
          if is_foreign then set_in_foreign true else done tt
          while_each tok_rbrace (λ o cp. decl_item r cp) (λ o cp. syntax_wrap cp sn_error)
          set_in_foreign saved
          expect tok_rbrace "Expected '}' to close the region block")
        (if is_foreign then set_in_foreign true else done tt)
    done sn_region

-- Behind `#link` or `#cflags`.
unfoldable pub parse_link_region : {n o : ℕ} → M n o moved moved SyntaxNodeKind
parse_link_region = do
  expect tok_lbrace "expected `{ \"lib\" ... }` after `#link`"
  if_at tok_rbrace (refuse "empty `#link { }` — list one or more quoted system-library names")
      (done tt)
  repeat λ o again. if_closed tok_rbrace (stop tt) (do
    expect tok_string "expected a quoted system-library name in `#link { ... }` (e.g. \"X11\")"
    again)
  expect tok_rbrace "Expected '}' to close `#link { ... }`"
  done sn_region

module _ {n : ℕ} (r : Procs n) {o : ℕ} where
  -- Behind `#run`.
  unfoldable pub parse_run_region : M n o moved moved SyntaxNodeKind
  parse_run_region = do
    on tok_lbrace
        (do
          if_at tok_rbrace (refuse "empty `#run { }` — list one or more Schedule expressions")
              (done tt)
          repeat λ o again.
              if_closed tok_rbrace (stop tt)
                (call_first r.expression >> on tok_comma again (stop tt))
          expect tok_rbrace "expected '}' to close `#run { ... }`")
        (orelse (call r.expression) (refuse "expected a Schedule expression after `#run`"))
    done sn_run_decl

abbrev names_module : TokenKind → Bool
names_module k = is tok_ident k || is tok_string k

-- Behind the `{` of an `#import`.
unfoldable pub import_block : {n o : ℕ} → M n o moved moved (Unit {0})
import_block = do
  if_at tok_rbrace (refuse "empty `#import { }` — list one or more module names") (done tt)
  repeat λ o again. if_closed tok_rbrace (stop tt) (
      when names_module again
        (refuse "expected a device name or a \"path\" string in `#import { ... }`"))
  expect tok_rbrace "Expected '}' to close `#import { ... }`"

-- The names of a bare `#import`, and how many there are.
unfoldable pub import_names : {n o : ℕ} → ℕ → M n o moved moved ℕ
import_names = loop λ o again k. when names_module (again (k + 1)) (stop k)

-- Behind `#import`.
unfoldable pub import_decl : {n o : ℕ} → M n o moved moved SyntaxNodeKind
import_decl = do
  on tok_lbrace import_block (do
    k ← import_names 0
    if k == 0 then refuse "Expected a module name after `#import`" else done tt
    if_at tok_eof (done tt) (
        refuse
          "a bare `#import` region runs to end of file — everything below it must be a module name; use `#import { ... }` to import alongside other declarations"))
  done sn_use_decl

-- `(token)` behind the name of a decorator.
unfoldable pub decorator_argument :
    {n o : ℕ} → TokenKind → String → String → String → M n o moved moved Bool
decorator_argument k before argument behind = do
  expect tok_lparen before
  expect k argument
  expect tok_rparen behind
  done false

-- Behind `@default`; the only decorator that is a declaration by itself.
unfoldable pub default_directive : {n o : ℕ} → M n o moved moved Bool
default_directive = do
  expect tok_lparen "Expected '(' after @default — e.g. @default(proc, bounds, abort)"
  when (λ k. is tok_proc k || is tok_func k) (done tt)
      (refuse "Expected an effect kind (proc or func) as the first @default argument")
  expect tok_comma "Expected ',' after the effect kind in @default(...)"
  expect tok_ident "Expected a category (bounds, divide, or pool) in @default(...)"
  expect tok_comma "Expected ',' after the category in @default(...)"
  expect tok_ident "Expected a policy name in @default(...)"
  expect tok_rparen "Expected ')' to close @default(...)"
  done true

-- A requirement `device.req` that a declaration implements.
unfoldable pub requirement : {n o : ℕ} → M n o inside moved (Unit {0})
requirement = do
  expect tok_ident "Expected a device requirement name inside @implements(...)"
  repeat λ o again.
      on tok_dot (expect tok_ident "Expected an identifier after `.` in @implements(...)" >> again)
        (stop tt)

-- Behind `@implements`.
unfoldable pub implements_directive : {n o : ℕ} → M n o moved moved Bool
implements_directive = do
  expect tok_lparen
      "Expected '(' after @implements — name a device requirement, e.g. @implements(physics.foo)"
  commas (λ o. requirement)
  expect tok_rparen "Expected ')' to close @implements(...)"
  done false

-- A decorator that is an identifier.
unfoldable pub named_decorator : {n o : ℕ} → M n o inside moved Bool
named_decorator = if_spells "allow_pure_proc" (take tok_ident >> done false) (
    if_spells "intrinsic" (take tok_ident >> done false) (
      if_spells "gpu" (take tok_ident >> done false) (
        if_spells "resident" (take tok_ident >> done false) (
          if_spells "default" (take tok_ident >> default_directive) (
            if_spells "drop"
              (do
                take tok_ident
                decorator_argument tok_ident
                    "Expected '(' after @drop — name the opaque type, e.g. @drop(socket)"
                    "Expected an opaque type name inside @drop(...)"
                    "Expected ')' to close @drop(...)")
              (if_spells "syscall"
                (do
                  take tok_ident
                  decorator_argument tok_number
                      "Expected '(' after @syscall — give the syscall number, e.g. @syscall(0)"
                      "Expected a syscall number inside @syscall(...)"
                      "Expected ')' to close @syscall(...)")
                (if_spells "allow"
                  (do
                    take tok_ident
                    decorator_argument tok_ident "Expected '(' after @allow"
                        "Expected diagnostic slug inside @allow(...)"
                        "Expected ')' to close @allow(...)")
                  (if_spells "implements" (take tok_ident >> implements_directive) (
                    refuse
                      "Unknown decorator (recognized: @allow_pure_proc, @allow(<slug>), @drop(<type>), @intrinsic, @gpu, @implements(<device>.<req>, …), @policy(<category>))")))))))))

-- A decorator behind its `@`; whether it is a declaration by itself.
unfoldable pub decorator : {n o : ℕ} → M n o inside moved Bool
decorator =
    on tok_policy
      (decorator_argument tok_ident
        "Expected '(' after @policy — name the category, e.g. @policy(bounds)"
        "Expected a category (bounds, pool, or divide) inside @policy(...)"
        "Expected ')' to close @policy(...)")
      (if_at tok_ident named_decorator (refuse "Expected decorator name after '@'"))

-- Behind the first `@`; whether the last decorator is a declaration by itself.
unfoldable pub decorators : {n o : ℕ} → M n o moved moved Bool
decorators =
    loop
      (λ o again _. do
        is_default ← decorator
        if is_default then stop true else on tok_at (again tt) (stop false))
      tt

module _ {n : ℕ} (r : Procs n) {o : ℕ} {i : Stage} ⦃b : Begun i⦄ where
  -- The `switch` of `parse_decl`.
  unfoldable pub decl_form : M n o i moved SyntaxNodeKind
  decl_form = on tok_use import_decl (
      on tok_hash_module (parse_region r false) (
        on tok_hash_file (parse_region r false) (
          on tok_hash_foreign (parse_region r true) (
            on tok_hash_link parse_link_region (
              on tok_hash_cflags parse_link_region (
                on tok_hash_run (parse_run_region r) (
                  if_state (λ p. is tok_ident p.current.kind || is tok_lbracket p.current.kind)
                    (orelse (parse_static_decl r) (refuse "Expected declaration"))
                    (refuse "Expected declaration"))))))))

module _ {n : ℕ} (r : Procs n) {o : ℕ} {i : Stage} ⦃b : Begun i⦄ where
  unfoldable pub parse_decl : M n o i moved SyntaxNodeKind
  parse_decl =
      on tok_at
        (do is_default ← decorators; if is_default then done sn_default_decl else decl_form r)
        (decl_form r)
