-- ===== src/Parser/Shared.antt =====
-- What the routines of parser/parser.c are written with, passed on to the files that model them.
pub use arche.Base.{ℕ, Bool, true, false, not, ◌&&◌, ◌||◌, if◌then◌else◌, ◌+◌, ltb, suc, ◌==◌}
pub use arche.Parser.Monad.{Stage, fresh, inside, moved, ended, Begun, fresh_begun, inside_begun}
pub use arche.Parser.Monad.{moved_begun, M, ◌>>=◌, ◌>>◌, done, fail, stop, reads, orelse, attempt}
pub use arche.Parser.Monad.{forget, when, branch}
unfoldable pub use arche.Parser.Recursion.{call, call_first, loop, each}
pub use arche.Parser.Procs.{Procs, TypeForm}
pub use arche.Parser.Routines.{report, refuse, syntax_wrap, syntax_cp, drain_pending_trivia}
pub use arche.Parser.Routines.{set_depth, set_no_brace_lit, set_in_foreign, check, if_state, if_at}
pub use arche.Parser.Routines.{
  if_spells, current_spells, cur_ident_is, synchronize_here, on, expect,
}
pub use arche.Parser.Routines.{take, match, accept, expect_or_report, repeat, comma_list, commas}
pub use arche.Parser.Routines.{while_each, if_closed, optional_list, trailing_list, ignore}
pub use arche.Lexer.Kind.{TokenKind}
unfoldable pub use arche.Parser.Kinds.{is}
pub use arche.Syntax.NodeKind.{SyntaxNodeKind}
