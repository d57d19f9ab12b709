-- ===== src/Lexer.antt =====
-- lexer/lexer.c and lexer/lexer.h: from source bytes to tokens.
pub mod Kind
pub mod Token
pub mod State
pub mod Words
pub mod Literals
pub mod Next
pub mod Moves
pub mod Loops
pub mod Spans
pub mod Routines
pub mod Stream
pub mod Tokenize
pub mod IntLit
pub mod IntPrefix
pub mod IntValue
pub mod Names
pub mod Keywords
pub mod WordRun
pub mod StringRun
pub mod NumberRun
pub mod CommentRun
mod Tests
