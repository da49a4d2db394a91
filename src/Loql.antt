-- ===== src/Loql.antt =====
-- `app/loql`: the query language, from text to its parse tree.
pub mod Result
pub mod Nodes
pub mod Lexer
pub mod Tokens
pub mod Expr
pub mod Commands
pub mod Parser
pub mod Sources
mod Tests
