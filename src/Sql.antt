-- ===== src/Sql.antt =====
-- include/sql and src/sql: the vocabulary of SQL that the bound plan keeps, and the lexer.
pub mod Ast
