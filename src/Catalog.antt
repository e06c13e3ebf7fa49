-- ===== src/Catalog.antt =====
-- include/catalog/catalog.hpp: column types and table schemas.
use vectorized_sql_engine.Base.{ℕ, Bool, Bytes, List, Option, any, str_eq}

pub data ColumnType : Type 0 where
  int64 string : ColumnType

pub record ColumnSchema : Type 0 where
  pub name : Bytes
  pub type : ColumnType

pub record TableSchema : Type 0 where
  pub name : Bytes
  pub columns : List ColumnSchema
  pub row_count : Option ℕ

unfoldable pub has_column : TableSchema → Bytes → Bool
unfolding str_eq
has_column schema column_name = any (λ (c : ColumnSchema). str_eq c.name column_name) schema.columns
