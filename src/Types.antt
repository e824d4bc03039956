-- ===== src/Types.antt =====
-- lib/types.ts: the values, filters and orders that the views and the backend exchange. A number is
-- modelled by the text that `String` prints for it, and an unknown JSON value by its JSON text.
use basemaster.Base.{ℕ, String, Bool, Option, List}
use basemaster.Base.Text.{Text}

pub data Value : Type 0 where
  null : Value
  bool : Bool → Value
  int u_int float : Text → Value
  decimal string date time date_time timestamp : Text → Value
  bytes : List ℕ → Value
  json : Text → Value

pub data SortDir : Type 0 where
  asc desc : SortDir

pub record OrderBy : Type 0 where
  pub column : Text
  pub direction : SortDir

pub data FilterOp : Type 0 where
  eq not_eq gt lt gte lte : FilterOp
  contains not_contains begins_with not_begins_with ends_with not_ends_with : FilterOp
  is_null is_not_null is_empty is_not_empty : FilterOp
  between not_between in_list not_in custom : FilterOp

-- `value?: Value | null` is `none` for both `undefined` and `null`, which no code tells apart.
pub record Filter : Type 0 where
  pub column : Text
  pub op : FilterOp
  pub value : Option Value
  pub value2 : Option Value
  pub case_insensitive : Option Bool

pub data GroupOp : Type 0 where
  conj disj : GroupOp

mutual
  pub data FilterNode : Type 0 where
    leaf : Filter → FilterNode
    group : GroupOp → FilterNodes → FilterNode

  pub data FilterNodes : Type 0 where
    nil : FilterNodes
    cons : FilterNode → FilterNodes → FilterNodes

pub record TransferJob : Type 0 where
  pub source_schema : String
  pub target_schema : String
  pub tables : List String

pub record SchemaInfo : Type 0 where
  pub name : String
  pub charset : Option String
  pub collation : Option String

pub data TableKind : Type 0 where
  base view materialized_view : TableKind

pub record TableInfo : Type 0 where
  pub schema : String
  pub name : String
  pub kind : TableKind
  pub engine : Option String
  pub row_estimate : Option ℕ
  pub size_bytes : Option ℕ
  pub comment : Option String

pub data ColumnType : Type 0 where
  integer : (bits : ℕ) → (unsigned : Bool) → ColumnType
  decimal : (precision scale : ℕ) → ColumnType
  float double boolean json date time date_time timestamp : ColumnType
  text blob : (max_len : Option ℕ) → ColumnType
  enum set : List Text → ColumnType
  other : (raw : Text) → ColumnType

pub record Column : Type 0 where
  pub name : Text
  pub column_type : ColumnType
  pub nullable : Bool
  pub default : Option Text
  pub is_primary_key : Bool
  pub is_auto_increment : Bool
  pub comment : Option Text

pub record IndexInfo : Type 0 where
  pub name : Text
  pub columns : List Text
  pub unique : Bool
  pub is_primary : Bool
  pub index_type : Option Text

pub record ForeignKeyInfo : Type 0 where
  pub name : Text
  pub columns : List Text
  pub ref_schema : Option Text
  pub ref_table : Text
  pub ref_columns : List Text
  pub on_update : Option Text
  pub on_delete : Option Text

pub record TableOptions : Type 0 where
  pub engine : Option Text
  pub charset : Option Text
  pub collation : Option Text
  pub row_format : Option Text
  pub auto_increment : Option ℕ
  pub comment : Option Text

pub record SchemaFolder : Type 0 where
  pub id : String
  pub connection_id : String
  pub name : String
  pub sort_order : ℕ
  pub created_at : ℕ

pub record SchemaFolderAssignment : Type 0 where
  pub connection_id : String
  pub schema_name : String
  pub folder_id : String

pub record TableFolder : Type 0 where
  pub id : String
  pub connection_id : String
  pub schema_name : String
  pub name : String
  pub sort_order : ℕ
  pub created_at : ℕ

pub record TableFolderAssignment : Type 0 where
  pub connection_id : String
  pub schema_name : String
  pub table_name : String
  pub folder_id : String
