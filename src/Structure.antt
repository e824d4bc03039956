-- ===== src/Structure.antt =====
-- The editor of a table's structure, components/table/structure-pane.tsx: the drafts it starts from
-- (here) and the ALTER TABLE statement that it makes of them.
mod Tests
pub mod Changed
pub mod Alter
pub mod Render
use basemaster.Base.{
  ℕ, suc, String, Bool, true, false, Option, none, some, List, [], ◌∷◌, ◌++◌, map, ◌==◌,
  if◌then◌else◌,
}
use basemaster.Base.Text.{Text, codes, join, decimal}
use basemaster.Base.Dict.{get_or}
use basemaster.Types.{
  ColumnType, integer, decimal as decimal_type, float, double, boolean, json, date, time, date_time,
  timestamp, text, blob, enum, set, other, Column, IndexInfo, ForeignKeyInfo, TableOptions,
}
use basemaster.Tabs.Draft.{DraftColumn, DraftIndex, DraftForeignKey, DraftOptions}

abbrev integer_name : ℕ → Text
integer_name bits =
    if bits == 8
    then codes "TINYINT"
    else if bits == 16
    then codes "SMALLINT"
    else if bits == 24
    then codes "MEDIUMINT"
    else if bits == 32
    then codes "INT"
    else codes "BIGINT"

abbrev unsigned_suffix : Bool → Text
unsigned_suffix true = codes " UNSIGNED"
unsigned_suffix false = []

-- A length that is there and is not 0.
abbrev sized : Text → Text → Option ℕ → Text
sized name plain none = plain
sized name plain (some n) = if n == 0 then plain else name ++ codes "(" ++ decimal n ++ codes ")"

unfoldable pub format_type : ColumnType → Text
unfolding decimal
format_type (integer bits unsigned) = integer_name bits ++ unsigned_suffix unsigned
format_type (decimal_type precision scale) =
    codes "DECIMAL(" ++ decimal precision ++ codes "," ++ decimal scale ++ codes ")"
format_type float = codes "FLOAT"
format_type double = codes "DOUBLE"
format_type boolean = codes "BOOL"
format_type (text max_len) = sized (codes "VARCHAR") (codes "TEXT") max_len
format_type (blob max_len) = sized (codes "VARBINARY") (codes "BLOB") max_len
format_type json = codes "JSON"
format_type date = codes "DATE"
format_type time = codes "TIME"
format_type date_time = codes "DATETIME"
format_type timestamp = codes "TIMESTAMP"
format_type (enum values) = codes "ENUM(" ++ join (codes ", ") values ++ codes ")"
format_type (set values) = codes "SET(" ++ join (codes ", ") values ++ codes ")"
format_type (other raw) = raw

-- The uid is the next one of a counter.
unfoldable pub column_to_draft : String → Column → DraftColumn
unfolding format_type
column_to_draft uid c = record {
  uid = uid;
  original_name = some c.name;
  name = c.name;
  raw_type = format_type c.column_type;
  nullable = c.nullable;
  default = c.default;
  comment = get_or [] c.comment;
  is_primary_key = c.is_primary_key;
  is_auto_increment = c.is_auto_increment;
}

unfoldable pub index_to_draft : String → IndexInfo → DraftIndex
index_to_draft uid i = record {
  uid = uid;
  original_name = some i.name;
  name = i.name;
  columns = i.columns;
  unique = i.unique;
  index_type = get_or (codes "BTREE") i.index_type;
}

unfoldable pub fk_to_draft : String → ForeignKeyInfo → DraftForeignKey
fk_to_draft uid f = record {
  uid = uid;
  original_name = some f.name;
  name = f.name;
  columns = f.columns;
  ref_schema = get_or [] f.ref_schema;
  ref_table = f.ref_table;
  ref_columns = f.ref_columns;
  on_update = get_or (codes "RESTRICT") f.on_update;
  on_delete = get_or (codes "RESTRICT") f.on_delete;
}

abbrev pub decimal_of : Option ℕ → Text
decimal_of none = []
decimal_of (some n) = decimal n

unfoldable pub options_to_draft : TableOptions → DraftOptions
unfolding decimal
options_to_draft o = record {
  engine = get_or [] o.engine;
  charset = get_or [] o.charset;
  collation = get_or [] o.collation;
  row_format = get_or [] o.row_format;
  auto_increment = decimal_of o.auto_increment;
  comment = get_or [] o.comment;
}

-- `xs.map(make)`, where `make` takes the next number of a counter.
abbrev pub map_from {ℓ κ} : {A : Type ℓ} {B : Type κ} → (ℕ → A → B) → ℕ → List A → List B
map_from make n [] = []
map_from make n (x ∷ xs) = make n x ∷ map_from make (suc n) xs
