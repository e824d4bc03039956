-- ===== src/Structure/Tests.antt =====
-- The statement of a changed draft, and the theorems at concrete inputs.
use basemaster.Base.{◌≡◌, refl, true, false, none, some, List, [], ◌∷◌}
use basemaster.Base.Text.{codes, same_text, trim, has_ink}
use basemaster.Types.{integer, date, Column, IndexInfo, ForeignKeyInfo, TableOptions}
use basemaster.Tabs.Draft.{DraftForeignKey}
use basemaster.Structure.{format_type, column_to_draft, fk_to_draft}
use basemaster.Structure.Alter.{alter_actions, start_editing}
use basemaster.Structure.Alter.Found.{apart}
use basemaster.Structure.Alter.Kept.{IsTrimmed, HasActions}
use basemaster.Structure.Alter.Unchanged.{IsPlain, alter_actions-start_editing}
use basemaster.Structure.Render.{render_column_def}

abbrev id_column : Column
id_column = record {
  name = codes "id";
  column_type = integer 32 true;
  nullable = false;
  default = none;
  is_primary_key = true;
  is_auto_increment = true;
  comment = none;
}

abbrev day_column : Column
day_column = record {
  name = codes "day";
  column_type = date;
  nullable = true;
  default = some (codes "2024-01-01");
  is_primary_key = false;
  is_auto_increment = false;
  comment = none;
}

abbrev by_day : IndexInfo
by_day = record {
  name = codes "by_day";
  columns = codes "day" ∷ [];
  unique = false;
  is_primary = false;
  index_type = none;
}

abbrev to_user : ForeignKeyInfo
to_user = record {
  name = codes "to_user";
  columns = codes "id" ∷ [];
  ref_schema = none;
  ref_table = codes "users";
  ref_columns = codes "id" ∷ [];
  on_update = none;
  on_delete = some (codes "CASCADE");
}

abbrev no_options : TableOptions
no_options = record {
  engine = some (codes "InnoDB");
  charset = none;
  collation = none;
  row_format = none;
  auto_increment = some 120;
  comment = none;
}

abbrev cols : List Column
cols = id_column ∷ day_column ∷ []

plain : IsPlain cols (by_day ∷ []) (to_user ∷ [])
unfolding IsTrimmed HasActions apart has_ink same_text trim format_type
plain = record {
  columns_apart = refl;
  columns_inked = (refl, (refl, tt));
  types_trimmed = (refl, (refl, tt));
  indexes_apart = refl;
  keys_apart = refl;
  keys_act = ((refl, refl), tt);
}

alter_actions-start_editing_example :
    alter_actions (start_editing (λ n. "col") cols (by_day ∷ []) (to_user ∷ []) no_options) ≡ []
alter_actions-start_editing_example =
    alter_actions-start_editing (λ n. "col") cols (by_day ∷ []) (to_user ∷ []) no_options plain

abbrev emptied : DraftForeignKey
emptied = record (fk_to_draft "fk" to_user) { columns = [] }

-- A date as a default is written with no quotation marks, as an arithmetic expression.
day_def :
    render_column_def (column_to_draft "c" day_column) ≡ codes "`day` DATE NULL DEFAULT 2024-01-01"
unfolding render_column_def column_to_draft
day_def = refl
