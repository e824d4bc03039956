-- ===== src/Folders/Tests.antt =====
-- The theorems on stores with one folder, which is made, used and deleted.
use basemaster.Base.{refl, some}
use basemaster.Base.Dict.{empty, put, includes}
use basemaster.Types.{SchemaFolder, TableFolder}
use basemaster.Folders.Schemas
use basemaster.Folders.Schemas.Integrity as SchemasIntegrity
use basemaster.Folders.Schemas.Integrity.{schemas-Reach-IsValid}
use basemaster.Folders.Tables
use basemaster.Folders.Tables.Integrity as TablesIntegrity
use basemaster.Folders.Tables.Integrity.{tables-Reach-IsValid}

abbrev schema_folder : SchemaFolder
schema_folder = record {
  id = "f";
  connection_id = "c";
  name = "mine";
  sort_order = 0;
  created_at = 7;
}

abbrev table_folder : TableFolder
table_folder = record {
  id = "f";
  connection_id = "c";
  schema_name = "s";
  name = "mine";
  sort_order = 0;
  created_at = 7;
}

abbrev no_schemas : Schemas.State
no_schemas = record { folders = empty; assignments = empty }

abbrev filed_schemas : Schemas.State
filed_schemas = Schemas.move "c" "s" (some "f") (Schemas.create "c" schema_folder no_schemas)

no_schemas-IsValid : SchemasIntegrity.IsValid no_schemas
no_schemas-IsValid k name id e = absurd (cc e)

schemas_session : SchemasIntegrity.Reach no_schemas (Schemas.delete "c" "f" filed_schemas)
unfolding Schemas.create put includes
schemas_session =
    SchemasIntegrity.next
      (SchemasIntegrity.next
        (SchemasIntegrity.next SchemasIntegrity.here (SchemasIntegrity.creates "c" schema_folder))
        (SchemasIntegrity.moves "c" "s" (some "f") refl))
      (SchemasIntegrity.deletes "c" "f")

schemas-Reach-IsValid_example : SchemasIntegrity.IsValid (Schemas.delete "c" "f" filed_schemas)
schemas-Reach-IsValid_example = schemas-Reach-IsValid no_schemas-IsValid schemas_session

abbrev no_tables : Tables.State
no_tables = record { folders = empty; assignments = empty }

abbrev filed_tables : Tables.State
filed_tables = Tables.move "c" "s" "t" (some "f") (Tables.create "c" "s" table_folder no_tables)

no_tables-IsValid : TablesIntegrity.IsValid no_tables
no_tables-IsValid k name id e = absurd (cc e)

tables_session : TablesIntegrity.Reach no_tables (Tables.delete "c" "s" "f" filed_tables)
unfolding Tables.create Tables.key put includes
tables_session =
    TablesIntegrity.next
      (TablesIntegrity.next
        (TablesIntegrity.next TablesIntegrity.here (TablesIntegrity.creates "c" "s" table_folder))
        (TablesIntegrity.moves "c" "s" "t" (some "f") refl))
      (TablesIntegrity.deletes "c" "s" "f")
