-- ===== src/Structure/Changed.antt =====
-- When a draft of components/table/structure-pane.tsx differs from what it was made of.
use basemaster.Base.{Bool, true, false, not, ◌&&◌, ◌||◌, Option, none, some, List, [], ◌∷◌}
use basemaster.Base.Text.{Text, codes, same_text, join, trim}
use basemaster.Base.Dict.{get_or}
use basemaster.Types.{Column, IndexInfo, ForeignKeyInfo}
use basemaster.Tabs.Draft.{DraftColumn, DraftIndex, DraftForeignKey}
use basemaster.Structure.{format_type}

abbrev pub same_option : Option Text → Option Text → Bool
same_option none none = true
same_option none (some b) = false
same_option (some a) none = false
same_option (some a) (some b) = same_text a b

abbrev pub same_bool : Bool → Bool → Bool
same_bool true b = b
same_bool false b = not b

-- Lists of one length with the same texts.
abbrev pub same_texts : List Text → List Text → Bool
same_texts [] [] = true
same_texts [] (b ∷ bs) = false
same_texts (a ∷ xs) [] = false
same_texts (a ∷ xs) (b ∷ bs) = same_text a b && same_texts xs bs

-- The chain of `if (...) return true`.
unfoldable pub column_changed : Column → DraftColumn → Bool
unfolding format_type trim
column_changed orig d =
    not (same_text orig.name d.name)
    || not (same_text (format_type orig.column_type) (trim d.raw_type))
    || not (same_bool orig.nullable d.nullable)
    || not (same_option orig.default d.default)
    || not (same_text (get_or [] orig.comment) d.comment)
    || not (same_bool orig.is_auto_increment d.is_auto_increment)

unfoldable pub index_changed : IndexInfo → DraftIndex → Bool
index_changed orig d =
    not (same_text orig.name d.name)
    || not (same_bool orig.unique d.unique)
    || not (same_text (get_or (codes "BTREE") orig.index_type) d.index_type)
    || not (same_texts orig.columns d.columns)

-- `text || "RESTRICT"`
abbrev pub or_restrict : Text → Text
or_restrict [] = codes "RESTRICT"
or_restrict (c ∷ text) = c ∷ text

unfoldable pub fk_changed : ForeignKeyInfo → DraftForeignKey → Bool
unfolding join
fk_changed orig d =
    not (same_text orig.name d.name)
    || not (same_text (join (codes ",") orig.columns) (join (codes ",") d.columns))
    || not (same_text (get_or [] orig.ref_schema) d.ref_schema)
    || not (same_text orig.ref_table d.ref_table)
    || not (same_text (join (codes ",") orig.ref_columns) (join (codes ",") d.ref_columns))
    || not (same_text (get_or (codes "RESTRICT") orig.on_delete) (or_restrict d.on_delete))
    || not (same_text (get_or (codes "RESTRICT") orig.on_update) (or_restrict d.on_update))
