-- ===== src/Structure/Alter.antt =====
-- `generateAlterDdl` of components/table/structure-pane.tsx: its actions one by one, and their text.
pub mod Found
pub mod Kept
pub mod Unchanged
pub mod Emptied
use basemaster.Base.{
  ℕ, ◌+◌, String, Bool, true, false, not, ◌&&◌, ◌||◌, Option, none, some, List, [], ◌∷◌, ◌++◌, map,
  filter, find, length, any, ◌==◌, if◌then◌else◌,
}
use basemaster.Base.Text.{
  Text, codes, same_text, join, trim, has_ink, flat_map, after_word, decimal, is_space,
}
use basemaster.Base.Dict.{get_or}
use basemaster.Types.{Column, IndexInfo, ForeignKeyInfo, TableOptions}
use basemaster.Tabs.Draft.{DraftColumn, DraftIndex, DraftForeignKey, DraftOptions}
use basemaster.Structure.{
  column_to_draft, index_to_draft, fk_to_draft, options_to_draft, decimal_of, map_from,
}
use basemaster.Structure.Changed.{same_texts, column_changed, index_changed, fk_changed}

pub record DraftBundle : Type 0 where
  pub orig_cols : List Column
  pub orig_idx : List IndexInfo
  pub orig_fks : List ForeignKeyInfo
  pub orig_opts : TableOptions
  pub draft_cols : List DraftColumn
  pub draft_idx : List DraftIndex
  pub draft_fks : List DraftForeignKey
  pub draft_opts : DraftOptions

-- One entry of `actions`. An option is its whole text.
pub data Action : Type 0 where
  drop_fk drop_column drop_index : (name : Text) → Action
  add_column modify_column : DraftColumn → Action
  change_column : (original : Text) → DraftColumn → Action
  drop_primary_key : Action
  add_primary_key : List Text → Action
  add_index : DraftIndex → Action
  add_fk : DraftForeignKey → Action
  set_option : Text → Action

abbrev pub or_this {ℓ} : {A : Type ℓ} → Bool → A → Option A → Option A
or_this test x (some later) = some later
or_this true x none = some x
or_this false x none = none

-- `map.get(key)` where a later entry replaces an earlier one.
abbrev pub find_last {ℓ} : {A : Type ℓ} → (A → Bool) → List A → Option A
find_last test [] = none
find_last test (x ∷ xs) = or_this (test x) x (find_last test xs)

-- A draft made of the entry of this name, where the empty name counts as none.
abbrev pub is_for : Text → Option Text → Bool
is_for name none = false
is_for name (some []) = false
is_for name (some (c ∷ original)) = same_text name (c ∷ original)

unfoldable pub fk_drop : ForeignKeyInfo → Option DraftForeignKey → List Action
unfolding fk_changed
fk_drop fk none = drop_fk fk.name ∷ []
fk_drop fk (some kept) = if fk_changed fk kept then drop_fk fk.name ∷ [] else []

abbrev pub concat_map {ℓ κ} : {A : Type ℓ} {B : Type κ} → (A → List B) → List A → List B
concat_map f [] = []
concat_map f (x ∷ xs) = f x ++ concat_map f xs

unfoldable pub fk_drops : DraftBundle → List Action
unfolding fk_drop
fk_drops b =
    concat_map (λ fk. fk_drop fk (find_last (λ d. is_for fk.name d.original_name) b.draft_fks))
      b.orig_fks

unfoldable pub column_drop : List DraftColumn → Column → List Action
column_drop drafts c =
    if any (λ d. is_for c.name d.original_name) drafts then [] else drop_column c.name ∷ []

unfoldable pub changed_column : DraftColumn → Text → Option Column → List Action
unfolding column_changed
changed_column d original none = []
changed_column d original (some orig) =
    if not (column_changed orig d)
    then []
    else if not (same_text d.name original)
    then change_column original d ∷ []
    else modify_column d ∷ []

abbrev pub column_of : List Column → DraftColumn → Option Text → List Action
column_of cols d none = add_column d ∷ []
column_of cols d (some original) =
    changed_column d original (find_last (λ c. same_text c.name original) cols)

unfoldable pub column_change : List Column → DraftColumn → List Action
unfolding changed_column has_ink
column_change cols d = if not (has_ink d.name) then [] else column_of cols d d.original_name

unfoldable pub orig_pk : DraftBundle → List Text
orig_pk b = map (λ c. c.name) (filter (λ c. c.is_primary_key) b.orig_cols)

unfoldable pub draft_pk : DraftBundle → List Text
unfolding has_ink
draft_pk b = map (λ c. c.name) (filter (λ c. c.is_primary_key && has_ink c.name) b.draft_cols)

abbrev pub drop_pk : List Text → List Action
drop_pk [] = []
drop_pk (n ∷ ns) = drop_primary_key ∷ []

abbrev pub add_pk : List Text → List Action
add_pk [] = []
add_pk (n ∷ ns) = add_primary_key (n ∷ ns) ∷ []

unfoldable pub pk_changes : DraftBundle → List Action
unfolding orig_pk draft_pk
pk_changes b =
    if same_texts (orig_pk b) (draft_pk b) then [] else drop_pk (orig_pk b) ++ add_pk (draft_pk b)

-- The keys of a `Map`: each name where it came first.
unfoldable pub map_keys : List Text → List Text
map_keys [] = []
map_keys (n ∷ ns) = n ∷ filter (λ m. not (same_text n m)) (map_keys ns)

abbrev pub secondary : DraftBundle → List IndexInfo
secondary b = filter (λ i. not i.is_primary) b.orig_idx

unfoldable pub index_drop : List DraftIndex → Text → List Action
index_drop drafts name =
    if any (λ d. is_for name d.original_name) drafts then [] else drop_index name ∷ []

abbrev pub some_columns : List Text → Bool
some_columns [] = false
some_columns (c ∷ cs) = true

unfoldable pub changed_index : DraftIndex → Text → Option IndexInfo → List Action
unfolding index_changed
changed_index d original none = []
changed_index d original (some orig) =
    if index_changed orig d then drop_index original ∷ add_index d ∷ [] else []

abbrev pub index_of : List IndexInfo → DraftIndex → Option Text → List Action
index_of idx d none = add_index d ∷ []
index_of idx d (some original) =
    changed_index d original (find_last (λ i. same_text i.name original) idx)

unfoldable pub index_change : List IndexInfo → DraftIndex → List Action
unfolding changed_index has_ink
index_change idx d =
    if not (some_columns d.columns) || not (has_ink d.name)
    then []
    else index_of idx d d.original_name

abbrev pub fk_of : DraftForeignKey → Option ForeignKeyInfo → List Action
fk_of d none = add_fk d ∷ []
fk_of d (some orig) = if fk_changed orig d then add_fk d ∷ [] else []

-- `d.originalName ? origFks.find(...) ?? null : null`
abbrev pub orig_fk : List ForeignKeyInfo → Option Text → Option ForeignKeyInfo
orig_fk fks none = none
orig_fk fks (some []) = none
orig_fk fks (some (c ∷ original)) = find (λ f. same_text f.name (c ∷ original)) fks

unfoldable pub fk_add : List ForeignKeyInfo → DraftForeignKey → List Action
unfolding fk_changed has_ink
fk_add fks d =
    if not (some_columns d.columns) || not (has_ink d.ref_table)
    then []
    else fk_of d (orig_fk fks d.original_name)

-- An option that the draft sets, and sets to something else.
unfoldable pub option_change : Text → Option Text → Text → List Action
option_change key orig [] = []
option_change key orig (c ∷ draft) =
    if same_text (get_or [] orig) (c ∷ draft) then [] else set_option (key ++ c ∷ draft) ∷ []

-- `text.replace(/'/g, "''")` in quotation marks.
unfoldable pub quoted_text : Text → Text
unfolding flat_map
quoted_text s = b'\'' ∷ flat_map (λ c. if c == b'\'' then c ∷ c ∷ [] else c ∷ []) s ++ b'\'' ∷ []

unfoldable pub diff_table_options : TableOptions → DraftOptions → List Action
unfolding option_change quoted_text decimal trim
diff_table_options orig draft =
    option_change (codes "ENGINE = ") orig.engine draft.engine
    ++ option_change (codes "DEFAULT CHARSET = ") orig.charset draft.charset
    ++ option_change (codes "COLLATE = ") orig.collation draft.collation
    ++ option_change (codes "ROW_FORMAT = ") orig.row_format draft.row_format
    ++ option_change (codes "AUTO_INCREMENT = ") (some (decimal_of orig.auto_increment))
        (trim draft.auto_increment)
    ++ (if same_text (get_or [] orig.comment) draft.comment
        then []
        else set_option (codes "COMMENT = " ++ quoted_text draft.comment) ∷ [])

unfoldable pub alter_actions : DraftBundle → List Action
unfolding fk_drops column_drop column_change pk_changes index_drop map_keys index_change fk_add
    diff_table_options
alter_actions b =
    fk_drops b
    ++ concat_map (column_drop b.draft_cols) b.orig_cols
    ++ concat_map (column_change b.orig_cols) b.draft_cols
    ++ pk_changes b
    ++ concat_map (index_drop b.draft_idx) (map_keys (map (λ i. i.name) (secondary b)))
    ++ concat_map (index_change (secondary b)) b.draft_idx
    ++ concat_map (fk_add b.orig_fks) b.draft_fks
    ++ diff_table_options b.orig_opts b.draft_opts

-- The editor when editing begins: every draft is as it was made.
unfoldable pub start_editing :
    (uids : ℕ → String)
    → List Column
    → List IndexInfo
    → List ForeignKeyInfo
    → TableOptions
    → DraftBundle
unfolding column_to_draft index_to_draft fk_to_draft options_to_draft
start_editing uids cols idx fks opts = record {
  orig_cols = cols;
  orig_idx = idx;
  orig_fks = fks;
  orig_opts = opts;
  draft_cols = map_from (λ n c. column_to_draft (uids n) c) 0 cols;
  draft_idx =
      map_from (λ n i. index_to_draft (uids n) i) (length cols)
        (filter (λ i. not i.is_primary) idx);
  draft_fks = map_from (λ n f. fk_to_draft (uids n) f) (length cols + length idx) fks;
  draft_opts = options_to_draft opts;
}
