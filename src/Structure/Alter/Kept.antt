-- ===== src/Structure/Alter/Kept.antt =====
-- What a draft of components/table/structure-pane.tsx adds to the statement while it is as it was made.
use basemaster.Base.{
  ◌≡◌, refl, sym, ap, ◌∙◌, inl, inr, String, Bool, true, false, not, Option, none, some, List, [],
  ◌∷◌, ◌++◌, find, if◌then◌else◌, Bool-cases,
}
use basemaster.Base.Text.{
  Text, codes, same_text, same_text_refl, same_text_sound, join, trim, has_ink,
}
use basemaster.Base.Dict.{get_or}
use basemaster.Types.{Column, IndexInfo, ForeignKeyInfo}
use basemaster.Tabs.Draft.{DraftForeignKey}
use basemaster.Structure.{format_type, column_to_draft, index_to_draft, fk_to_draft, map_from}
use basemaster.Structure.Changed.{
  same_option, same_bool, same_texts, column_changed, index_changed, fk_changed, or_restrict,
}
use basemaster.Structure.Alter.{
  Action, is_for, find_last, fk_drop, changed_column, column_change, drop_pk, add_pk, changed_index,
  index_change, fk_of, orig_fk, fk_add, option_change,
}
use basemaster.Structure.Alter.Found.{some_text, map_from-id}

pub same_option_refl : (o : Option Text) → same_option o o ≡ true
same_option_refl none = refl
same_option_refl (some t) = same_text_refl t

pub same_bool_refl : (b : Bool) → same_bool b b ≡ true
same_bool_refl true = refl
same_bool_refl false = refl

pub same_texts_refl : (ts : List Text) → same_texts ts ts ≡ true
same_texts_refl [] = refl
same_texts_refl (t ∷ ts) = rw (same_text_refl t) (same_texts_refl ts)

-- A type whose text has no white space around it.
unfoldable pub IsTrimmed : Column → Type 0
IsTrimmed c = trim (format_type c.column_type) ≡ format_type c.column_type

-- A foreign key whose actions are not the empty text.
unfoldable pub HasActions : ForeignKeyInfo → Type 0
HasActions f =
    (or_restrict (get_or (codes "RESTRICT") f.on_delete) ≡ get_or (codes "RESTRICT") f.on_delete)
    × (or_restrict (get_or (codes "RESTRICT") f.on_update) ≡ get_or (codes "RESTRICT") f.on_update)

pub column_changed-draft :
    (uid : String) (c : Column) → IsTrimmed c → column_changed c (column_to_draft uid c) ≡ false
unfolding column_changed column_to_draft IsTrimmed
column_changed-draft uid c h =
    rw
      (
        h,
        same_text_refl c.name,
        same_text_refl (format_type c.column_type),
        same_bool_refl c.nullable,
        same_option_refl c.default,
        same_text_refl (get_or [] c.comment),
        same_bool_refl c.is_auto_increment,
      )
      refl

pub index_changed-draft :
    (uid : String) (i : IndexInfo) → index_changed i (index_to_draft uid i) ≡ false
unfolding index_changed index_to_draft
index_changed-draft uid i =
    rw
      (
        same_text_refl i.name,
        same_bool_refl i.unique,
        same_text_refl (get_or (codes "BTREE") i.index_type),
        same_texts_refl i.columns,
      )
      refl

pub fk_changed-draft :
    (uid : String) (f : ForeignKeyInfo) → HasActions f → fk_changed f (fk_to_draft uid f) ≡ false
unfolding fk_changed fk_to_draft HasActions
fk_changed-draft uid f (hd, hu) =
    rw
      (
        hd,
        hu,
        same_text_refl f.name,
        same_text_refl (join (codes ",") f.columns),
        same_text_refl (get_or [] f.ref_schema),
        same_text_refl f.ref_table,
        same_text_refl (join (codes ",") f.ref_columns),
        same_text_refl (get_or (codes "RESTRICT") f.on_delete),
        same_text_refl (get_or (codes "RESTRICT") f.on_update),
      )
      refl

pub is_for_named : (name : Text) → some_text name ≡ true → is_for name (some name) ≡ true
is_for_named [] h = absurd (cc h)
is_for_named (c ∷ name) h = same_text_refl (c ∷ name)

pub is_for_other : (k name : Text) → same_text k name ≡ false → is_for k (some name) ≡ false
is_for_other k [] h = refl
is_for_other k (c ∷ name) h = h

pub flip_absurd : (k name : Text) → name ≡ k → same_text k name ≡ false → ⊥
flip_absurd k name e h = cc (sym h ∙ (ap (same_text k) e ∙ same_text_refl k))

pub same_text_flip : (k name : Text) → same_text k name ≡ false → same_text name k ≡ false
same_text_flip k name h = elim (Bool-cases (same_text name k)) [
  | inl t ↦ absurd (flip_absurd k name (same_text_sound name k t) h)
  | inr f ↦ f
]

pub fk_drop-found :
    (uid : String) (f : ForeignKeyInfo) (o : Option DraftForeignKey)
    → o ≡ some (fk_to_draft uid f)
    → HasActions f
    → fk_drop f o ≡ []
unfolding fk_drop
fk_drop-found uid f o e h = rw (e, fk_changed-draft uid f h) refl

pub changed_column-found :
    (uid : String) (c : Column) (o : Option Column)
    → o ≡ some c
    → IsTrimmed c
    → changed_column (column_to_draft uid c) c.name o ≡ []
unfolding changed_column
changed_column-found uid c o e h = rw (e, column_changed-draft uid c h) refl

pub changed_index-found :
    (uid : String) (i : IndexInfo) (o : Option IndexInfo)
    → o ≡ some i
    → changed_index (index_to_draft uid i) i.name o ≡ []
unfolding changed_index
changed_index-found uid i o e = rw (e, index_changed-draft uid i) refl

pub fk_of-found :
    (uid : String) (f : ForeignKeyInfo) (o : Option ForeignKeyInfo)
    → o ≡ some f
    → HasActions f
    → fk_of (fk_to_draft uid f) o ≡ []
fk_of-found uid f o e h = rw (e, fk_changed-draft uid f h) refl

pub if-nil : (b : Bool) (xs : List Action) → xs ≡ [] → (if b then [] else xs) ≡ []
if-nil true xs h = refl
if-nil false xs h = h

pub column_change-found :
    (uid : String) (cols : List Column) (c : Column)
    → find_last (λ d. same_text d.name c.name) (map_from (λ m d. d) 0 cols) ≡ some c
    → IsTrimmed c
    → column_change cols (column_to_draft uid c) ≡ []
unfolding column_change column_to_draft
column_change-found uid cols c e h = if-nil (not (has_ink c.name)) _ (
    changed_column-found uid c _
      (ap (find_last (λ d. same_text d.name c.name)) (sym (map_from-id 0 cols)) ∙ e) h)

pub index_change-found :
    (uid : String) (idx : List IndexInfo) (i : IndexInfo)
    → find_last (λ j. same_text j.name i.name) (map_from (λ m j. j) 0 idx) ≡ some i
    → index_change idx (index_to_draft uid i) ≡ []
unfolding index_change index_to_draft
index_change-found uid idx i e = if-nil _ _ (
    changed_index-found uid i _
      (ap (find_last (λ j. same_text j.name i.name)) (sym (map_from-id 0 idx)) ∙ e))

pub orig_fk-named :
    (fks : List ForeignKeyInfo) (name : Text)
    → some_text name ≡ true
    → orig_fk fks (some name) ≡ find (λ f. same_text f.name name) fks
orig_fk-named fks [] h = absurd (cc h)
orig_fk-named fks (c ∷ name) h = refl

pub fk_add-found :
    (uid : String) (fks : List ForeignKeyInfo) (f : ForeignKeyInfo)
    → find (λ g. same_text g.name f.name) (map_from (λ m g. g) 0 fks) ≡ some f
    → HasActions f × (some_text f.name ≡ true)
    → fk_add fks (fk_to_draft uid f) ≡ []
unfolding fk_add fk_to_draft
fk_add-found uid fks f e (h, n) = if-nil _ _ (
    fk_of-found uid f _
      (orig_fk-named fks f.name n
        ∙ (ap (find (λ g. same_text g.name f.name)) (sym (map_from-id 0 fks)) ∙ e))
      h)

pub option_change-kept : (key : Text) (o : Option Text) → option_change key o (get_or [] o) ≡ []
unfolding option_change
option_change-kept key none = refl
option_change-kept key (some []) = refl
option_change-kept key (some (c ∷ t)) = rw (same_text_refl (c ∷ t)) refl

pub nils :
    (a b c d e f g h : List Action)
    → a ≡ []
    → b ≡ []
    → c ≡ []
    → d ≡ []
    → e ≡ []
    → f ≡ []
    → g ≡ []
    → h ≡ []
    → a ++ b ++ c ++ d ++ e ++ f ++ g ++ h ≡ []
nils a b c d e f g h ea eb ec ed ee ef eg eh = rw (ea, eb, ec, ed, ee, ef, eg, eh) refl

pub pk-kept :
    (orig draft : List Text)
    → draft ≡ orig
    → (if same_texts orig draft then [] else drop_pk orig ++ add_pk draft) ≡ []
pk-kept orig draft e = rw (e, same_texts_refl orig) refl
