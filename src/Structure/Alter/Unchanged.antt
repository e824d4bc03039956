-- ===== src/Structure/Alter/Unchanged.antt =====
-- Drafts that nobody has changed in components/table/structure-pane.tsx make no statement.
use basemaster.Base.{
  ℕ, suc, ◌+◌, ◌≡◌, refl, ap, inl, inr, String, true, not, ◌&&◌, Option, none, some, List, [], ◌∷◌,
  map, filter, length, All, All-map, All-map2, Bool-cases,
}
use basemaster.Base.Text.{codes, same_text, same_text_refl, trim, decimal, has_ink}
use basemaster.Base.Dict.{get_or}
use basemaster.Base.Decimal.{trim-decimal}
use basemaster.Types.{Column, IndexInfo, ForeignKeyInfo, TableOptions}
use basemaster.Tabs.Draft.{DraftColumn, DraftIndex, DraftForeignKey}
use basemaster.Structure.{
  column_to_draft, index_to_draft, fk_to_draft, options_to_draft, decimal_of, map_from,
}
use basemaster.Structure.Alter.{
  is_for, find_last, fk_drop, fk_drops, concat_map, column_drop, column_change, orig_pk, draft_pk,
  pk_changes, map_keys, index_drop, index_change, fk_add, option_change, diff_table_options,
  alter_actions, start_editing,
}
use basemaster.Structure.Alter.Kept.{
  IsTrimmed, HasActions, is_for_named, is_for_other, same_text_flip, fk_drop-found,
  column_change-found, index_change-found, fk_add-found, option_change-kept, nils, pk-kept,
}
use basemaster.Structure.Alter.Found.{
  apart, concat_map-nil, found_last, found_first, any-find_last, All-map_from, All-map_keys,
  All-mapped, All-named,
}

module _ (uids : ℕ → String) where
  draft_column : ℕ → Column → DraftColumn
  draft_column n c = column_to_draft (uids n) c

  draft_index : ℕ → IndexInfo → DraftIndex
  draft_index n i = index_to_draft (uids n) i

  draft_fk : ℕ → ForeignKeyInfo → DraftForeignKey
  draft_fk n f = fk_to_draft (uids n) f

  fk_drop-draft :
      (n : ℕ) (fks : List ForeignKeyInfo)
      → apart (map (λ f. f.name) fks) ≡ true
      → All HasActions fks
      → concat_map
          (λ fk.
            fk_drop fk (find_last (λ d. is_for fk.name d.original_name) (map_from draft_fk n fks)))
          fks
        ≡ []
  unfolding fk_drop fk_to_draft draft_fk
  fk_drop-draft n fks h a = concat_map-nil _ fks (
      All-map2 _ _ _ (λ f (m, e) k. fk_drop-found (uids m) f _ e k) fks
        (found_last (λ f. f.name) (λ k d. is_for k d.original_name) draft_fk
          (λ m f k. is_for_named f.name k) (λ m f k e. is_for_other k f.name e) n fks h)
        a)

  column_drop-draft :
      (n : ℕ) (cols : List Column)
      → apart (map (λ c. c.name) cols) ≡ true
      → concat_map (column_drop (map_from draft_column n cols)) cols ≡ []
  unfolding column_drop column_to_draft draft_column
  column_drop-draft n cols h = concat_map-nil _ cols (
      All-map _ _ (λ c (m, e). rw (any-find_last _ _ (map_from draft_column n cols) e) refl) cols
        (found_last (λ c. c.name) (λ k d. is_for k d.original_name) draft_column
          (λ m c k. is_for_named c.name k) (λ m c k e. is_for_other k c.name e) n cols h))

  column_change-draft :
      (n : ℕ) (cols : List Column)
      → apart (map (λ c. c.name) cols) ≡ true
      → All IsTrimmed cols
      → concat_map (column_change cols) (map_from draft_column n cols) ≡ []
  unfolding column_change draft_column
  column_change-draft n cols h a = concat_map-nil _ _ (
      All-map_from _ draft_column n cols (
        All-map2 _ _ _ (λ c e k m. column_change-found (uids m) cols c (e.1) k) cols
          (found_last (λ c. c.name) (λ k c. same_text c.name k) (λ m c. c)
            (λ m c k. same_text_refl c.name) (λ m c k e. same_text_flip k c.name e) 0 cols h)
          a))

  index_drop-draft :
      (n : ℕ) (idx : List IndexInfo)
      → apart (map (λ i. i.name) idx) ≡ true
      → concat_map (index_drop (map_from draft_index n idx)) (map_keys (map (λ i. i.name) idx)) ≡ []
  unfolding index_drop index_to_draft draft_index
  index_drop-draft n idx h = concat_map-nil _ _ (
      All-map_keys _ (map (λ i. i.name) idx) (
        All-mapped _ (λ i. i.name) idx
          (All-map _ _ (λ i (m, e). rw (any-find_last _ _ (map_from draft_index n idx) e) refl) idx
            (found_last (λ i. i.name) (λ k d. is_for k d.original_name) draft_index
              (λ m i k. is_for_named i.name k) (λ m i k e. is_for_other k i.name e) n idx h))))

  index_change-draft :
      (n : ℕ) (idx : List IndexInfo)
      → apart (map (λ i. i.name) idx) ≡ true
      → concat_map (index_change idx) (map_from draft_index n idx) ≡ []
  unfolding draft_index
  index_change-draft n idx h = concat_map-nil _ _ (
      All-map_from _ draft_index n idx (
        All-map _ _ (λ i e m. index_change-found (uids m) idx i (e.1)) idx
          (found_last (λ i. i.name) (λ k i. same_text i.name k) (λ m i. i)
            (λ m i k. same_text_refl i.name) (λ m i k e. same_text_flip k i.name e) 0 idx h)))

  fk_add-draft :
      (n : ℕ) (fks : List ForeignKeyInfo)
      → apart (map (λ f. f.name) fks) ≡ true
      → All HasActions fks
      → concat_map (fk_add fks) (map_from draft_fk n fks) ≡ []
  unfolding draft_fk
  fk_add-draft n fks h a = concat_map-nil _ _ (
      All-map_from _ draft_fk n fks (
        All-map2 _ _ _ (λ f e kl m. fk_add-found (uids m) fks f (e.1) kl) fks
          (found_first (λ f. f.name) (λ k f. same_text f.name k) (λ m f. f)
            (λ m f k. same_text_refl f.name) (λ m f k e. same_text_flip k f.name e) 0 fks h)
          (All-map2 _ _ _ (λ f k l. (k, l)) fks a (All-named (λ f. f.name) fks h))))

  draft_pk-draft :
      (n : ℕ) (cols : List Column)
      → All (λ c. has_ink c.name ≡ true) cols
      → map
          (λ c. c.name)
          (filter (λ c. c.is_primary_key && has_ink c.name) (map_from draft_column n cols))
        ≡ map (λ c. c.name) (filter (λ c. c.is_primary_key) cols)
  unfolding draft_column column_to_draft
  draft_pk-draft n [] h = refl
  draft_pk-draft n (c ∷ cols) (h, hs) = elim (Bool-cases c.is_primary_key) [
    | inl p ↦ rw (p, h) (ap (◌∷◌ c.name) (draft_pk-draft (suc n) cols hs))
    | inr q ↦ rw q (draft_pk-draft (suc n) cols hs)
  ]

auto_increment-kept :
    (n : Option ℕ)
    → option_change (codes "AUTO_INCREMENT = ") (some (decimal_of n)) (trim (decimal_of n)) ≡ []
unfolding trim option_change
auto_increment-kept none = option_change-kept (codes "AUTO_INCREMENT = ") (some [])
auto_increment-kept (some n) =
    rw (trim-decimal n) (option_change-kept (codes "AUTO_INCREMENT = ") (some (decimal n)))

diff_table_options-draft : (o : TableOptions) → diff_table_options o (options_to_draft o) ≡ []
unfolding diff_table_options options_to_draft
diff_table_options-draft o =
    rw
      (
        option_change-kept (codes "ENGINE = ") o.engine,
        option_change-kept (codes "DEFAULT CHARSET = ") o.charset,
        option_change-kept (codes "COLLATE = ") o.collation,
        option_change-kept (codes "ROW_FORMAT = ") o.row_format,
        auto_increment-kept o.auto_increment,
        same_text_refl (get_or [] o.comment),
      )
      refl

-- Names that are not empty and differ, columns with ink in their names and no white space around their
-- types, and foreign keys without an empty action.
pub record IsPlain (cols : List Column) (idx : List IndexInfo) (fks : List ForeignKeyInfo)
    : Type 0 where
  pub columns_apart : apart (map (λ c. c.name) cols) ≡ true
  pub columns_inked : All (λ c. has_ink c.name ≡ true) cols
  pub types_trimmed : All IsTrimmed cols
  pub indexes_apart : apart (map (λ i. i.name) (filter (λ i. not i.is_primary) idx)) ≡ true
  pub keys_apart : apart (map (λ f. f.name) fks) ≡ true
  pub keys_act : All HasActions fks

-- The drafts that the editor starts from make no action, if the names in each list are not empty and
-- differ, the names of columns have ink and their types no white space around them, and no foreign key
-- has an empty action.
pub alter_actions-start_editing :
    (uids : ℕ → String) (cols : List Column) (idx : List IndexInfo) (fks : List ForeignKeyInfo)
    (opts : TableOptions)
    → IsPlain cols idx fks
    → alter_actions (start_editing uids cols idx fks opts) ≡ []
unfolding alter_actions start_editing fk_drops pk_changes orig_pk draft_pk draft_column draft_index
    draft_fk
alter_actions-start_editing uids cols idx fks opts h =
    nils _ _ _ _ _ _ _ _ (fk_drop-draft uids (length cols + length idx) fks h.keys_apart h.keys_act)
      (column_drop-draft uids 0 cols h.columns_apart)
      (column_change-draft uids 0 cols h.columns_apart h.types_trimmed)
      (pk-kept _ _ (draft_pk-draft uids 0 cols h.columns_inked))
      (index_drop-draft uids (length cols) (filter (λ i. not i.is_primary) idx) h.indexes_apart)
      (index_change-draft uids (length cols) (filter (λ i. not i.is_primary) idx) h.indexes_apart)
      (fk_add-draft uids (length cols + length idx) fks h.keys_apart h.keys_act)
      (diff_table_options-draft opts)
