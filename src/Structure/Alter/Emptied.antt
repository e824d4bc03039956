-- ===== src/Structure/Alter/Emptied.antt =====
-- A foreign key of components/table/structure-pane.tsx whose draft has no columns any more.
use basemaster.Base.{
  ◌≡◌, refl, ap, ◌∙◌, Bool, true, false, Option, none, some, List, [], ◌∷◌, arith,
}
use basemaster.Base.Text.{Text, codes, same_text, join}
use basemaster.Types.{ForeignKeyInfo}
use basemaster.Tabs.Draft.{DraftForeignKey}
use basemaster.Structure.Changed.{fk_changed}
use basemaster.Structure.Alter.{drop_fk, is_for, or_this, some_columns, find_last, fk_drop, fk_add}
use basemaster.Structure.Alter.Kept.{is_for_named}
use basemaster.Structure.Alter.Found.{some_text}

same_text-nil : (t : Text) → some_text t ≡ true → same_text t [] ≡ false
unfolding same_text
same_text-nil [] h = absurd (cc h)
same_text-nil (c ∷ t) h = refl

fk_changed-emptied :
    (f : ForeignKeyInfo) (d : DraftForeignKey)
    → d.columns ≡ []
    → some_text (join (codes ",") f.columns) ≡ true
    → fk_changed f d ≡ true
unfolding fk_changed join
fk_changed-emptied f d c j = ground (
  arith,
  ap (λ cs. same_text (join (codes ",") f.columns) (join (codes ",") cs)) c,
  same_text-nil (join (codes ",") f.columns) j,
)

fk_drop-changed :
    (f : ForeignKeyInfo) (d : DraftForeignKey) (o : Option DraftForeignKey)
    → o ≡ some d
    → fk_changed f d ≡ true
    → fk_drop f o ≡ drop_fk f.name ∷ []
unfolding fk_drop
fk_drop-changed f d o e h = rw (e, h) refl

or_this-true : {b : Bool} (d : DraftForeignKey) → b ≡ true → or_this b d none ≡ some d
or_this-true d e = rw e refl

fk_add-emptied :
    (fks : List ForeignKeyInfo) (d : DraftForeignKey) → d.columns ≡ [] → fk_add fks d ≡ []
unfolding fk_add
fk_add-emptied fks d c = let e : some_columns d.columns ≡ false = ap some_columns c in rw e refl

-- A foreign key with columns, whose draft has lost them all, is dropped and not added again.
pub alter_actions-emptied_fk :
    (f : ForeignKeyInfo) (d : DraftForeignKey)
    → some_text f.name ≡ true
    → d.original_name ≡ some f.name
    → d.columns ≡ []
    → some_text (join (codes ",") f.columns) ≡ true
    → (fk_drop f (find_last (λ e. is_for f.name e.original_name) (d ∷ [])) ≡ drop_fk f.name ∷ [])
      × (fk_add (f ∷ []) d ≡ [])
alter_actions-emptied_fk f d n o c j = (
  fk_drop-changed f d _ (or_this-true d (ap (is_for f.name) o ∙ is_for_named f.name n))
      (fk_changed-emptied f d c j),
  fk_add-emptied (f ∷ []) d c,
)
