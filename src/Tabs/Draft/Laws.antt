-- ===== src/Tabs/Draft/Laws.antt =====
-- Patching and clearing the drafts of tabs.
use basemaster.Base.{◌≡◌, refl, String, Option, none, some, arith, str_eq, eq_refl, if◌then◌else◌}
use basemaster.Base.Dict.{put, remove}
use basemaster.Tabs.Runtime.{over}
use basemaster.Tabs.Draft.{
  TableDraftEntry, DraftPatch, Drafts, over_entry, entry_of, get_draft, patch_draft, clear_draft,
}

abbrev pub later {ℓ} : {A : Type ℓ} → Option A → Option A → Option A
later none p = p
later (some q) p = some q

-- Both patches, with the keys of `q` over those of `p`.
abbrev pub over_patch : DraftPatch → DraftPatch → DraftPatch
over_patch q p = record {
  view = later q.view p.view;
  editing = later q.editing p.editing;
  structure_tab = later q.structure_tab p.structure_tab;
  draft_cols = later q.draft_cols p.draft_cols;
  draft_idx = later q.draft_idx p.draft_idx;
  draft_fks = later q.draft_fks p.draft_fks;
  draft_opts = later q.draft_opts p.draft_opts;
}

over-over {ℓ} : {A : Type ℓ} (q p : Option A) (a : A) → over q (over p a) ≡ over (later q p) a
over-over none p a = refl
over-over (some q) p a = refl

over_entry-over_patch :
    (q p : DraftPatch) (e : TableDraftEntry)
    → over_entry q (over_entry p e) ≡ over_entry (over_patch q p) e
over_entry-over_patch q p e =
    rw
      (
        over-over q.view p.view e.view,
        over-over q.editing p.editing e.editing,
        over-over q.structure_tab p.structure_tab e.structure_tab,
        over-over q.draft_cols p.draft_cols e.draft_cols,
        over-over q.draft_idx p.draft_idx e.draft_idx,
        over-over q.draft_fks p.draft_fks e.draft_fks,
        over-over q.draft_opts p.draft_opts e.draft_opts,
      )
      refl

-- Two patches of a tab's draft, one after the other, leave what one patch leaves that has the keys of
-- both, the later one's first; clearing a draft after a patch leaves none for the tab; and no other
-- tab's draft changes.
pub patch_draft-patch_draft :
    (tab_id : String) (q p : DraftPatch) (s : Drafts) (j : String)
    → (get_draft j (patch_draft tab_id q (patch_draft tab_id p s)) ≡ (
        if str_eq tab_id j
        then some (over_entry (over_patch q p) (entry_of (get_draft tab_id s)))
        else get_draft j s))
      × (get_draft j (clear_draft tab_id (patch_draft tab_id p s))
          ≡ (if str_eq tab_id j then none else get_draft j s))
unfolding get_draft patch_draft clear_draft put remove
patch_draft-patch_draft tab_id q p s j = (
  rw (eq_refl tab_id, over_entry-over_patch q p (entry_of (s tab_id))) (ground arith),
  ground arith,
)
