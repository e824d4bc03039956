-- ===== src/TableView/Undo/Sessions.antt =====
-- What undo and redo give back in table-view.tsx, in any session of edits.
use basemaster.Base.{◌≡◌, refl, ap, ◌∙◌, false, some, List, [], ◌∷◌}
use basemaster.TableView.Undo.{
  History, edit, load, undo_edit, redo_edit, Source, button, keyboard, seen_from,
}

-- What the user does to a loaded page.
pub data Act {ℓ} (A : Type ℓ) : Type ℓ where
  edits : A → Act A
  undoes redoes : Source → Act A

-- A plain model: what was shown before, the nearest first, what is shown now, and what comes after.
pub record Timeline {ℓ} (A : Type ℓ) : Type ℓ where
  pub before : List A
  pub now : A
  pub after : List A

-- `mounted`: the stores of the first render.
module _ {ℓ} {A : Type ℓ} (mounted : A) where
  unfoldable pub perform : Act A → History A → History A
  unfolding edit undo_edit redo_edit
  perform (edits s) h = edit s h
  perform (undoes by) h = undo_edit (seen_from by mounted h.current) h
  perform (redoes by) h = redo_edit (seen_from by mounted h.current) h

  unfoldable pub session : List (Act A) → History A → History A
  unfolding perform
  session [] h = h
  session (a ∷ acts) h = session acts (perform a h)

  -- A button keeps what is shown now; a key keeps the stores of the first render in its place.
  abbrev pub kept : Source → A → A
  kept button now = now
  kept keyboard now = mounted

  abbrev pub back : Source → List A → Timeline A → Timeline A
  back by [] t = t
  back by (s ∷ before) t = record { before = before; now = s; after = kept by t.now ∷ t.after }

  abbrev pub forth : Source → List A → Timeline A → Timeline A
  forth by [] t = t
  forth by (s ∷ after) t = record { before = kept by t.now ∷ t.before; now = s; after = after }

  unfoldable pub step : Act A → Timeline A → Timeline A
  step (edits s) t = record { before = t.now ∷ t.before; now = s; after = [] }
  step (undoes by) t = back by t.before t
  step (redoes by) t = forth by t.after t

  unfoldable pub steps : List (Act A) → Timeline A → Timeline A
  unfolding step
  steps [] t = t
  steps (a ∷ acts) t = steps acts (step a t)

  -- The refs that stand for a state of the plain model.
  unfoldable pub refs : Timeline A → History A
  refs t = record {
    current = t.now;
    past = t.before;
    future = t.after;
    last = some t.now;
    skip_next = false;
  }

  undo_edit-refs :
      (by : Source) (before after : List A) (now : A)
      → undo_edit
          (seen_from by mounted now)
          (refs (record { before = before; now = now; after = after }))
        ≡ refs (back by before (record { before = before; now = now; after = after }))
  unfolding undo_edit refs
  undo_edit-refs by [] after now = refl
  undo_edit-refs button (s ∷ before) after now = refl
  undo_edit-refs keyboard (s ∷ before) after now = refl

  redo_edit-refs :
      (by : Source) (before after : List A) (now : A)
      → redo_edit
          (seen_from by mounted now)
          (refs (record { before = before; now = now; after = after }))
        ≡ refs (forth by after (record { before = before; now = now; after = after }))
  unfolding redo_edit refs
  redo_edit-refs by before [] now = refl
  redo_edit-refs button before (s ∷ after) now = refl
  redo_edit-refs keyboard before (s ∷ after) now = refl

  perform-refs : (a : Act A) (t : Timeline A) → perform a (refs t) ≡ refs (step a t)
  unfolding perform step
  perform-refs (edits s) t = unfold refs edit in refl
  perform-refs (undoes by) t = unfold refs in undo_edit-refs by t.before t.after t.now
  perform-refs (redoes by) t = unfold refs in redo_edit-refs by t.before t.after t.now

  session-refs :
      (acts : List (Act A)) (t : Timeline A) → session acts (refs t) ≡ refs (steps acts t)
  unfolding session steps
  session-refs [] t = refl
  session-refs (a ∷ acts) t = ap (session acts) (perform-refs a t) ∙ session-refs acts (step a t)

  edit-load :
      (s t : A) (h : History A)
      → edit t (load s h) ≡ refs (record { before = []; now = t; after = [] })
  unfolding load refs
  edit-load s t h = refl

  -- After a page is loaded, whatever was recorded before, and a first edit, any sequence of edits, undos
  -- and redos shows and keeps what the plain model says, started at the first edit: an edit drops what was
  -- undone, an undo steps back one edit and a redo forth one, but no undo steps back to the page as loaded.
  -- What is shown when a button undoes or redoes is kept for the way back; by the keyboard it is lost, and
  -- the stores of the first render are kept in its place.
  pub session-load :
      (loaded first : A) (h : History A) (acts : List (Act A))
      → session (edits first ∷ acts) (load loaded h)
        ≡ refs (steps acts (record { before = []; now = first; after = [] }))
  unfolding session perform
  session-load loaded first h acts =
      ap (session acts) (edit-load loaded first h) ∙ session-refs acts _
