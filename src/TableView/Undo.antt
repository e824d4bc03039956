-- ===== src/TableView/Undo.antt =====
-- Undo and redo of the edits in memory in components/table/table-view.tsx: the three stores of edits are
-- one snapshot, and an effect behind each render records the snapshot that it replaces.
pub mod Sessions
use basemaster.Base.{◌≡◌, refl, Bool, true, false, Option, none, some, List, [], ◌∷◌, if◌then◌else◌}

-- `historyRef` with the last entry of each stack in front, `lastSnapshotRef`, `skipNextHistoryRef`, and
-- the snapshot that the stores hold.
pub record History {ℓ} (A : Type ℓ) : Type ℓ where
  pub current : A
  pub past : List A
  pub future : List A
  pub last : Option A
  pub skip_next : Bool

-- What an undo or a redo comes from, which says the render whose closure it calls: a button of the last
-- render, or the key handler, which an effect without dependencies registers in the first render.
pub data Source : Type 0 where
  button keyboard : Source

module _ {ℓ} {A : Type ℓ} where
  abbrev pub recorded : Option A → History A → History A
  recorded none h = h
  recorded (some s) h = record h { past = s ∷ h.past; future = [] }

  -- The effect of `[dirty, rowsToDelete, newRows]`.
  unfoldable pub capture : History A → History A
  capture h =
      if h.skip_next
      then record h { skip_next = false; last = some h.current }
      else record (recorded h.last h) { last = some h.current }

  -- The effect of `[data]`.
  abbrev pub reset : History A → History A
  reset h = record h { past = []; future = []; last = none; skip_next = true }

  -- The stores are set, and their effect runs.
  unfoldable pub edit : A → History A → History A
  unfolding capture
  edit s h = capture (record h { current = s })

  -- The page and the stores are set at once, and both effects run, in the order of their declarations.
  unfoldable pub load : A → History A → History A
  unfolding edit
  load s h = reset (edit s h)

  -- `applySnapshot`, and the effect of the stores that it sets.
  unfoldable pub apply_snapshot : A → History A → History A
  unfolding edit
  apply_snapshot s h = edit s (record h { skip_next = true })

  -- `seen` is what `takeSnapshot` reads: the stores of the render whose closure is called.
  abbrev pub undo_from : A → List A → History A → History A
  undo_from seen [] h = h
  undo_from seen (s ∷ past) h =
      apply_snapshot s (record h { past = past; future = seen ∷ h.future })

  unfoldable pub undo_edit : A → History A → History A
  unfolding apply_snapshot
  undo_edit seen h = undo_from seen h.past h

  abbrev pub redo_from : A → List A → History A → History A
  redo_from seen [] h = h
  redo_from seen (s ∷ future) h =
      apply_snapshot s (record h { future = future; past = seen ∷ h.past })

  unfoldable pub redo_edit : A → History A → History A
  unfolding apply_snapshot
  redo_edit seen h = redo_from seen h.future h

  -- The stores that the closure sees, of those of the first render and those of now.
  abbrev pub seen_from : Source → A → A → A
  seen_from button mounted now = now
  seen_from keyboard mounted now = mounted
