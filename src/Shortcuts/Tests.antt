-- ===== src/Shortcuts/Tests.antt =====
-- Bindings in their canonical form, and the theorem at a user's overrides.
use basemaster.Base.{◌≡◌, refl, true, false, none, some, [], ◌∷◌}
use basemaster.Base.Text.{codes, same_text, lower}
use basemaster.Shortcuts.{Overrides, set_binding, reset_all, index_by_binding}
use basemaster.Shortcuts.Match.{KeyPress, capitalize, rank, normalize_binding, event_to_binding}

sorted_mods : normalize_binding (codes "shift + cmd+esc") ≡ codes "Shift+Meta+Escape"
unfolding normalize_binding capitalize rank same_text lower
sorted_mods = refl

abbrev control_plus : KeyPress
control_plus = record { key = codes "+"; ctrl = true; meta = false; alt = false; shift = false }

-- The plus key is lost: its press has the binding of the modifier alone.
plus_lost : event_to_binding false control_plus ≡ some (codes "Mod")
unfolding event_to_binding normalize_binding capitalize rank same_text lower
plus_lost = refl

abbrev overrides : Overrides
overrides = set_binding (codes "global.palette") (some (codes "mod+s")) (reset_all (λ id. none))

both_bound :
    index_by_binding overrides (codes "Mod+S") ≡ codes "query.save" ∷ codes "global.palette" ∷ []
unfolding index_by_binding set_binding reset_all normalize_binding capitalize rank same_text lower
both_bound = refl
