-- ===== src/MultiSelect/Tests.antt =====
-- The theorems on a list of four tables, with the second one selected.
use basemaster.Base.{◌≡◌, refl, ◌||◌, String, true, false, some, [], ◌∷◌, ◌⊎◌, inl}
use basemaster.Base.Dict.{includes}
use basemaster.MultiSelect.{SidebarMultiScope, SidebarMultiState, only, handle_click, is_selected}
use basemaster.MultiSelect.Ranges.{is_selected-shift_click}

abbrev here : SidebarMultiScope
here = record { connection_id = "c"; schema = "s" }

abbrev there : SidebarMultiScope
there = record { connection_id = "c"; schema = "z" }

abbrev picked : SidebarMultiState
picked = record {
  scope = some here;
  selected = only "b";
  anchor = some "b";
  ordered = "a" ∷ "b" ∷ "c" ∷ "d" ∷ [];
}

abbrev anchor : String
anchor = "b"

abbrev table : String
table = "d"

ends : ((anchor ≡ "b") × (table ≡ "d")) ⊎ ((anchor ≡ "d") × (table ≡ "b"))
ends = inl (refl, refl)

is_selected-shift_click_example :
    is_selected here "c" (handle_click here "d" (record { ctrl = false; shift = true }) picked)
    ≡ (picked.selected "c" || includes "c" ("b" ∷ "c" ∷ "d" ∷ []))
unfolding includes
is_selected-shift_click_example =
    is_selected-shift_click ("a" ∷ []) "b" ("c" ∷ []) "d" [] refl refl here false picked "b" "d" "c"
      refl refl refl (cc) ends
