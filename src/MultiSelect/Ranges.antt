-- ===== src/MultiSelect/Ranges.antt =====
-- What a click selects.
use basemaster.Base.{
  suc, ◌+◌, ◌≡◌, ◌≢◌, refl, ap, ◌∙◌, ◌&&◌, ◌||◌, ◌⊎◌, not, String, Bool, true, false, none, some,
  List, [], ◌∷◌, ◌++◌, slice, slice-append, length, length-append, arith, leb, str_eq, eq_iff,
  eq_refl, if◌then◌else◌, Bool-cases, inl, inr,
}
use mathlib.Core.List.{append_assoc}
use basemaster.Base.Dict.{includes}
use basemaster.MultiSelect.{
  SidebarMultiScope, SidebarMultiState, same_multi_scope, set_ordered_list, index_of, add_range,
  handle_click, is_selected,
}

same_multi_scope_self : (scope : SidebarMultiScope) → same_multi_scope (some scope) scope ≡ true
same_multi_scope_self scope = ground (arith, eq_refl scope.connection_id, eq_refl scope.schema)

not_empty : (x : String) → x ≢ "" → str_eq x "" ≡ false
not_empty x h = ground (arith, eq_iff x "")

-- A plain click selects the table alone; a click with Ctrl in the scope of the selection changes
-- whether the table is selected and nothing else; in another scope it selects the table alone.
pub is_selected-handle_click :
    (scope : SidebarMultiScope) (table : String) (ctrl : Bool) (s : SidebarMultiState) (t : String)
    → is_selected scope t (handle_click scope table (record { ctrl = ctrl; shift = false }) s) ≡ (
        if ctrl && same_multi_scope s.scope scope
        then (if str_eq table t then not (is_selected scope table s) else is_selected scope t s)
        else str_eq table t)
unfolding is_selected handle_click
is_selected-handle_click scope table ctrl s t = ground (arith, same_multi_scope_self scope)

index_of-append :
    (x : String) (left right : List String)
    → includes x left ≡ false
    → index_of x (left ++ x ∷ right) ≡ some (length left)
unfolding includes
index_of-append x [] right h = rw eq_refl
index_of-append x (y ∷ left) right h = ground (arith, index_of-append x left right, eq_iff y x)

-- The places of the two ends, and the slice between them, in a list that holds them.
module _ (left : List String) (x : String) (mid : List String) (y : String) (right : List String)
    (x_new : includes x left ≡ false) (y_new : includes y (left ++ x ∷ mid) ≡ false) where
  abbrev whole : List String
  whole = left ++ ((x ∷ mid ++ y ∷ []) ++ right)

  index_of_first : index_of x whole ≡ some (length left)
  index_of_first = index_of-append x left _ x_new

  index_of_last : index_of y whole ≡ some (length left + suc (length mid))
  index_of_last =
      ap (index_of y) (simp append_assoc)
      ∙ index_of-append y (left ++ x ∷ mid) right y_new
      ∙ ap some (length-append left (x ∷ mid))

  slice_range : slice (length left) (length left + suc (length mid) + 1) whole ≡ x ∷ mid ++ y ∷ []
  slice_range =
      let e : length left + suc (length mid) + 1 ≡ length left + length (x ∷ mid ++ y ∷ []) =
        omega (arith, length-append {0} mid (y ∷ [])) in
      rw e (slice-append left (x ∷ mid ++ y ∷ []) right)

  add_range_up :
      (selected : String → Bool) (t : String)
      → add_range (length left) (length left + suc (length mid)) whole selected t
        ≡ (selected t || includes t (x ∷ mid ++ y ∷ []))
  add_range_up selected t =
      rw
        (
          let e : leb (length left) (length left + suc (length mid)) ≡ true = ground arith in e,
          slice_range,
        )
        refl

  add_range_down :
      (selected : String → Bool) (t : String)
      → add_range (length left + suc (length mid)) (length left) whole selected t
        ≡ (selected t || includes t (x ∷ mid ++ y ∷ []))
  add_range_down selected t =
      rw
        (
          let e : leb (length left + suc (length mid)) (length left) ≡ false = ground arith in e,
          slice_range,
        )
        refl

  shift_click_up :
      (scope : SidebarMultiScope) (ctrl : Bool) (s : SidebarMultiState) (t : String)
      → same_multi_scope s.scope scope ≡ true
      → s.ordered ≡ whole
      → s.anchor ≡ some x
      → x ≢ ""
      → is_selected scope t (handle_click scope y (record { ctrl = ctrl; shift = true }) s)
        ≡ (s.selected t || includes t (x ∷ mid ++ y ∷ []))
  unfolding is_selected handle_click
  shift_click_up scope ctrl s t here e a ne =
      simp (here, a, not_empty x ne, e, index_of_first, index_of_last, same_multi_scope_self)
        (add_range_up s.selected t)

  shift_click_down :
      (scope : SidebarMultiScope) (ctrl : Bool) (s : SidebarMultiState) (t : String)
      → same_multi_scope s.scope scope ≡ true
      → s.ordered ≡ whole
      → s.anchor ≡ some y
      → y ≢ ""
      → is_selected scope t (handle_click scope x (record { ctrl = ctrl; shift = true }) s)
        ≡ (s.selected t || includes t (x ∷ mid ++ y ∷ []))
  unfolding is_selected handle_click
  shift_click_down scope ctrl s t here e a ne =
      simp (here, a, not_empty y ne, e, index_of_first, index_of_last, same_multi_scope_self)
        (add_range_down s.selected t)

  -- A click with Shift in the scope of the selection, where the list holds the anchor and the table,
  -- and neither is the empty text, adds to the selection exactly the tables from the one to the other,
  -- both included, in whichever order the two stand; Ctrl makes no difference. `x` and `y` are the
  -- two, at their first places in the list, with `mid` between them.
  pub is_selected-shift_click :
      (scope : SidebarMultiScope) (ctrl : Bool) (s : SidebarMultiState) (anchor table t : String)
      → same_multi_scope s.scope scope ≡ true
      → s.ordered ≡ whole
      → s.anchor ≡ some anchor
      → anchor ≢ ""
      → ((anchor ≡ x) × (table ≡ y)) ⊎ ((anchor ≡ y) × (table ≡ x))
      → is_selected scope t (handle_click scope table (record { ctrl = ctrl; shift = true }) s)
        ≡ (s.selected t || includes t (x ∷ mid ++ y ∷ []))
  is_selected-shift_click scope ctrl s anchor table t here e a ne (inl (p, q)) =
      rw q (shift_click_up scope ctrl s t here e (a ∙ ap some p) (λ z. ne (p ∙ z)))
  is_selected-shift_click scope ctrl s anchor table t here e a ne (inr (p, q)) =
      rw q (shift_click_down scope ctrl s t here e (a ∙ ap some p) (λ z. ne (p ∙ z)))

-- The list of tables is one for all schemas, and every schema's node sets it. After another scope has
-- set it to a list without the anchor, a click with Shift in the scope of the selection extends no range:
-- it selects the table alone.
pub handle_click_foreign :
    (scope other : SidebarMultiScope) (foreign : List String) (table anchor : String)
    (s : SidebarMultiState) (t : String)
    → same_multi_scope s.scope scope ≡ true
    → same_multi_scope s.scope other ≡ false
    → s.anchor ≡ some anchor
    → index_of anchor foreign ≡ none
    → is_selected scope t (
        handle_click scope table
          (record { ctrl = false; shift = true })
          (set_ordered_list other foreign s))
      ≡ str_eq table t
unfolding is_selected handle_click set_ordered_list
handle_click_foreign scope other foreign table anchor s t here there a absent =
    elim (Bool-cases (str_eq anchor "")) [
      | inl e ↦ simp (there, here, a, e, same_multi_scope_self)
      | inr e ↦ simp (there, here, a, e, absent, same_multi_scope_self)
    ]
