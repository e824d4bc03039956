-- ===== src/Tabs/Closing.antt =====
-- What closing does: to the focus, and to the state that is kept for the tabs.
use basemaster.Base.{
  ◌+◌, ◌≡◌, refl, ap, ◌∙◌, String, Bool, false, not, none, some, List, [], ◌∷◌, ◌++◌, arith, length,
  get_elem?, filter, find_index, any, str_eq, eq_refl, if◌then◌else◌, length-append,
}
use basemaster.Base.Dict.{remove}
use basemaster.Tabs.Runtime.{ByTab}
use basemaster.Tabs.Store.{
  Tab, World, TabsState, id_is, ids, without, before, close_bar, remove_all, close_many,
}
use basemaster.Tabs.Invariant.{has_id}

without_absent : (id : String) (tabs : List Tab) → has_id id tabs ≡ false → without id tabs ≡ tabs
without_absent id [] h = refl
without_absent id (t ∷ tabs) h = ground (arith, without_absent id tabs)

without-append :
    (id : String) (left : List Tab) (t : Tab) (right : List Tab)
    → has_id id left ≡ false
    → has_id id right ≡ false
    → t.id ≡ id
    → without id (left ++ t ∷ right) ≡ left ++ right
without-append id [] t right hl hr e = rw (e, eq_refl) (without_absent id right hr)
without-append id (u ∷ left) t right hl hr e = ground (arith, without-append id left t right)

find_index-append :
    (id : String) (left : List Tab) (t : Tab) (right : List Tab)
    → has_id id left ≡ false
    → t.id ≡ id
    → find_index (id_is id) (left ++ t ∷ right) ≡ some (length left)
find_index-append id [] t right hl e = rw (e, eq_refl)
find_index-append id (u ∷ left) t right hl e = ground (arith, find_index-append id left t right)

get_elem?-neighbour :
    (left : List Tab) (u : Tab) (right : List Tab)
    → get_elem? ((left ++ u ∷ []) ++ right) (length left) ≡ some u
get_elem?-neighbour [] u right = refl
get_elem?-neighbour (t ∷ left) u right = get_elem?-neighbour left u right

before_length : (left : List Tab) (u : Tab) → before (some (length (left ++ u ∷ []))) ≡ length left
before_length left u = omega (arith, length-append {0} left (u ∷ []))

-- Closing the active tab, if it is not the first one and no other tab has its id, focuses the tab to
-- its left, and keeps the other tabs in their order.
pub close_bar_left :
    (left : List Tab) (u t : Tab) (right : List Tab) (s : TabsState)
    → s.tabs ≡ (left ++ u ∷ []) ++ t ∷ right
    → s.active_id ≡ some t.id
    → has_id t.id (left ++ u ∷ []) ≡ false
    → has_id t.id right ≡ false
    → close_bar t.id s ≡ record { tabs = (left ++ u ∷ []) ++ right; active_id = some u.id }
unfolding close_bar
close_bar_left left u t right s e a hl hr =
    rw
      (
        e,
        a,
        eq_refl,
        without-append t.id (left ++ u ∷ []) t right hl hr refl,
        find_index-append t.id (left ++ u ∷ []) t right hl refl,
        before_length left u,
        get_elem?-neighbour left u right,
      )
      refl

remove_all_lem :
    (removed : List String) (by_tab : ByTab) (j : String)
    → remove_all removed by_tab j ≡ (if any (λ id. str_eq id j) removed then none else by_tab j)
unfolding remove_all remove
remove_all_lem [] by_tab j = refl
remove_all_lem (id ∷ removed) by_tab j = ground (arith, remove_all_lem removed (remove id by_tab) j)

any-ids : (j : String) (tabs : List Tab) → any (λ id. str_eq id j) (ids tabs) ≡ has_id j tabs
any-ids j [] = refl
any-ids j (t ∷ tabs) = ground (arith, any-ids j tabs)

counts :
    (predicate : Tab → Bool) (tabs : List Tab)
    → length (filter (λ t. not (predicate t)) tabs) + length (filter predicate tabs) ≡ length tabs
counts predicate [] = omega arith
counts predicate (t ∷ tabs) = ground (arith, counts predicate tabs)

-- Closing several tabs keeps exactly the others in their order, drops the kept state of exactly the
-- closed tabs (`j` is any id), and returns how many it closed.
pub close_many_lem :
    (predicate : Tab → Bool) (w : World) (j : String)
    → ((close_many predicate w).0.bar.tabs ≡ filter (λ t. not (predicate t)) w.bar.tabs)
      × ((close_many predicate w).0.by_tab j
          ≡ (if has_id j (filter predicate w.bar.tabs) then none else w.by_tab j))
      × (length (close_many predicate w).0.bar.tabs + (close_many predicate w).1
          ≡ length w.bar.tabs)
unfolding close_many
close_many_lem predicate w j = (
  refl,
  remove_all_lem (ids (filter predicate w.bar.tabs)) w.by_tab j
      ∙ ap (λ (b : Bool). if b then none else w.by_tab j) (any-ids j (filter predicate w.bar.tabs)),
  counts predicate w.bar.tabs,
)
