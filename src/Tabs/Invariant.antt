-- ===== src/Tabs/Invariant.antt =====
-- The invariant of the tab bar, and every operation's preservation of it.
use basemaster.Base.{
  ℕ, zero, suc, ◌≡◌, refl, ◌∙◌, String, Bool, true, false, not, ◌||◌, Option, none, some, List, [],
  ◌∷◌, ◌++◌, map, arith, get_elem?, filter, find, any, head?, str_eq, eq_iff, eq_refl,
  if◌then◌else◌, Bool-cases, Option-cases, inl, inr,
}
use basemaster.Tabs.Store.{
  Tab, NewTab, TabPatch, TabsState, World, id_is, id_or, is_active, over_tab, open_tab,
  open_or_focus, close_bar, close_many, patch, restored, sanitize_restored, without, welcome_tab,
  or_new, active_is,
}

abbrev pub has_id : String → List Tab → Bool
has_id id tabs = any (id_is id) tabs

-- No two tabs have one id.
abbrev pub AreDistinct : List Tab → Type 0
AreDistinct [] = Unit
AreDistinct (t ∷ tabs) = (has_id t.id tabs ≡ false) × AreDistinct tabs

-- The active id is that of an open tab, and null exactly if no tab is open.
abbrev pub IsActive : Option String → List Tab → Type 0
IsActive none tabs = tabs ≡ []
IsActive (some id) tabs = has_id id tabs ≡ true

pub record IsValid (s : TabsState) : Type 0 where
  pub distinct : AreDistinct s.tabs
  pub active : IsActive s.active_id s.tabs

has_id-append :
    (id : String) (xs ys : List Tab) → has_id id (xs ++ ys) ≡ (has_id id xs || has_id id ys)
has_id-append id [] ys = refl
has_id-append id (x ∷ xs) ys = ground (arith, has_id-append id xs ys)

has_id_self : (t : Tab) (tabs : List Tab) → has_id t.id (t ∷ tabs) ≡ true
has_id_self t tabs = rw eq_refl

AreDistinct-append :
    (xs : List Tab) (t : Tab) → AreDistinct xs → has_id t.id xs ≡ false → AreDistinct (xs ++ t ∷ [])
AreDistinct-append [] t d h = (refl, tt)
AreDistinct-append (x ∷ xs) t d h = (
  ground (arith, has_id-append x.id xs (t ∷ []), eq_iff x.id t.id, eq_iff t.id x.id),
  AreDistinct-append xs t d.1 (ground arith),
)

has_id-filter :
    (id : String) (keep : Tab → Bool) (tabs : List Tab)
    → has_id id tabs ≡ false
    → has_id id (filter keep tabs) ≡ false
has_id-filter id keep [] h = refl
has_id-filter id keep (t ∷ tabs) h = ground (arith, has_id-filter id keep tabs)

AreDistinct-filter :
    (keep : Tab → Bool) (tabs : List Tab) → AreDistinct tabs → AreDistinct (filter keep tabs)
AreDistinct-filter keep [] d = tt
AreDistinct-filter keep (t ∷ tabs) d = elim (Bool-cases (keep t)) [
  | inl e ↦ rw e (has_id-filter t.id keep tabs d.0, AreDistinct-filter keep tabs d.1)
  | inr e ↦ rw e (AreDistinct-filter keep tabs d.1)
]

has_id_of_get :
    (tabs : List Tab) (k : ℕ) (t : Tab) → get_elem? tabs k ≡ some t → has_id t.id tabs ≡ true
has_id_of_get [] k t h = absurd (cc h)
has_id_of_get (u ∷ tabs) zero t h = ground (arith, eq_iff u.id t.id)
has_id_of_get (u ∷ tabs) (suc k) t h = ground (arith, has_id_of_get tabs k t h)

-- The tab that takes the focus is one of the list, and there is none only if the list is empty.
IsActive-id_or :
    (k : ℕ) (tabs : List Tab) → IsActive (id_or (get_elem? tabs k) (id_or (head? tabs) none)) tabs
IsActive-id_or k [] = refl
IsActive-id_or k (t ∷ tabs) = elim (Option-cases (get_elem? (t ∷ tabs) k)) [
  | inl e ↦ rw e (has_id_self t tabs)
  | inr (u, e) ↦ rw e (has_id_of_get (t ∷ tabs) k u e)
]

has_id-filter_ne :
    (a id : String) (tabs : List Tab)
    → str_eq a id ≡ false
    → has_id a tabs ≡ true
    → has_id a (without id tabs) ≡ true
has_id-filter_ne a id [] e h = h
has_id-filter_ne a id (t ∷ tabs) e h =
    ground (arith, has_id-filter_ne a id tabs e, eq_iff t.id id, eq_iff a id, eq_iff t.id a)

any-is_active : (a : String) (tabs : List Tab) → any (is_active (some a)) tabs ≡ has_id a tabs
any-is_active a [] = refl
any-is_active a (t ∷ tabs) = ground (arith, any-is_active a tabs, eq_iff a t.id, eq_iff t.id a)

any-none : (tabs : List Tab) → any (is_active none) tabs ≡ false
any-none [] = refl
any-none (t ∷ tabs) = any-none tabs

-- What `closeMany` and the restoring keep active.
IsActive-keep :
    (active : Option String) (keep : List Tab)
    → IsActive (if any (is_active active) keep then active else id_or (head? keep) none) keep
IsActive-keep none [] = refl
IsActive-keep (some a) [] = refl
IsActive-keep none (t ∷ keep) = rw (any-none (t ∷ keep)) (has_id_self t keep)
IsActive-keep (some a) (t ∷ keep) = elim (Bool-cases (any (is_active (some a)) (t ∷ keep))) [
  | inl e ↦ rw e (rw (any-is_active a (t ∷ keep)) at e)
  | inr e ↦ rw e (has_id_self t keep)
]

or_true : (b : Bool) → (b || true) ≡ true
or_true true = refl
or_true false = refl

pub open_tab-IsValid :
    (tab : NewTab) (explicit_id : Option String) (fresh : String) (s : TabsState)
    → IsValid s
    → has_id (open_tab tab explicit_id fresh s).1 s.tabs ≡ false
    → IsValid (open_tab tab explicit_id fresh s).0
unfolding open_tab
open_tab-IsValid tab explicit_id fresh s v new = record {
  distinct = AreDistinct-append s.tabs _ v.distinct new;
  active = rw (has_id-append, eq_refl) (or_true (has_id (or_new explicit_id fresh) s.tabs));
}

has_id-find :
    (matches : Tab → Bool) (tabs : List Tab) (t : Tab)
    → find matches tabs ≡ some t
    → has_id t.id tabs ≡ true
has_id-find matches [] t h = absurd (cc h)
has_id-find matches (u ∷ tabs) t h = ground (arith, has_id-find matches tabs t, eq_iff u.id t.id)

pub open_or_focus-IsValid :
    (matches : Tab → Bool) (tab : NewTab) (fresh : String) (s : TabsState)
    → IsValid s
    → has_id fresh s.tabs ≡ false
    → IsValid (open_or_focus matches tab fresh s).0
unfolding open_or_focus
open_or_focus-IsValid matches tab fresh s v new = elim (Option-cases (find matches s.tabs)) [
  | inl e ↦ rw e (open_tab-IsValid tab none fresh s v (unfold open_tab in new))
  | inr (t, e) ↦ rw e (record { distinct = v.distinct; active = has_id-find matches s.tabs t e })
]

IsActive-without :
    (id : String) (k : ℕ) (active : Option String) (tabs : List Tab)
    → IsActive active tabs
    → IsActive
        (if active_is active id
          then id_or (get_elem? (without id tabs) k) (id_or (head? (without id tabs)) none)
          else active)
        (without id tabs)
IsActive-without id k none tabs a = rw a refl
IsActive-without id k (some a) tabs h = elim (Bool-cases (str_eq a id)) [
  | inl e ↦ rw e (IsActive-id_or k (without id tabs))
  | inr e ↦ rw e (has_id-filter_ne a id tabs e h)
]

pub close_bar-IsValid : (id : String) (s : TabsState) → IsValid s → IsValid (close_bar id s)
unfolding close_bar
close_bar-IsValid id s v = record {
  distinct = AreDistinct-filter _ s.tabs v.distinct;
  active = IsActive-without id _ s.active_id s.tabs v.active;
}

pub close_many-IsValid :
    (predicate : Tab → Bool) (w : World) → IsValid w.bar → IsValid (close_many predicate w).0.bar
unfolding close_many
close_many-IsValid predicate w v = record {
  distinct = AreDistinct-filter _ w.bar.tabs v.distinct;
  active = IsActive-keep w.bar.active_id (filter (λ t. not (predicate t)) w.bar.tabs);
}

abbrev patched : String → TabPatch → List Tab → List Tab
patched id p tabs = map (λ t. if id_is id t then over_tab p t else t) tabs

has_id-patched :
    (a id : String) (p : TabPatch) (tabs : List Tab) → has_id a (patched id p tabs) ≡ has_id a tabs
has_id-patched a id p [] = refl
has_id-patched a id p (t ∷ tabs) = ground (arith, has_id-patched a id p tabs)

AreDistinct-patched :
    (id : String) (p : TabPatch) (tabs : List Tab)
    → AreDistinct tabs
    → AreDistinct (patched id p tabs)
AreDistinct-patched id p [] d = tt
AreDistinct-patched id p (t ∷ tabs) d = elim (Bool-cases (id_is id t)) [
  | inl e ↦ rw e (has_id-patched t.id id p tabs ∙ d.0, AreDistinct-patched id p tabs d.1)
  | inr e ↦ rw e (has_id-patched t.id id p tabs ∙ d.0, AreDistinct-patched id p tabs d.1)
]

IsActive-patched :
    (id : String) (p : TabPatch) (active : Option String) (tabs : List Tab)
    → IsActive active tabs
    → IsActive active (patched id p tabs)
IsActive-patched id p none tabs h = rw h refl
IsActive-patched id p (some a) tabs h = rw has_id-patched h

pub patch-IsValid :
    (id : String) (p : TabPatch) (s : TabsState) → IsValid s → IsValid (patch id p s)
unfolding patch
patch-IsValid id p s v = record {
  distinct = AreDistinct-patched id p s.tabs v.distinct;
  active = IsActive-patched id p s.active_id s.tabs v.active;
}

restored-IsValid :
    (valid : List Tab) (wid : String) (s : TabsState)
    → AreDistinct valid
    → IsValid (restored valid wid s)
restored-IsValid [] wid s d = record {
  distinct = (refl, tt);
  active = has_id_self (welcome_tab wid) [];
}
restored-IsValid (t ∷ valid) wid s d = record {
  distinct = d;
  active = IsActive-keep s.active_id (t ∷ valid);
}

-- Whatever was restored, with distinct ids, comes out valid.
pub sanitize_restored-IsValid :
    (wid : String) (s : TabsState) → AreDistinct s.tabs → IsValid (sanitize_restored wid s)
unfolding sanitize_restored
sanitize_restored-IsValid wid s d = restored-IsValid _ wid s (AreDistinct-filter _ s.tabs d)
