-- ===== src/Tabs/Reach.antt =====
-- The tab bar through any sequence of calls.
use basemaster.Base.{◌≡◌, String, Bool, true, false, Option}
use basemaster.Tabs.Store.{
  Tab, NewTab, TabPatch, World, open_tab, open_or_focus, close, close_many, set_active, patch,
  sanitize_restored, or_new,
}
use basemaster.Tabs.Invariant.{
  has_id, IsValid, open_tab-IsValid, open_or_focus-IsValid, close_bar-IsValid, close_many-IsValid,
  patch-IsValid, sanitize_restored-IsValid,
}

-- What the program does with the tab bar, one call at a time. A new id is one that no tab has, and the
-- interface makes only open tabs active.
pub data Step (w : World) : World → Type 0 where
  opens :
      (tab : NewTab) (explicit_id : Option String) (fresh : String)
      → has_id (or_new explicit_id fresh) w.bar.tabs ≡ false
      → Step w (record w { bar = (open_tab tab explicit_id fresh w.bar).0 })
  opens_or_focuses :
      (matches : Tab → Bool) (tab : NewTab) (fresh : String)
      → has_id fresh w.bar.tabs ≡ false
      → Step w (record w { bar = (open_or_focus matches tab fresh w.bar).0 })
  closes : (id : String) → Step w (close id w)
  closes_many : (predicate : Tab → Bool) → Step w (close_many predicate w).0
  activates :
      (id : String) → has_id id w.bar.tabs ≡ true → Step w (record w { bar = set_active id w.bar })
  patches : (id : String) (p : TabPatch) → Step w (record w { bar = patch id p w.bar })
  restarts : (wid : String) → Step w (record w { bar = sanitize_restored wid w.bar })

pub data Reach (w : World) : World → Type 0 where
  here : Reach w w
  next : {u v : World} → Reach w u → Step u v → Reach w v

Step-IsValid : {w u : World} → Step w u → IsValid w.bar → IsValid u.bar
unfolding set_active close
Step-IsValid {w} (opens tab explicit_id fresh new) v =
    open_tab-IsValid tab explicit_id fresh w.bar v (unfold open_tab in new)
Step-IsValid {w} (opens_or_focuses matches tab fresh new) v =
    open_or_focus-IsValid matches tab fresh w.bar v new
Step-IsValid {w} (closes id) v = close_bar-IsValid id w.bar v
Step-IsValid {w} (closes_many predicate) v = close_many-IsValid predicate w v
Step-IsValid (activates id is_open) v = record { distinct = v.distinct; active = is_open }
Step-IsValid {w} (patches id p) v = patch-IsValid id p w.bar v
Step-IsValid {w} (restarts wid) v = sanitize_restored-IsValid wid w.bar v.distinct

-- From a valid tab bar, whatever tabs the program opens, focuses, closes, patches or restores, in any
-- order: no two tabs have one id, and the active id is that of an open tab, or null if none is open. A
-- tab that is opened is given an id that no open tab has, and only open tabs are made active.
pub Reach-IsValid : {w u : World} → IsValid w.bar → Reach w u → IsValid u.bar
Reach-IsValid v here = v
Reach-IsValid v (next r s) = Step-IsValid s (Reach-IsValid v r)
