-- ===== src/Shortcuts/Index.antt =====
-- The index of state/shortcuts.ts lists just the actions that have the binding.
use basemaster.Base.{
  ◌≡◌, refl, sym, ap, ◌∙◌, inl, inr, Bool, false, Option, none, some, List, [], ◌∷◌, ◌++◌, map,
  filter, if◌then◌else◌, Bool-cases,
}
use basemaster.Base.Text.{Text, same_text}
use basemaster.Shortcuts.{
  ShortcutAction, shortcuts, Overrides, resolve, Index, add_action, index_from, index_by_binding,
}
use mathlib.Core.List.{append_assoc, append-nil}

-- An effective binding that is this text, which is not empty.
unfoldable pub is_binding : Text → Option Text → Bool
is_binding key none = false
is_binding key (some []) = false
is_binding key (some (c ∷ b)) = same_text (c ∷ b) key

-- The ids of the actions that a key press with this binding means, in their order.
unfoldable pub bound_to : Overrides → Text → List ShortcutAction → List Text
bound_to overrides key actions =
    map (λ a. a.id) (filter (λ a. is_binding key (resolve overrides a.id)) actions)

add_action-at :
    (o : Option Text) (id : Text) (out : Index) (key : Text)
    → add_action o id out key ≡ out key ++ (if is_binding key o then id ∷ [] else [])
unfolding add_action is_binding
add_action-at none id out key = sym (append-nil (out key))
add_action-at (some []) id out key = sym (append-nil (out key))
add_action-at (some (c ∷ b)) id out key = elim (Bool-cases (same_text (c ∷ b) key)) [
  | inl t ↦ rw t refl
  | inr f ↦ rw f (sym (append-nil (out key)))
]

bound_to-nil : (overrides : Overrides) (key : Text) → bound_to overrides key [] ≡ []
unfolding bound_to
bound_to-nil overrides key = refl

bound_to-cons :
    (overrides : Overrides) (key : Text) (a : ShortcutAction) (actions : List ShortcutAction)
    → bound_to overrides key (a ∷ actions)
      ≡ (if is_binding key (resolve overrides a.id) then a.id ∷ [] else [])
        ++ bound_to overrides key actions
unfolding bound_to
bound_to-cons overrides key a actions =
    elim (Bool-cases (is_binding key (resolve overrides a.id))) [
      | inl t ↦ rw t refl
      | inr f ↦ rw f refl
    ]

index_from_lem :
    (overrides : Overrides) (actions : List ShortcutAction) (out : Index) (key : Text)
    → index_from overrides actions out key ≡ out key ++ bound_to overrides key actions
unfolding index_from
index_from_lem overrides [] out key = rw (bound_to-nil overrides key) (sym (append-nil (out key)))
index_from_lem overrides (a ∷ actions) out key =
    index_from_lem overrides actions (add_action (resolve overrides a.id) a.id out) key
    ∙ (ap (λ ids. ids ++ bound_to overrides key actions)
          (add_action-at (resolve overrides a.id) a.id out key)
        ∙ (append_assoc (out key)
              (if is_binding key (resolve overrides a.id) then a.id ∷ [] else [])
              (bound_to overrides key actions)
            ∙ ap (λ ids. out key ++ ids) (sym (bound_to-cons overrides key a actions))))

-- The index has under each key just the ids of the actions whose effective binding is that key, in the
-- order of the catalog: an override if there is one, where null means none, and the default otherwise.
pub index_by_binding_lem :
    (overrides : Overrides) (key : Text)
    → index_by_binding overrides key ≡ bound_to overrides key shortcuts
unfolding index_by_binding
index_by_binding_lem overrides key = index_from_lem overrides shortcuts (λ k. []) key
