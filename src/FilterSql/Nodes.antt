-- ===== src/FilterSql/Nodes.antt =====
-- When a filter tree of lib/build-table-sql.ts has a WHERE condition, and which statements it ends in.
use basemaster.Base.{◌≡◌, refl, ◌∙◌, ◌&&◌, Bool, true, false, Option, none, some, List, [], ◌∷◌}
use basemaster.Base.Text.{Text}
use basemaster.Types.{GroupOp, conj, disj, FilterNode, leaf, group, FilterNodes, nil, cons}
use basemaster.FilterSql.Quote.{Dialect}
use basemaster.FilterSql.Render.{joined, keep_some, render_node, render_nodes}

-- No leaf is in the tree.
unfoldable mutual
  pub is_hollow : FilterNode → Bool
  is_hollow (leaf f) = false
  is_hollow (group op children) = are_hollow children

  pub are_hollow : FilterNodes → Bool
  are_hollow nil = true
  are_hollow (cons node nodes) = is_hollow node && are_hollow nodes

abbrev pub is_none {ℓ} : {A : Type ℓ} → Option A → Bool
is_none none = true
is_none (some a) = false

abbrev is_nil : List Text → Bool
is_nil [] = true
is_nil (part ∷ parts) = false

is_none-joined : (op : GroupOp) (parts : List Text) → is_none (joined op parts) ≡ is_nil parts
is_none-joined op [] = refl
is_none-joined op (part ∷ []) = refl
is_none-joined conj (part ∷ next ∷ parts) = refl
is_none-joined disj (part ∷ next ∷ parts) = refl

is_nil-keep_some :
    (part : Option Text) (parts : List Text)
    → is_nil (keep_some part parts) ≡ is_none part && is_nil parts
is_nil-keep_some none parts = refl
is_nil-keep_some (some part) parts = refl

mutual
  unfolding render_node render_nodes is_hollow are_hollow

  hollow_node :
      (node : FilterNode) (dialect : Dialect) → is_none (render_node node dialect) ≡ is_hollow node
  hollow_node (leaf f) dialect = refl
  hollow_node (group op children) dialect =
      is_none-joined op (render_nodes children dialect) ∙ hollow_nodes children dialect

  hollow_nodes :
      (nodes : FilterNodes) (dialect : Dialect)
      → is_nil (render_nodes nodes dialect) ≡ are_hollow nodes
  hollow_nodes nil dialect = refl
  hollow_nodes (cons node nodes) dialect =
      is_nil-keep_some (render_node node dialect) (render_nodes nodes dialect)
      ∙ rw (hollow_node node dialect, hollow_nodes nodes dialect) refl

-- A filter tree has no condition just when it has no leaf: empty groups, however they are nested,
-- leave no trace, and a tree with a leaf always has a condition.
pub is_none-render_node :
    (node : FilterNode) (dialect : Dialect) → is_none (render_node node dialect) ≡ is_hollow node
is_none-render_node = hollow_node
