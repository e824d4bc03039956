-- ===== src/FilterSql/Render.antt =====
-- `renderLeaf`, `inListClause`, `renderNode` and `buildTablePageSql` of lib/build-table-sql.ts.
use basemaster.Base.{
  ◌&&◌, not, Bool, true, false, Option, none, some, List, [], ◌∷◌, ◌++◌, map, if◌then◌else◌,
}
use basemaster.Base.Text.{Text, codes, join}
use basemaster.Types.{
  OrderBy, SortDir, asc, desc, Filter, FilterOp, eq, not_eq, gt, lt, gte, lte, contains,
  not_contains, begins_with, not_begins_with, ends_with, not_ends_with, is_null, is_not_null,
  is_empty, is_not_empty, between, not_between, in_list, not_in, custom, GroupOp, conj, disj,
  FilterNode, leaf, group, FilterNodes, nil, cons,
}
use basemaster.FilterSql.Quote.{
  Dialect, postgres, ident, quote_string, quote_value, value_text, like_escape, split_in_csv,
  is_filled,
}

pub record Options : Type 0 where
  pub dialect : Dialect
  pub schema : Option Text
  pub table : Text
  pub filter_tree : Option FilterNode
  pub order_by : Option OrderBy
  -- a positive number, as `String` prints it; `none` for one that is absent or 0
  pub limit : Option Text
  pub offset : Option Text

abbrev pub supports_ci : FilterOp → Bool
supports_ci eq = true
supports_ci not_eq = true
supports_ci contains = true
supports_ci not_contains = true
supports_ci begins_with = true
supports_ci not_begins_with = true
supports_ci ends_with = true
supports_ci not_ends_with = true
supports_ci in_list = true
supports_ci not_in = true
supports_ci _ = false

abbrev pub percent : Text
percent = codes "%"

-- The pattern, before it is quoted
abbrev pub pattern_of : Text → FilterOp → Text
pattern_of escaped begins_with = escaped ++ percent
pattern_of escaped not_begins_with = escaped ++ percent
pattern_of escaped ends_with = percent ++ escaped
pattern_of escaped not_ends_with = percent ++ escaped
pattern_of escaped _ = percent ++ (escaped ++ percent)

unfoldable pub like_pattern : Text → FilterOp → Dialect → Text
like_pattern raw op dialect = quote_string (pattern_of (like_escape raw) op) dialect

abbrev pub lower_call : Text → Text
lower_call s = codes "LOWER(" ++ (s ++ codes ")")

abbrev pub wrap : Bool → Text → Text
wrap ci s = if ci then lower_call s else s

abbrev pub is_postgres : Dialect → Bool
is_postgres postgres = true
is_postgres _ = false

abbrev in_items : Text → Bool → Dialect → Bool → List Text → Text
in_items col ci dialect negated [] = if negated then codes "1=1" else codes "1=0"
in_items col ci dialect negated (item ∷ items) =
    let literals = map (λ it. wrap ci (quote_string it dialect)) (item ∷ items) in
    col
    ++ ((if negated then codes " NOT IN (" else codes " IN (")
        ++ (join (codes ", ") literals ++ codes ")"))

unfoldable pub in_list_clause : Text → Bool → Filter → Dialect → Bool → Text
in_list_clause col ci f dialect negated =
    in_items col ci dialect negated (split_in_csv (value_text f.value))

-- `case_insensitive ?? false`
abbrev pub or_false : Option Bool → Bool
or_false none = false
or_false (some b) = b

abbrev like_clause : Filter → Dialect → Bool → Text → Text → Text → Text
like_clause f dialect ci col_raw plain insensitive =
    let pat = like_pattern (value_text f.value) f.op dialect in
    let kw = if ci && is_postgres dialect then insensitive else plain in
    let left = if ci && not (is_postgres dialect) then lower_call col_raw else col_raw in
    left ++ (kw ++ pat)

abbrev between_clause : Filter → Dialect → Text → Text → Text
between_clause f dialect col_raw kw =
    col_raw
    ++ (kw ++ (quote_value f.value dialect ++ (codes " AND " ++ quote_value f.value2 dialect)))

-- The `switch`, on the operator, with `ci`, `colRaw` and `colCmp`
abbrev pub render_op : FilterOp → Filter → Dialect → Bool → Text → Text → Text
render_op eq f dialect ci raw cmp = cmp ++ (codes " = " ++ wrap ci (quote_value f.value dialect))
render_op not_eq f dialect ci raw cmp =
    cmp ++ (codes " <> " ++ wrap ci (quote_value f.value dialect))
render_op gt f dialect ci raw cmp = raw ++ (codes " > " ++ quote_value f.value dialect)
render_op lt f dialect ci raw cmp = raw ++ (codes " < " ++ quote_value f.value dialect)
render_op gte f dialect ci raw cmp = raw ++ (codes " >= " ++ quote_value f.value dialect)
render_op lte f dialect ci raw cmp = raw ++ (codes " <= " ++ quote_value f.value dialect)
render_op contains f dialect ci raw cmp =
    like_clause f dialect ci raw (codes " LIKE ") (codes " ILIKE ")
render_op begins_with f dialect ci raw cmp =
    like_clause f dialect ci raw (codes " LIKE ") (codes " ILIKE ")
render_op ends_with f dialect ci raw cmp =
    like_clause f dialect ci raw (codes " LIKE ") (codes " ILIKE ")
render_op not_contains f dialect ci raw cmp =
    like_clause f dialect ci raw (codes " NOT LIKE ") (codes " NOT ILIKE ")
render_op not_begins_with f dialect ci raw cmp =
    like_clause f dialect ci raw (codes " NOT LIKE ") (codes " NOT ILIKE ")
render_op not_ends_with f dialect ci raw cmp =
    like_clause f dialect ci raw (codes " NOT LIKE ") (codes " NOT ILIKE ")
render_op is_null f dialect ci raw cmp = raw ++ codes " IS NULL"
render_op is_not_null f dialect ci raw cmp = raw ++ codes " IS NOT NULL"
render_op is_empty f dialect ci raw cmp = raw ++ codes " = ''"
render_op is_not_empty f dialect ci raw cmp = raw ++ codes " <> ''"
render_op between f dialect ci raw cmp = between_clause f dialect raw (codes " BETWEEN ")
render_op not_between f dialect ci raw cmp = between_clause f dialect raw (codes " NOT BETWEEN ")
render_op in_list f dialect ci raw cmp = in_list_clause cmp ci f dialect false
render_op not_in f dialect ci raw cmp = in_list_clause cmp ci f dialect true
render_op custom f dialect ci raw cmp = raw ++ (codes " " ++ value_text f.value)

unfoldable pub render_leaf : Filter → Dialect → Text
render_leaf f dialect =
    let raw = ident dialect f.column in
    let ci = or_false f.case_insensitive && supports_ci f.op in
    render_op f.op f dialect ci raw (wrap ci raw)

-- The parts of a group, joined
abbrev pub joined : GroupOp → List Text → Option Text
joined op [] = none
joined op (part ∷ []) = some part
joined conj (part ∷ next ∷ parts) =
    some (codes "(" ++ (join (codes " AND ") (part ∷ next ∷ parts) ++ codes ")"))
joined disj (part ∷ next ∷ parts) =
    some (codes "(" ++ (join (codes " OR ") (part ∷ next ∷ parts) ++ codes ")"))

abbrev pub keep_some : Option Text → List Text → List Text
keep_some none parts = parts
keep_some (some part) parts = part ∷ parts

unfoldable mutual
  pub render_node : FilterNode → Dialect → Option Text
  render_node (leaf f) dialect = some (render_leaf f dialect)
  render_node (group op children) dialect = joined op (render_nodes children dialect)

  -- `.map((c) => renderNode(c, dialect)).filter((s) => s != null)`
  pub render_nodes : FilterNodes → Dialect → List Text
  render_nodes nil dialect = []
  render_nodes (cons node nodes) dialect =
      keep_some (render_node node dialect) (render_nodes nodes dialect)

abbrev render_tree : Option FilterNode → Dialect → Option Text
render_tree none dialect = none
render_tree (some node) dialect = render_node node dialect

-- `opts.schema && opts.schema.length > 0`
abbrev pub qualified : Dialect → Option Text → Text → Text
qualified dialect none table = ident dialect table
qualified dialect (some []) table = ident dialect table
qualified dialect (some (c ∷ schema)) table =
    ident dialect (c ∷ schema) ++ (codes "." ++ ident dialect table)

abbrev pub where_clause : Option Text → Text
where_clause none = []
where_clause (some text) = if is_filled text then codes "\nWHERE " ++ text else []

abbrev pub direction : SortDir → Text
direction asc = codes " ASC"
direction desc = codes " DESC"

abbrev pub order_clause : Dialect → Option OrderBy → Text
order_clause dialect none = []
order_clause dialect (some o) =
    codes "\nORDER BY " ++ (ident dialect o.column ++ direction o.direction)

abbrev pub limit_clause : Option Text → Option Text → Text
limit_clause none offset = []
limit_clause (some limit) none = codes "\nLIMIT " ++ limit
limit_clause (some limit) (some offset) =
    codes "\nLIMIT " ++ (limit ++ (codes " OFFSET " ++ offset))

unfoldable pub build_table_page_sql : Options → Text
build_table_page_sql o =
    codes "SELECT * FROM "
    ++ (qualified o.dialect o.schema o.table
        ++ (where_clause (render_tree o.filter_tree o.dialect)
            ++ (order_clause o.dialect o.order_by ++ (limit_clause o.limit o.offset ++ codes ";"))))
