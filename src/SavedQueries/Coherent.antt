-- ===== src/SavedQueries/Coherent.antt =====
-- The cache of state/saved-queries.ts and the rows that the backend stores.
use mathlib.Core.Path.{fun_ext}
use basemaster.Base.{
  ◌≡◌, refl, sym, ap, ◌∙◌, inl, inr, String, Bool, true, false, not, ◌&&◌, ◌||◌, Option, some, List,
  [], ◌∷◌, ◌++◌, map, filter, arith, any, All, All-map, str_eq, if◌then◌else◌, Bool-cases, eq_iff,
  eq_refl,
}
use basemaster.Base.Dict.{Dict, put, get_or}
use basemaster.SavedQueries.{
  SavedQuery, SavedQueriesState, with_update, delete, insert_query, sort_queries, create, update,
}

abbrev pub of_connection : String → SavedQuery → Bool
of_connection c q = str_eq q.connection_id c

-- A list that is kept for a connection agrees with what the backend stores for it: some query of the one
-- passes a test exactly if some query of the other does.
abbrev pub IsCoherent : Dict (List SavedQuery) → List SavedQuery → Type 0
IsCoherent cache rows =
    (c : String) (list : List SavedQuery)
    → cache c ≡ some list
    → (p : SavedQuery → Bool) → any p list ≡ any (λ q. of_connection c q && p q) rows

-- What the backend does with its rows: the one with an id is replaced, or is taken away.
abbrev pub rows_changed : String → SavedQuery → List SavedQuery → List SavedQuery
rows_changed id saved [] = []
rows_changed id saved (q ∷ rows) =
    (if str_eq q.id id then saved else q) ∷ rows_changed id saved rows

abbrev pub rows_without : String → List SavedQuery → List SavedQuery
rows_without id [] = []
rows_without id (q ∷ rows) =
    if str_eq q.id id then rows_without id rows else q ∷ rows_without id rows

map-with_update :
    (id : String) (saved : SavedQuery) (rows : List SavedQuery)
    → map (with_update id saved) rows ≡ rows_changed id saved rows
map-with_update id saved [] = refl
map-with_update id saved (q ∷ rows) =
    ap (◌∷◌ (if str_eq q.id id then saved else q)) (map-with_update id saved rows)

filter-rows_without :
    (id : String) (rows : List SavedQuery)
    → filter (λ q. not (str_eq q.id id)) rows ≡ rows_without id rows
filter-rows_without id [] = refl
filter-rows_without id (q ∷ rows) = ground (arith, filter-rows_without id rows)

module _ {ℓ} {A : Type ℓ} where
  any-append : (p : A → Bool) (xs ys : List A) → any p (xs ++ ys) ≡ (any p xs || any p ys)
  any-append p [] ys = refl
  any-append p (x ∷ xs) ys = ground (arith, any-append p xs ys)

  any-map : (p : A → Bool) (f : A → A) (xs : List A) → any p (map f xs) ≡ any (λ x. p (f x)) xs
  any-map p f [] = refl
  any-map p f (x ∷ xs) = ap (◌||◌ (p (f x))) (any-map p f xs)

  pub any-filter :
      (p keep : A → Bool) (xs : List A) → any p (filter keep xs) ≡ any (λ x. keep x && p x) xs
  any-filter p keep [] = refl
  any-filter p keep (x ∷ xs) = ground (arith, any-filter p keep xs)

  any_same : (f g : A → Bool) (xs : List A) → All (λ x. f x ≡ g x) xs → any f xs ≡ any g xs
  any_same f g [] h = refl
  any_same f g (x ∷ xs) (h, hs) = rw (h, any_same f g xs hs) refl

when_put :
    (b : Bool) (list l : List SavedQuery) (o : Option (List SavedQuery))
    → b ≡ true
    → (if b then some list else o) ≡ some l
    → list ≡ l
when_put b list l o h e = ground arith

when_kept :
    (b : Bool) (list l : List SavedQuery) (o : Option (List SavedQuery))
    → b ≡ false
    → (if b then some list else o) ≡ some l
    → o ≡ some l
when_kept b list l o h e = ground arith

-- A new list for one connection, and new rows that the other connections' tests do not tell apart.
pub put-IsCoherent :
    (conn : String) (list : List SavedQuery) (cache : Dict (List SavedQuery))
    (rows rows' : List SavedQuery)
    → IsCoherent cache rows
    → ((c : String) (p : SavedQuery → Bool)
        → str_eq conn c ≡ false
        → any (λ q. of_connection c q && p q) rows ≡ any (λ q. of_connection c q && p q) rows')
    → ((p : SavedQuery → Bool) → any p list ≡ any (λ q. of_connection conn q && p q) rows')
    → IsCoherent (put conn list cache) rows'
unfolding put
put-IsCoherent conn list cache rows rows' v other own c l e p = elim (Bool-cases (str_eq conn c)) [
  | inl same ↦
      ap (any p) (sym (when_put (str_eq conn c) list l (cache c) same e))
      ∙ own p
      ∙ ap (λ k. any (λ q. of_connection k q && p q) rows') ((eq_iff conn c).0 same)
  | inr differ ↦ v c l (when_kept (str_eq conn c) list l (cache c) differ e) p ∙ other c p differ
]

and_swap : (a b c : Bool) → (a && (b && c)) ≡ (b && (a && c))
and_swap a b c = ground arith

or_tail : (x a b : Bool) → a ≡ false → x ≡ (x || (a && b || false))
or_tail x a b h = ground arith

or_saved : (x a b : Bool) → a ≡ true → (x || (b || false)) ≡ (x || (a && b || false))
or_saved x a b h = ground arith

-- The query with the id is one of the same connection as the saved one, or it is another query.
update_other :
    (id c : String) (saved q : SavedQuery) (p : SavedQuery → Bool)
    → str_eq saved.connection_id c ≡ false
    → (str_eq q.id id ≡ true → q.connection_id ≡ saved.connection_id)
    → (of_connection c q && p q)
      ≡ (of_connection c (with_update id saved q) && p (with_update id saved q))
update_other id c saved q p h k = elim (Bool-cases (str_eq q.id id)) [
  | inl e ↦
      let f : str_eq q.connection_id c ≡ false = ap (λ d. str_eq d c) (k e) ∙ h in rw (e, f, h) refl
  | inr e ↦ rw e refl
]

update_own :
    (id : String) (saved q : SavedQuery) (p : SavedQuery → Bool)
    → (str_eq q.id id ≡ true → q.connection_id ≡ saved.connection_id)
    → (of_connection saved.connection_id q && p (with_update id saved q))
      ≡ (of_connection saved.connection_id (with_update id saved q) && p (with_update id saved q))
update_own id saved q p k = elim (Bool-cases (str_eq q.id id)) [
  | inl e ↦ rw (e, k e) refl
  | inr e ↦ rw e refl
]

delete_other :
    (id conn c : String) (q : SavedQuery) (p : SavedQuery → Bool)
    → str_eq conn c ≡ false
    → (str_eq q.id id ≡ true → q.connection_id ≡ conn)
    → (of_connection c q && p q) ≡ (not (str_eq q.id id) && (of_connection c q && p q))
delete_other id conn c q p h k = elim (Bool-cases (str_eq q.id id)) [
  | inl e ↦
      let f : str_eq q.connection_id c ≡ false = ap (λ d. str_eq d c) (k e) ∙ h in rw (e, f) refl
  | inr e ↦ rw e refl
]

module _ (not_after : SavedQuery → SavedQuery → Bool) where
  any-insert_query :
      (p : SavedQuery → Bool) (q : SavedQuery) (xs : List SavedQuery)
      → any p (insert_query not_after q xs) ≡ (p q || any p xs)
  unfolding insert_query
  any-insert_query p q [] = refl
  any-insert_query p q (x ∷ xs) = ground (arith, any-insert_query p q xs)

  any-sort_queries :
      (p : SavedQuery → Bool) (xs : List SavedQuery) → any p (sort_queries not_after xs) ≡ any p xs
  unfolding sort_queries
  any-sort_queries p [] = refl
  any-sort_queries p (q ∷ qs) =
      any-insert_query p q (sort_queries not_after qs) ∙ ap (◌||◌ (p q)) (any-sort_queries p qs)

  module _ (conn : String) (cur : List SavedQuery) (s : SavedQueriesState)
      (rows : List SavedQuery) where
    pub create-IsCoherent :
        (saved : SavedQuery)
        → s.cache conn ≡ some cur
        → saved.connection_id ≡ conn
        → IsCoherent s.cache rows
        → IsCoherent ((create not_after conn saved s).cache) (rows ++ saved ∷ [])
    unfolding create
    create-IsCoherent saved e at v =
        put-IsCoherent conn _ s.cache rows (rows ++ saved ∷ []) v
          (λ c p differ.
            or_tail _ (of_connection c saved) (p saved) (ap (λ k. str_eq k c) at ∙ differ)
            ∙ sym (any-append (λ q. of_connection c q && p q) rows (saved ∷ [])))
          (λ p.
            any-sort_queries p _
            ∙ ap (λ o. any p (get_or [] o ++ saved ∷ [])) e
            ∙ any-append p cur (saved ∷ [])
            ∙ ap (λ b. b || (p saved || false)) (v conn cur e p)
            ∙ or_saved _ (of_connection conn saved) (p saved)
                (ap (λ k. str_eq k conn) at ∙ eq_refl conn)
            ∙ sym (any-append (λ q. of_connection conn q && p q) rows (saved ∷ [])))

    pub update-IsCoherent :
        (id : String) (saved : SavedQuery)
        → s.cache saved.connection_id ≡ some cur
        → All (λ q. str_eq q.id id ≡ true → q.connection_id ≡ saved.connection_id) rows
        → IsCoherent s.cache rows
        → IsCoherent ((update not_after id saved s).cache) (rows_changed id saved rows)
    unfolding update
    update-IsCoherent id saved e at v =
        let new = with_update id saved in
        rw (← map-with_update id saved rows) (
          put-IsCoherent saved.connection_id _ s.cache rows (map new rows) v
            (λ c p differ.
              any_same _ _ rows (All-map _ _ (λ q k. update_other id c saved q p differ k) rows at)
              ∙ sym (any-map (λ q. of_connection c q && p q) new rows))
            (λ p.
              any-sort_queries p _
              ∙ ap (λ o. any p (map new (get_or [] o))) e
              ∙ any-map p new cur
              ∙ v saved.connection_id cur e (λ q. p (new q))
              ∙ any_same _ _ rows (All-map _ _ (λ q k. update_own id saved q p k) rows at)
              ∙ sym (any-map (λ q. of_connection saved.connection_id q && p q) new rows)))

    pub delete-IsCoherent :
        (id : String)
        → s.cache conn ≡ some cur
        → All (λ q. str_eq q.id id ≡ true → q.connection_id ≡ conn) rows
        → IsCoherent s.cache rows
        → IsCoherent ((delete conn id s).cache) (rows_without id rows)
    unfolding delete
    delete-IsCoherent id e at v =
        let keep : SavedQuery → Bool = λ q. not (str_eq q.id id) in
        rw (e, ← filter-rows_without id rows)
          (put-IsCoherent conn (filter keep cur) s.cache rows (filter keep rows) v
            (λ c p differ.
              any_same _ _ rows (All-map _ _ (λ q k. delete_other id conn c q p differ k) rows at)
              ∙ sym (any-filter (λ q. of_connection c q && p q) keep rows))
            (λ p.
              any-filter p keep cur
              ∙ v conn cur e (λ q. keep q && p q)
              ∙ ap (λ f. any f rows) (fun_ext (λ q. and_swap (of_connection conn q) (keep q) (p q)))
              ∙ sym (any-filter (λ q. of_connection conn q && p q) keep rows)))
