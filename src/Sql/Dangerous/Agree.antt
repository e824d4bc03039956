-- ===== src/Sql/Dangerous/Agree.antt =====
-- The two splitters of the repository agree.
use basemaster.Base.{
  ℕ, ◌≡◌, refl, ◌∙◌, ap, sym, false, Option, [], ◌∷◌, ◌++◌, head?, filter, map, arith,
}
use basemaster.Base.Text.{Text, has_ink}
use basemaster.Sql.Mode.{Mode, plain}
use basemaster.Sql.Segments.{next_mode, split_sql_segments}
use basemaster.Sql.Segments.Cover.{pieces, split_from-pieces}
use basemaster.Sql.Dangerous.Statements
use basemaster.Sql.Dangerous.Statements.{statements_from, split_statements}

next_mode_agrees :
    (mode : Mode) (c : ℕ) (next : Option ℕ)
    → Statements.next_mode mode c next ≡ next_mode mode c next
unfolding Statements.next_mode next_mode
next_mode_agrees plain c next = ground arith
next_mode_agrees _ c next = ground arith

has_ink_nil : has_ink [] ≡ false
unfolding has_ink
has_ink_nil = refl

statements_from-pieces :
    (mode : Mode) (current rest : Text)
    → statements_from mode current rest ≡ filter has_ink (pieces mode current rest)
unfolding statements_from pieces
statements_from-pieces mode [] [] = ground (arith, has_ink_nil)
statements_from-pieces mode (d ∷ current) [] = ground arith
statements_from-pieces mode current (c ∷ rest) = ground (
  arith,
  next_mode_agrees mode c (head? rest),
  statements_from-pieces plain [] rest,
  statements_from-pieces (Statements.next_mode mode c (head? rest)) (current ++ c ∷ []) rest,
)

-- The statements that the guard against missing WHERE clauses looks at are the texts of the editor's
-- segments that are not blank, in their order, for every text: the two splitters never disagree on
-- where a statement ends.
pub split_statements-split_sql_segments :
    (sql : Text)
    → split_statements sql ≡ filter has_ink (map (λ seg. seg.sql) (split_sql_segments sql))
unfolding split_statements split_sql_segments
split_statements-split_sql_segments sql =
    statements_from-pieces plain [] sql
    ∙ ap (filter has_ink) (sym (split_from-pieces sql plain 0 0 [] [] sql refl refl refl))
