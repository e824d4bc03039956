-- ===== src/AutoMap/Tests.antt =====
-- A distance as it is computed, and the theorem at two names of columns.
use mathlib.Core.List.{reverse}
use basemaster.Base.{◌≡◌, refl, true, false, List, [], ◌∷◌}
use basemaster.Base.Text.{Text, codes, same_text, flat_map, lower, lower_js}
use basemaster.AutoMap.{levenshtein, rows_from, next_cells, first_row, last_cell}
use basemaster.AutoMap.Scores.{holds, at_least, normalize, strip_prefix, similarity}
use basemaster.AutoMap.Greedy.{AutoMapOptions, default_options, auto_map_columns}
use basemaster.AutoMap.OneToOne.{once, keys, values, auto_map_columns-once}
use basemaster.AutoMap.Levenshtein.{edit_distance, levenshtein-edit_distance}

kitten : levenshtein (codes "kitten") (codes "sitting") ≡ 3
unfolding levenshtein rows_from next_cells first_row last_cell
kitten = refl

levenshtein-edit_distance_example :
    levenshtein (codes "userid") (codes "usrid")
    ≡ edit_distance (reverse (codes "userid")) (reverse (codes "usrid"))
levenshtein-edit_distance_example = levenshtein-edit_distance (codes "userid") (codes "usrid")

-- Names as they are written, where nothing has an accent.
abbrev as_is : Text → Text
as_is s = s

without_prefix_fk : normalize as_is (codes "FK_User-Id") ≡ codes "userid"
unfolding normalize strip_prefix flat_map lower_js lower
without_prefix_fk = refl

abbrev targets : List Text
targets = codes "mail" ∷ codes "user_id" ∷ []

abbrev sources : List Text
sources = codes "email" ∷ codes "userid" ∷ codes "age" ∷ []

abbrev opts : AutoMapOptions
opts = record default_options { preserve = (codes "mail", codes "email") ∷ [] }

maps_both :
    (auto_map_columns as_is targets sources opts).mapping
    ≡ (codes "mail", codes "email") ∷ (codes "user_id", codes "userid") ∷ []
unfolding auto_map_columns same_text at_least similarity lower last_cell rows_from next_cells
    first_row
maps_both = refl

auto_map_columns-once_example :
    (once (keys ((auto_map_columns as_is targets sources opts).mapping)) ≡ true)
    × (once (values ((auto_map_columns as_is targets sources opts).mapping)) ≡ true)
    × ((s : Text)
        → holds s (values ((auto_map_columns as_is targets sources opts).mapping)) ≡ true
        → holds s ((auto_map_columns as_is targets sources opts).unmapped_sources) ≡ false)
unfolding once
auto_map_columns-once_example = auto_map_columns-once as_is targets sources opts refl refl
