-- ===== src/AutoMap/Greedy.antt =====
-- `autoMapColumns` of lib/auto-map.ts: the greedy mapping of target columns to source columns.
use basemaster.Base.{
  Bool, true, false, not, ◌&&◌, ◌||◌, List, [], ◌∷◌, ◌++◌, any, filter, if◌then◌else◌,
}
use basemaster.Base.Text.{Text, same_text}
use basemaster.AutoMap.Scores.{Score, at_least, holds, normalize, similarity}

pub record Pair : Type 0 where
  pub target : Text
  pub source : Text
  pub score : Score

-- An entry of an object is a pair of its key and its value.
pub record AutoMapResult : Type 0 where
  pub mapping : List (Text × Text)
  pub unmapped_sources : List Text
  pub unmapped_targets : List Text
  pub fuzzy_suggestions : List Pair

-- The options, with their defaults filled in; `preserve` has one entry for each key.
pub record AutoMapOptions : Type 0 where
  pub preserve : List (Text × Text)
  pub min_auto_score : Score
  pub min_suggestion_score : Score

abbrev pub default_options : AutoMapOptions
default_options = record {
  preserve = [];
  min_auto_score = record { num = 9; den = 10 };
  min_suggestion_score = record { num = 7; den = 10 };
}

-- `mapping[t] = s`
unfoldable pub assign_source : Text → Text → List (Text × Text) → List (Text × Text)
assign_source t s [] = (t, s) ∷ []
assign_source t s (entry ∷ mapping) =
    let rest = assign_source t s mapping in
    if same_text t (entry.0) then (t, s) ∷ mapping else entry ∷ rest

-- `mapping`, `usedTargets` and `usedSources`.
pub record Used : Type 0 where
  pub mapping : List (Text × Text)
  pub targets : List Text
  pub sources : List Text

abbrev pub use_pair : Text → Text → Used → Used
use_pair t s u = record {
  mapping = assign_source t s u.mapping;
  targets = t ∷ u.targets;
  sources = s ∷ u.sources;
}

abbrev is_some_text : Text → Bool
is_some_text [] = false
is_some_text (c ∷ text) = true

unfoldable pub apply_preserve : List Text → List Text → List (Text × Text) → Used → Used
apply_preserve targets sources [] u = u
apply_preserve targets sources ((t, s) ∷ preserve) u =
    apply_preserve targets sources preserve
      (if is_some_text s && holds s sources && holds t targets then use_pair t s u else u)

unfoldable pub pairs_of : (Text → Text) → Score → Used → Text → List Text → List Pair
pairs_of norm least u t [] = []
pairs_of norm least u t (s ∷ sources) =
    let rest = pairs_of norm least u t sources in
    let pair : Pair = record { target = t; source = s; score = similarity (norm t) (norm s) } in
    if holds s u.sources then rest else if at_least pair.score least then pair ∷ rest else rest

unfoldable pub all_pairs : (Text → Text) → Score → Used → List Text → List Text → List Pair
unfolding pairs_of
all_pairs norm least u [] sources = []
all_pairs norm least u (t ∷ targets) sources =
    let rest = all_pairs norm least u targets sources in
    if holds t u.targets then rest else pairs_of norm least u t sources ++ rest

-- A stable sort, the highest score first.
unfoldable pub insert_pair : Pair → List Pair → List Pair
insert_pair p [] = p ∷ []
insert_pair p (q ∷ ps) = if at_least p.score q.score then p ∷ q ∷ ps else q ∷ insert_pair p ps

unfoldable pub sort_pairs : List Pair → List Pair
unfolding insert_pair
sort_pairs [] = []
sort_pairs (p ∷ ps) = insert_pair p (sort_pairs ps)

abbrev pub suggest : Pair → List Pair → List Pair
suggest p fuzzy = if any (λ q. same_text p.target q.target) fuzzy then fuzzy else fuzzy ++ p ∷ []

unfoldable pub take_pairs : Score → List Pair → Used × List Pair → Used × List Pair
unfolding assign_source
take_pairs least [] done = done
take_pairs least (p ∷ ps) (u, fuzzy) = take_pairs least ps (
    if holds p.target u.targets || holds p.source u.sources
    then (u, fuzzy)
    else if at_least p.score least
    then (use_pair p.target p.source u, fuzzy)
    else (u, suggest p fuzzy))

unfoldable pub auto_map_columns :
    (decompose : Text → Text) → List Text → List Text → AutoMapOptions → AutoMapResult
unfolding apply_preserve all_pairs sort_pairs take_pairs normalize
auto_map_columns decompose targets sources opts =
    let start =
      apply_preserve targets sources opts.preserve
        (record { mapping = []; targets = []; sources = [] }) in
    let pairs =
      sort_pairs
        (all_pairs (normalize decompose) opts.min_suggestion_score start targets sources) in
    let done = take_pairs opts.min_auto_score pairs (start, []) in
    record {
      mapping = (done.0).mapping;
      unmapped_sources = filter (λ s. not (holds s (done.0).sources)) sources;
      unmapped_targets = filter (λ t. not (any (λ e. same_text t (e.0)) (done.0).mapping)) targets;
      fuzzy_suggestions = done.1;
    }
