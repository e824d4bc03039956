-- ===== src/AutoMap/OneToOne.antt =====
-- The mapping of lib/auto-map.ts is one-to-one.
use basemaster.Base.{
  ◌≡◌, refl, sym, ap, ◌∙◌, inl, inr, Bool, true, false, not, ◌&&◌, ◌||◌, List, [], ◌∷◌, ◌++◌, arith,
  map, filter, if◌then◌else◌, Bool-cases,
}
use basemaster.Base.Text.{Text, same_text, same_text_sound, same_text_sym}
use basemaster.AutoMap.Scores.{Score, holds, at_least, normalize}
use basemaster.AutoMap.Greedy.{
  Pair, AutoMapOptions, assign_source, Used, use_pair, apply_preserve, suggest, take_pairs,
  all_pairs, sort_pairs, auto_map_columns,
}

-- No text twice.
unfoldable pub once : List Text → Bool
once [] = true
once (x ∷ xs) = not (holds x xs) && once xs

abbrev pub keys : List (Text × Text) → List Text
keys mapping = map (λ e. e.0) mapping

abbrev pub values : List (Text × Text) → List Text
values mapping = map (λ e. e.1) mapping

map-snoc {ℓ κ} :
    {A : Type ℓ} {B : Type κ} (f : A → B) (xs : List A) (x : A)
    → map f (xs ++ x ∷ []) ≡ map f xs ++ f x ∷ []
map-snoc f [] x = refl
map-snoc f (y ∷ xs) x = ap (◌∷◌ (f y)) (map-snoc f xs x)

holds-snoc :
    (t : Text) (xs : List Text) (x : Text) → holds t (xs ++ x ∷ []) ≡ (holds t xs || same_text t x)
holds-snoc t [] x = ground arith
holds-snoc t (y ∷ xs) x = ground (arith, holds-snoc t xs x)

once-snoc :
    (xs : List Text) (x : Text) → once xs ≡ true → holds x xs ≡ false → once (xs ++ x ∷ []) ≡ true
unfolding once
once-snoc [] x o h = refl
once-snoc (y ∷ xs) x o h =
    ground
      (arith, once-snoc xs x (ground arith) (ground arith), holds-snoc y xs x, same_text_sym y x)

assign_source-new :
    (t s : Text) (mapping : List (Text × Text))
    → holds t (keys mapping) ≡ false
    → assign_source t s mapping ≡ mapping ++ (t, s) ∷ []
unfolding assign_source
assign_source-new t s [] h = refl
assign_source-new t s (e ∷ mapping) h = ground (arith, assign_source-new t s mapping)

-- A mapping that is one-to-one, with its keys and values noted as used.
pub record IsOneToOne (u : Used) : Type 0 where
  pub keys_once : once (keys u.mapping) ≡ true
  pub values_once : once (values u.mapping) ≡ true
  pub keys_used : (t : Text) → holds t (keys u.mapping) ≡ true → holds t u.targets ≡ true
  pub values_used : (s : Text) → holds s (values u.mapping) ≡ true → holds s u.sources ≡ true

not_yet : (a b : Bool) → (a ≡ true → b ≡ true) → b ≡ false → a ≡ false
not_yet a b h e = ground arith

used_more :
    (a t : Text) (xs used : List Text)
    → (holds a xs ≡ true → holds a used ≡ true)
    → holds a (xs ++ t ∷ []) ≡ true
    → holds a (t ∷ used) ≡ true
used_more a t xs used f h = ground (arith, holds-snoc a xs t, f)

use_pair-IsOneToOne :
    (t s : Text) (u : Used)
    → IsOneToOne u
    → holds t u.targets ≡ false
    → holds s u.sources ≡ false
    → IsOneToOne (use_pair t s u)
use_pair-IsOneToOne t s u i ht hs =
    let nt = not_yet (holds t (keys u.mapping)) (holds t u.targets) (i.keys_used t) ht in
    let ns = not_yet (holds s (values u.mapping)) (holds s u.sources) (i.values_used s) hs in
    let new = assign_source-new t s u.mapping nt in
    let ks = ap keys new ∙ map-snoc (λ e. e.0) u.mapping (t, s) in
    let vs = ap values new ∙ map-snoc (λ e. e.1) u.mapping (t, s) in
    record {
      keys_once = ap once ks ∙ once-snoc (keys u.mapping) t i.keys_once nt;
      values_once = ap once vs ∙ once-snoc (values u.mapping) s i.values_once ns;
      keys_used = λ a h.
          used_more a t (keys u.mapping) u.targets (i.keys_used a) (sym (ap (holds a) ks) ∙ h);
      values_used = λ a h.
          used_more a s (values u.mapping) u.sources (i.values_used a) (sym (ap (holds a) vs) ∙ h);
    }

start-IsOneToOne : IsOneToOne (record { mapping = []; targets = []; sources = [] })
unfolding once
start-IsOneToOne = record {
  keys_once = refl;
  values_once = refl;
  keys_used = λ t h. h;
  values_used = λ s h. h;
}

choose {ℓ} :
    {A : Type ℓ} (P : A → Type 0) (b c : Bool) (x y z : A)
    → P x
    → (b ≡ false → P y)
    → P z
    → P (if b then x else if c then y else z)
choose P true c x y z hx hy hz = hx
choose P false true x y z hx hy hz = hy refl
choose P false false x y z hx hy hz = hz

either_way {ℓ} :
    {A : Type ℓ} (P : A → Type 0) (b : Bool) (x y : A) → P x → P y → P (if b then x else y)
either_way P true x y hx hy = hx
either_way P false x y hx hy = hy

neither : (a b : Bool) → (a || b) ≡ false → (a ≡ false) × (b ≡ false)
neither false b h = (refl, h)
neither true b h = absurd (cc h)

take_pairs-IsOneToOne :
    (least : Score) (ps : List Pair) (done : Used × List Pair)
    → IsOneToOne (done.0)
    → IsOneToOne ((take_pairs least ps done).0)
unfolding take_pairs
take_pairs-IsOneToOne least [] done i = i
take_pairs-IsOneToOne least (p ∷ ps) (u, fuzzy) i = take_pairs-IsOneToOne least ps _ (
    choose (λ (done : Used × List Pair). IsOneToOne (done.0))
      (holds p.target u.targets || holds p.source u.sources) (at_least p.score least) (u, fuzzy)
      (use_pair p.target p.source u, fuzzy) (u, suggest p fuzzy) i
      (λ e.
        let (ht, hs) = neither (holds p.target u.targets) (holds p.source u.sources) e in
        use_pair-IsOneToOne p.target p.source u i ht hs)
      i)

-- Entries that are apart from each other and from what is used.
Fresh : Used → List (Text × Text) → Type 0
Fresh u [] = Unit
Fresh u ((t, s) ∷ preserve) =
    (holds t u.targets ≡ false) × (holds s u.sources ≡ false) × Fresh u preserve

Fresh-use_pair :
    (t s : Text) (u : Used) (preserve : List (Text × Text))
    → holds t (keys preserve) ≡ false
    → holds s (values preserve) ≡ false
    → Fresh u preserve
    → Fresh (use_pair t s u) preserve
unfolding Fresh
Fresh-use_pair t s u [] k v f = tt
Fresh-use_pair t s u ((a, b) ∷ preserve) k v (fa, fb, f) = (
  ground (arith, same_text_sym a t, fa, k),
  ground (arith, same_text_sym b s, fb, v),
  Fresh-use_pair t s u preserve (ground (arith, k)) (ground (arith, v)) f,
)

apply_preserve-IsOneToOne :
    (targets sources : List Text) (preserve : List (Text × Text)) (u : Used)
    → once (keys preserve) ≡ true
    → once (values preserve) ≡ true
    → Fresh u preserve
    → IsOneToOne u
    → IsOneToOne (apply_preserve targets sources preserve u)
unfolding apply_preserve Fresh once
apply_preserve-IsOneToOne targets sources [] u k v f i = i
apply_preserve-IsOneToOne targets sources ((t, s) ∷ preserve) u k v (ft, fs, f) i =
    apply_preserve-IsOneToOne targets sources preserve _ (ground (arith, k)) (ground (arith, v))
      (either_way (λ w. Fresh w preserve) _ (use_pair t s u) u
        (Fresh-use_pair t s u preserve (ground (arith, k)) (ground (arith, v)) f) f)
      (either_way IsOneToOne _ (use_pair t s u) u (use_pair-IsOneToOne t s u i ft fs) i)

Fresh-unused :
    (preserve : List (Text × Text))
    → Fresh (record { mapping = []; targets = []; sources = [] }) preserve
unfolding Fresh
Fresh-unused [] = tt
Fresh-unused ((t, s) ∷ preserve) = (refl, refl, Fresh-unused preserve)

apart_from_kept :
    (a x : Text) (keep : Text → Bool) (xs : List Text)
    → holds a xs ≡ false
    → keep a ≡ false
    → keep x ≡ true
    → holds a (x ∷ xs) ≡ false
apart_from_kept a x keep xs h n y = elim (Bool-cases (same_text a x)) [
  | inl e ↦ absurd (cc (sym n ∙ ap keep (same_text_sound a x e) ∙ y))
  | inr f ↦ rw f h
]

holds-filter :
    (a : Text) (keep : Text → Bool) (xs : List Text)
    → keep a ≡ false
    → holds a (filter keep xs) ≡ false
holds-filter a keep [] h = refl
holds-filter a keep (x ∷ xs) h = elim (Bool-cases (keep x)) [
  | inl y ↦ rw y (apart_from_kept a x keep _ (holds-filter a keep xs h) h y)
  | inr n ↦ rw n (holds-filter a keep xs h)
]

-- If no target and no source is preserved twice, then the mapping is one-to-one: it gives no target
-- twice and no source twice, and no source that it gives is reported as unmapped.
pub auto_map_columns-once :
    (decompose : Text → Text) (targets sources : List Text) (opts : AutoMapOptions)
    → once (keys opts.preserve) ≡ true
    → once (values opts.preserve) ≡ true
    → (once (keys ((auto_map_columns decompose targets sources opts).mapping)) ≡ true)
      × (once (values ((auto_map_columns decompose targets sources opts).mapping)) ≡ true)
      × ((s : Text)
          → holds s (values ((auto_map_columns decompose targets sources opts).mapping)) ≡ true
          → holds s ((auto_map_columns decompose targets sources opts).unmapped_sources) ≡ false)
unfolding auto_map_columns
auto_map_columns-once decompose targets sources opts k v =
    let start =
      apply_preserve-IsOneToOne targets sources opts.preserve
        (record { mapping = []; targets = []; sources = [] }) k v (Fresh-unused opts.preserve)
        start-IsOneToOne in
    let used =
      apply_preserve targets sources opts.preserve
        (record { mapping = []; targets = []; sources = [] }) in
    let pairs =
      sort_pairs (all_pairs (normalize decompose) opts.min_suggestion_score used targets sources) in
    let done = take_pairs-IsOneToOne opts.min_auto_score pairs (used, []) start in
    (
      done.keys_once,
      done.values_once,
      λ s h. holds-filter s _ sources (ap not (done.values_used s h)),
    )
