-- ===== src/Sql/Dangerous/Risky.antt =====
-- Which statements lib/dangerous-query.ts reports, in plain words.
use basemaster.Base.{
  ℕ, ◌≡◌, refl, ap, inl, inr, true, false, Option, some, none, [], ◌∷◌, arith, Bool-cases,
  Option-cases,
}
use basemaster.Base.Text.{Text, codes, after_word, is_word, trim, skip_spaces}
use basemaster.Sql.Dangerous.Statements.{strip_comments}
use basemaster.Sql.Dangerous.Detect.{
  Kind, update, delete, DangerousStatement, whole_word, leading, contains_word, extract_table,
  report,
}
use basemaster.Sql.Dangerous.Words.{
  BeginsWith, whole_word-BeginsWith, BeginsWith-whole_word, starts_in_word, StandsIn,
  contains_word_sound, contains_word_complete,
}

abbrev pub keyword : Kind → Text
keyword update = codes "update"
keyword delete = codes "delete"

-- The statement `raw` is risky, and `r` says so: what `stripComments` leaves of it begins with the keyword
-- of the kind, and the word WHERE stands nowhere in it.
pub record IsRisky (raw : Text) (r : DangerousStatement) : Type 0 where
  pub leads : BeginsWith (keyword r.kind) (skip_spaces (trim (strip_comments raw)))
  pub unrestricted : ¬ StandsIn (codes "where") (trim (strip_comments raw))
  pub names : r.table ≡ extract_table r.kind (trim (strip_comments raw))
  pub trimmed : r.sql ≡ trim raw

leading_sound :
    (text : Text) (kind : Kind)
    → leading text ≡ some kind
    → BeginsWith (keyword kind) (skip_spaces text)
unfolding leading
leading_sound text kind h = elim (Option-cases (whole_word (codes "update") (skip_spaces text))) [
  | inr (b, e) ↦
      let same : update ≡ kind = ground (arith, e, h) in
      rw (← same) (whole_word-BeginsWith (codes "update") (skip_spaces text) b e)
  | inl n ↦ elim (Option-cases (whole_word (codes "delete") (skip_spaces text))) [
    | inr (b, e) ↦
        let same : delete ≡ kind = ground (arith, n, e, h) in
        rw (← same) (whole_word-BeginsWith (codes "delete") (skip_spaces text) b e)
    | inl m ↦ absurd (ground (arith, n, m, h))
  ]
]

not_both :
    (text b : Text)
    → whole_word (codes "delete") text ≡ some b
    → whole_word (codes "update") text ≡ none
unfolding after_word
not_both [] b h = refl
not_both (c ∷ text) b h = ground (arith, h)

leading_complete :
    (text : Text) (kind : Kind)
    → BeginsWith (keyword kind) (skip_spaces text)
    → leading text ≡ some kind
unfolding leading
leading_complete text update h =
    let (b, e) = BeginsWith-whole_word (codes "update") (skip_spaces text) h in ground (arith, e)
leading_complete text delete h =
    let (b, e) = BeginsWith-whole_word (codes "delete") (skip_spaces text) h in
    ground (arith, e, not_both (skip_spaces text) b e)

where_starts : starts_in_word (codes "where") ≡ true
unfolding is_word
where_starts = refl

no_where_sound :
    (text : Text)
    → contains_word (codes "where") false text ≡ false
    → ¬ StandsIn (codes "where") text
no_where_sound text h s =
    let found =
      contains_word_complete (codes "where") where_starts false s.before s.rest s.apart s.begins in
    let both : contains_word (codes "where") false text ≡ true = rw s.splits found in cc (h, both)

no_where_complete :
    (text : Text)
    → ¬ StandsIn (codes "where") text
    → contains_word (codes "where") false text ≡ false
no_where_complete text h = elim (Bool-cases (contains_word (codes "where") false text)) [
  | inl e ↦ absurd (h (contains_word_sound (codes "where") where_starts false text e))
  | inr e ↦ e
]

module _ (i : ℕ) (raw : Text) (r : DangerousStatement) where
  abbrev told : Kind → DangerousStatement
  told kind = record {
    index = i;
    kind = kind;
    table = extract_table kind (trim (strip_comments raw));
    sql = trim raw;
  }

  pub report_sound : report i raw ≡ some r → IsRisky raw r
  unfolding report
  report_sound h =
      let stripped = trim (strip_comments raw) in
      elim (Option-cases (leading stripped)) [
        | inl n ↦
            absurd (let no : Path (Option DangerousStatement) none (some r) = rw n at h in cc no)
        | inr (kind, e) ↦ elim (Bool-cases (contains_word (codes "where") false stripped)) [
          | inl w ↦
              absurd
                (let no : Path (Option DangerousStatement) none (some r) = rw (e, w) at h in cc no)
          | inr w ↦
              let same : told kind ≡ r = ground (arith, e, w, h) in
              rw (← same) (record {
                leads = leading_sound stripped kind e;
                unrestricted = no_where_sound stripped w;
                names = refl;
                trimmed = refl;
              })
        ]
      ]

  pub report_complete : r.index ≡ i → IsRisky raw r → report i raw ≡ some r
  unfolding report
  report_complete e k =
      let stripped = trim (strip_comments raw) in
      let same : told r.kind ≡ r = cc (e, k.names, k.trimmed) in
      rw (leading_complete stripped r.kind k.leads, no_where_complete stripped k.unrestricted)
        (ap some same)
