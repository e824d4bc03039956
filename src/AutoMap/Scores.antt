-- ===== src/AutoMap/Scores.antt =====
-- How alike two names of columns are, for lib/auto-map.ts. A score is an exact fraction; the rounding of
-- floating-point numbers is not modelled. `String.prototype.normalize` is a parameter.
use basemaster.Base.{
  ℕ, ◌+◌, ◌-◌, ◌*◌, min, max, Bool, not, ◌&&◌, ◌||◌, Option, none, some, List, [], ◌∷◌, map, length,
  any, filter, leb, if◌then◌else◌,
}
use basemaster.Base.Text.{Text, codes, same_text, contains_text, flat_map, lower_js}
use basemaster.AutoMap.{levenshtein}

pub record Score : Type 0 where
  pub num : ℕ
  pub den : ℕ

-- `a >= b`
unfoldable pub at_least : Score → Score → Bool
at_least a b = leb (b.num * a.den) (a.num * b.den)

abbrev pub synonym_groups : List (List Text)
synonym_groups =
    map codes ("id" ∷ "uuid" ∷ "pk" ∷ [])
    ∷ map codes ("email" ∷ "mail" ∷ "e-mail" ∷ "emailaddress" ∷ [])
    ∷ map codes ("phone" ∷ "telephone" ∷ "telefone" ∷ "cellphone" ∷ "mobile" ∷ "celular" ∷ [])
    ∷ map codes ("username" ∷ "login" ∷ "user" ∷ "usuario" ∷ [])
    ∷ map codes ("password" ∷ "passwd" ∷ "senha" ∷ "pass" ∷ [])
    ∷ map codes ("firstname" ∷ "fname" ∷ "givenname" ∷ "nome" ∷ [])
    ∷ map codes ("lastname" ∷ "lname" ∷ "surname" ∷ "familyname" ∷ "sobrenome" ∷ [])
    ∷ map codes ("fullname" ∷ "name" ∷ [])
    ∷ map codes ("createdat" ∷ "created" ∷ "datecreated" ∷ "creationdate" ∷ "criadoem" ∷ [])
    ∷ map codes ("updatedat" ∷ "updated" ∷ "dateupdated" ∷ "modificationdate" ∷ "atualizadoem" ∷ [])
    ∷ map codes ("deletedat" ∷ "deleted" ∷ "datedeleted" ∷ "removidoem" ∷ [])
    ∷ map codes ("zipcode" ∷ "postalcode" ∷ "cep" ∷ [])
    ∷ map codes ("state" ∷ "uf" ∷ "province" ∷ "estado" ∷ [])
    ∷ map codes ("country" ∷ "pais" ∷ [])
    ∷ map codes ("city" ∷ "cidade" ∷ [])
    ∷ map codes ("street" ∷ "address1" ∷ "address" ∷ "logradouro" ∷ "endereco" ∷ [])
    ∷ []

abbrev pub holds : Text → List Text → Bool
holds a group = any (same_text a) group

-- `SYNONYM_MAP.get(a)`: the last group with the term, as later groups replace earlier ones.
unfoldable pub group_of : Text → List (List Text) → List Text
group_of a [] = []
group_of a (group ∷ groups) =
    let later = group_of a groups in
    if any (holds a) groups then later else if holds a group then group else later

-- Combining marks.
abbrev is_mark : ℕ → Bool
is_mark c = leb 0x300 c && leb c 0x36f

abbrev is_alnum : ℕ → Bool
is_alnum c = leb b'a' c && leb c b'z' || leb b'0' c && leb c b'9'

-- What is left behind the prefix, if at least three characters are.
abbrev without_prefix : Text → Text → Option Text
without_prefix [] text = if leb 3 (length text) then some text else none
without_prefix (p ∷ prefix) [] = none
without_prefix (p ∷ prefix) (c ∷ text) =
    let rest = without_prefix prefix text in if leb p c && leb c p then rest else none

abbrev first_some : List (Option Text) → Text → Text
first_some [] text = text
first_some (none ∷ options) text = first_some options text
first_some (some rest ∷ options) text = rest

-- No two of the prefixes begin a text together, so their order does not matter.
unfoldable pub strip_prefix : Text → Text
strip_prefix x =
    first_some
      (map (λ p. without_prefix p x) (codes "fk" ∷ codes "idx" ∷ codes "ix" ∷ codes "pk" ∷ [])) x

unfoldable pub normalize : (decompose : Text → Text) → Text → Text
unfolding strip_prefix flat_map lower_js
normalize decompose s =
    strip_prefix (filter is_alnum (flat_map lower_js (filter (λ c. not (is_mark c)) (decompose s))))

abbrev unlike : Text → Text → Score
unlike a b =
    let longest = max (length a) (length b) in
    record { num = longest - levenshtein a b; den = longest }

abbrev contained : Text → Text → Score
contained a b =
    let longest = max (length a) (length b) in
    record { num = 7 * longest + 2 * min (length a) (length b); den = 10 * longest }

unfoldable pub similarity : Text → Text → Score
unfolding group_of same_text contains_text levenshtein
similarity [] b = record { num = 0; den = 1 }
similarity (c ∷ a) [] = record { num = 0; den = 1 }
similarity (c ∷ a) (d ∷ b) =
    let left = c ∷ a in
    let right = d ∷ b in
    if same_text left right
    then record { num = 1; den = 1 }
    else if holds right (group_of left synonym_groups)
    then record { num = 95; den = 100 }
    else if contains_text right left || contains_text left right
    then contained left right
    else unlike left right
