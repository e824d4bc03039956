-- ===== src/Users/Grants/Sets.antt =====
-- The comparison of two sets in components/users-view.tsx decides whether they have the same members.
use basemaster.Base.{
  suc, ◌≤◌, ◌≡◌, refl, sym, ap, ◌∙◌, ◌↔◌, inl, inr, Bool, true, false, not, ◌&&◌, ◌||◌, List, [],
  ◌∷◌, arith, length, filter, if◌then◌else◌, Bool-cases,
}
use basemaster.Base.Text.{Text, same_text, same_text_refl, same_text_sound, same_text_sym}
use basemaster.Users.Grants.{has, delete, within, eq_set}

has-if :
    (p q : Text) (set : List Text) (b : Bool)
    → has p (if b then q ∷ set else set) ≡ (b && same_text p q || has p set)
unfolding has
has-if p q set true = refl
has-if p q set false = refl

kept :
    (same keep_p keep_q held rest : Bool)
    → (same ≡ true → keep_p ≡ keep_q)
    → rest ≡ (held && keep_p)
    → (keep_q && same || rest) ≡ ((same || held) && keep_p)
kept same keep_p keep_q held rest h e = ground arith

pub has-filter :
    (p : Text) (keep : Text → Bool) (set : List Text)
    → has p (filter keep set) ≡ (has p set && keep p)
unfolding has
has-filter p keep [] = refl
has-filter p keep (q ∷ set) =
    has-if p q (filter keep set) (keep q)
    ∙ kept (same_text p q) (keep p) (keep q) (has p set) (has p (filter keep set))
        (λ t. ap keep (same_text_sound p q t)) (has-filter p keep set)

-- No member twice, as in every JavaScript `Set`.
unfoldable pub distinct : List Text → Bool
distinct [] = true
distinct (v ∷ a) = not (has v a) && distinct a

Sub : List Text → List Text → Type 0
Sub a b = (p : Text) → has p a ≡ true → has p b ≡ true

has_nil : (p : Text) → has p [] ≡ false
unfolding has
has_nil p = refl

has_self : (v : Text) (a : List Text) → has v (v ∷ a) ≡ true
unfolding has
has_self v a = rw (same_text_refl v) refl

has-cons : (p v : Text) (a : List Text) → has p (v ∷ a) ≡ (same_text p v || has p a)
unfolding has
has-cons p v a = refl

has-same : (p v : Text) (b : List Text) → same_text p v ≡ true → has p b ≡ has v b
has-same p v b h = ap (λ q. has q b) (same_text_sound p v h)

within-Sub : (a b : List Text) → within a b ≡ true → Sub a b
unfolding Sub
within-Sub [] b h p k = absurd (cc (sym (has_nil p) ∙ k))
within-Sub (v ∷ a) b h p k =
    ground (arith, within-Sub a b (ground arith) p, has-cons p v a, has-same p v b)

Sub-within : (a b : List Text) → Sub a b → within a b ≡ true
unfolding Sub
Sub-within [] b h = refl
Sub-within (v ∷ a) b h =
    ground (arith, h v (has_self v a), Sub-within a b (λ p k. h p (ground (arith, has-cons p v a))))

has-delete : (p v : Text) (b : List Text) → has p (delete v b) ≡ (has p b && not (same_text v p))
unfolding delete
has-delete p v b = has-filter p (λ q. not (same_text v q)) b

delete_absent : (v : Text) (b : List Text) → has v b ≡ false → delete v b ≡ b
unfolding delete has
delete_absent v [] h = refl
delete_absent v (w ∷ b) h = ground (arith, delete_absent v b)

length-delete :
    (v : Text) (b : List Text)
    → has v b ≡ true
    → distinct b ≡ true
    → suc (length (delete v b)) ≡ length b
unfolding distinct delete
length-delete v [] h d = absurd (cc (sym (has_nil v) ∙ h))
length-delete v (w ∷ b) h d = elim (Bool-cases (same_text v w)) [
  | inl e ↦ rw e (ap suc (ap length (delete_absent v b (has-same v w b e ∙ ground arith))))
  | inr f ↦ rw f (ap suc (length-delete v b (ground (arith, has-cons v w b)) (ground arith)))
]

distinct-delete : (v : Text) (b : List Text) → distinct b ≡ true → distinct (delete v b) ≡ true
unfolding distinct delete
distinct-delete v [] d = refl
distinct-delete v (w ∷ b) d = ground (arith, distinct-delete v b, has-delete w v b)

Sub-delete :
    (v : Text) (a b : List Text) → distinct (v ∷ a) ≡ true → Sub (v ∷ a) b → Sub a (delete v b)
unfolding Sub distinct
Sub-delete v a b d s q k = ground (arith, has-delete q v b, s q, has-cons q v a, has-same v q a, k)

Sub-length :
    (a b : List Text) → distinct a ≡ true → distinct b ≡ true → Sub a b → length a ≤ length b
unfolding distinct Sub
Sub-length [] b da db s = omega arith
Sub-length (v ∷ a) b da db s = omega (
  arith,
  Sub-length a (delete v b) (ground arith) (distinct-delete v b db) (Sub-delete v a b da s),
  length-delete v b (s v (has_self v a)) db,
)

-- A set without repetition that is at least as large as one it lies in has all its members.
Sub-back :
    (a b : List Text)
    → distinct a ≡ true
    → distinct b ≡ true
    → Sub a b
    → length b ≤ length a
    → Sub b a
unfolding Sub distinct
Sub-back [] [] da db s l p h = h
Sub-back [] (w ∷ b) da db s l p h = absurd (omega (arith, l))
Sub-back (v ∷ a) b da db s l p h =
    let hv : has v b ≡ true = s v (has_self v a) in
    let later =
      Sub-back a (delete v b) (ground arith) (distinct-delete v b db) (Sub-delete v a b da s)
        (omega (arith, length-delete v b hv db, l)) p in
    ground (arith, later, has-delete p v b, has-cons p v a, same_text_sym p v, h)

eq_set-same :
    (a b : List Text)
    → distinct a ≡ true
    → distinct b ≡ true
    → eq_set a b ≡ true
    → (p : Text) → has p a ≡ has p b
unfolding eq_set Sub
eq_set-same a b da db h p =
    let into = within-Sub a b (ground arith) in
    let back = Sub-back a b da db into (ground arith) in ground (arith, into p, back p)

eq_set-equal :
    (a b : List Text)
    → distinct a ≡ true
    → distinct b ≡ true
    → ((p : Text) → has p a ≡ has p b)
    → eq_set a b ≡ true
unfolding eq_set Sub
eq_set-equal a b da db h =
    let into = Sub-within a b (λ p k. sym (h p) ∙ k) in
    let l = Sub-length a b da db (λ p k. sym (h p) ∙ k) in
    let m = Sub-length b a db da (λ p k. h p ∙ k) in ground (arith, into, l, m)

-- Two sets without repetition are found equal just if they have the same members.
pub eq_set_iff :
    (a b : List Text)
    → distinct a ≡ true
    → distinct b ≡ true
    → (eq_set a b ≡ true) ↔ ((p : Text) → has p a ≡ has p b)
eq_set_iff a b da db = (eq_set-same a b da db, eq_set-equal a b da db)
