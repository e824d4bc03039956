-- ===== src/Users/Grants/Applied.antt =====
-- The statements of `mysqlGrantDiff` in components/users-view.tsx bring a server from the first set of
-- privileges to the second one. The server is a parameter, with the documented effect of GRANT and REVOKE.
use basemaster.Base.{
  ◌≡◌, refl, sym, ap, ◌∙◌, Bool, true, false, not, ◌&&◌, ◌||◌, List, [], ◌∷◌, ◌++◌, arith,
}
use basemaster.Base.Text.{Text, same_text_sound}
use basemaster.Users.Grants.Sets.{has-filter}
use basemaster.Users.Grants.{
  has, grant_option, GrantChange, grant, revoke, revoke_option, is_option, some_of, when,
  missing_from, grant_changes,
}

-- A server: what each statement does to the privileges of the user on the statement's target, where
-- USAGE stands for no privilege.
pub record Server : Type 0 where
  pub apply : GrantChange → (Text → Bool) → Text → Bool
  pub apply-grant :
      (ps : List Text) (go : Bool) (held : Text → Bool) (p : Text)
      → apply (grant ps go) held p ≡ ((held p || has p ps) || go && is_option p)
  pub apply-revoke :
      (ps : List Text) (held : Text → Bool) (p : Text)
      → apply (revoke ps) held p ≡ (held p && not (has p ps))
  pub apply-revoke_option :
      (held : Text → Bool) (p : Text) → apply revoke_option held p ≡ (held p && not (is_option p))

-- The statements one after the other.
unfoldable pub apply_all : Server → List GrantChange → (Text → Bool) → Text → Bool
apply_all server [] held = held
apply_all server (s ∷ ss) held = apply_all server ss (server.apply s held)

apply_all-append :
    (server : Server) (ss ts : List GrantChange) (held : Text → Bool)
    → apply_all server (ss ++ ts) held ≡ apply_all server ts (apply_all server ss held)
unfolding apply_all
apply_all-append server [] ts held = refl
apply_all-append server (s ∷ ss) ts held = apply_all-append server ss ts (server.apply s held)

-- Without a member nothing is missing.
some_of-has : (p : Text) (set : List Text) → some_of set ≡ false → has p set ≡ false
unfolding has
some_of-has p [] h = refl
some_of-has p (q ∷ set) h = absurd (cc h)

apply_when-grant :
    (server : Server) (b : Bool) (ps : List Text) (go : Bool) (held : Text → Bool) (p : Text)
    → apply_all server (when b (grant ps go)) held p
      ≡ (held p || b && (has p ps || go && is_option p))
unfolding apply_all
apply_when-grant server true ps go held p = server.apply-grant ps go held p ∙ ground arith
apply_when-grant server false ps go held p = ground arith

apply_when-revoke :
    (server : Server) (b : Bool) (ps : List Text) (held : Text → Bool) (p : Text)
    → apply_all server (when b (revoke ps)) held p ≡ (held p && not (b && has p ps))
unfolding apply_all
apply_when-revoke server true ps held p = server.apply-revoke ps held p
apply_when-revoke server false ps held p = ground arith

apply_when-revoke_option :
    (server : Server) (b : Bool) (held : Text → Bool) (p : Text)
    → apply_all server (when b revoke_option) held p ≡ (held p && not (b && is_option p))
unfolding apply_all
apply_when-revoke_option server true held p = server.apply-revoke_option held p
apply_when-revoke_option server false held p = ground arith

-- The three statements on one privilege, as Booleans.
changed :
    (held wanted option grants revokes orig_go next_go : Bool)
    → (option ≡ true → (held ≡ orig_go) × (wanted ≡ next_go))
    → (grants ≡ false → (wanted && (not option && not held)) ≡ false)
    → (revokes ≡ false → (held && (not option && not wanted)) ≡ false)
    → (((held
            || (grants || next_go && not orig_go)
              && ((wanted && (not option && not held)) || next_go && option))
          && not (revokes && (held && (not option && not wanted))))
        && not ((orig_go && not next_go) && option))
      ≡ wanted
changed held wanted option grants revokes orig_go next_go o g r = ground arith

has-missing_from :
    (p : Text) (b a : List Text)
    → has p (missing_from b a) ≡ (has p a && (not (is_option p) && not (has p b)))
unfolding missing_from
has-missing_from p b a = has-filter p (λ q. not (is_option q) && not (has q b)) a

at_option :
    (p : Text) (orig next : List Text)
    → is_option p ≡ true
    → (has p orig ≡ has grant_option orig) × (has p next ≡ has grant_option next)
at_option p orig next h =
    let e : p ≡ grant_option = same_text_sound p grant_option h in
    (ap (λ q. has q orig) e, ap (λ q. has q next) e)

-- For every server with these effects: if the user has just the privileges of `orig`, then after the
-- statements the user has just those of `next`, the grant option included.
pub apply_all-grant_changes :
    (server : Server) (orig next : List Text) (p : Text)
    → apply_all server (grant_changes orig next) (λ q. has q orig) p ≡ has p next
unfolding grant_changes
apply_all-grant_changes server orig next p =
    let to_grant = missing_from orig next in
    let to_revoke = missing_from next orig in
    let orig_go = has grant_option orig in
    let next_go = has grant_option next in
    let held = λ (q : Text). has q orig in
    let first = when (some_of to_grant || next_go && not orig_go) (grant to_grant next_go) in
    let second = when (some_of to_revoke) (revoke to_revoke) in
    let third = when (orig_go && not next_go) revoke_option in
    rw
      (
        apply_all-append server (first ++ second) third held,
        apply_all-append server first second held,
        apply_when-revoke_option server (orig_go && not next_go)
            (apply_all server second (apply_all server first held)) p,
        apply_when-revoke server (some_of to_revoke) to_revoke (apply_all server first held) p,
        apply_when-grant server (some_of to_grant || next_go && not orig_go) to_grant next_go held
            p,
        has-missing_from p orig next,
        has-missing_from p next orig,
      )
      (changed (has p orig) (has p next) (is_option p) (some_of to_grant) (some_of to_revoke)
        orig_go next_go (at_option p orig next)
        (λ e. sym (has-missing_from p orig next) ∙ some_of-has p to_grant e)
        (λ e. sym (has-missing_from p next orig) ∙ some_of-has p to_revoke e))
