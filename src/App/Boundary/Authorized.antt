-- ===== src/App/Boundary/Authorized.antt =====
-- Who is let through the boundary: sessions and bearer tokens.
use mathlib.Core.Path.{subst}
use mathlib.Core.Option.{some-injective}
use app_gocms.Prelude.{
  ◌≤◌, ◌≡◌, ◌≢◌, ◌⊎◌, refl, ap, inl, inr, true, Option, none, some, [], Bool-cases, arith,
}
use app_gocms.Text.{Text, codes, is_empty, has_prefix, trim_prefix}
use app_gocms.Text.Laws.{is_empty_of_ne}
use app_gocms.Domain.{Time}
use app_gocms.Authn.{MemoryStore, AppToken, Outcome, granted, denied, user}
use app_gocms.Authn.Principals.{Principal, AuthUser, has, contains_text, principal_for_user}
use app_gocms.Authn.Active.{principal_active}
use app_gocms.Authn.Tokens.{Names, app_token_within}
use app_gocms.App.Boundary.{
  HttpRequest, SessionClaims, session_principal, named_session, token_principal, granted_only,
  named_principal, first_of, may, principal_from_request, authorize,
}

contains-has :
    (p : Principal) (c : Text) → c ≢ [] → has p c ≡ true → contains_text c p.capabilities ≡ true
unfolding has
contains-has p c named h = rw (is_empty_of_ne c named) at h

module _ (token_hash : Text → Text) (r : HttpRequest) (now : Time) (s : MemoryStore) where
  -- The user is in the session of the request.
  abbrev pub InSession : AuthUser → Type 0
  InSession u =
      (claims : SessionClaims) × (r.session ≡ some claims) × (user s claims.principal_id ≡ some u)

  -- The stored app token that the bearer token of the request names is the user's, has its hash, is
  -- neither revoked nor expired, and names the capability if it names any.
  abbrev pub Bears : AuthUser → Text → Type 0
  Bears u c =
      (t : AppToken) × (has_prefix r.authorization (codes "Bearer ") ≡ true)
      × Names token_hash s (trim_prefix r.authorization (codes "Bearer ")) t
      × (t.hash ≡ token_hash (trim_prefix r.authorization (codes "Bearer ")))
      × (t.revoked_at ≡ none)
      × (now ≤ t.expires_at)
      × (user s t.user_id ≡ some u)
      × ((t.capabilities ≡ []) ⊎ (contains_text c t.capabilities ≡ true))

  session_active :
      (o : Option SessionClaims) (p : Principal)
      → r.session ≡ o
      → named_principal s (named_session o) ≡ some p
      → (u : AuthUser) × (u.active ≡ true) × (p ≡ principal_for_user u) × InSession u
  unfolding named_session
  session_active none p is h = absurd (ground arith)
  session_active (some claims) p is h = elim (Bool-cases (is_empty claims.principal_id)) [
    | inl e ↦ absurd (ground (arith, rw e at h))
    | inr e ↦
        let (u, found, active, same) = principal_active s claims.principal_id p (rw e at h) in
        (u, active, same, (claims, is, found))
  ]

  token_active :
      (p : Principal) (c : Text)
      → token_principal token_hash r now s ≡ some p
      → contains_text c p.capabilities ≡ true
      → (u : AuthUser) × (u.active ≡ true) × (has (principal_for_user u) c ≡ true) × Bears u c
  unfolding token_principal
  token_active p c h allowed = elim (Bool-cases (has_prefix r.authorization (codes "Bearer "))) [
    | inl bearer ↦
        let granted_p = only_granted _ (rw bearer at h) in
        let (t, u, stored, revoked, until, hash, of, active, role, named) =
          app_token_within token_hash (trim_prefix r.authorization (codes "Bearer ")) now s p c
            granted_p allowed in
        (u, active, role, (t, bearer, stored, hash, revoked, until, of, named))
    | inr other ↦ absurd (ground (arith, rw other at h))
  ]
    where
      only_granted : (o : Outcome Principal) → granted_only o ≡ some p → o ≡ granted p
      only_granted (granted q) g = ap granted (some-injective q p g)
      only_granted (denied e) g = absurd (ground arith)

  allowed : (p : Principal) (c : Text) → may c (some p) ≡ (true, true) → has p c ≡ true
  allowed p c h = ap (λ x. x.1) h

  from_token :
      (o : Option Principal) (c : Text)
      → token_principal token_hash r now s ≡ o
      → c ≢ []
      → may c o ≡ (true, true)
      → (u : AuthUser) × (u.active ≡ true) × (has (principal_for_user u) c ≡ true) × Bears u c
  from_token (some p) c is named h = token_active p c is (contains-has p c named (allowed p c h))
  from_token none c is named h = absurd (ground arith)

  from_either :
      (o : Option Principal) (c : Text)
      → session_principal r s ≡ o
      → c ≢ []
      → may c (first_of o (token_principal token_hash r now s)) ≡ (true, true)
      → (u : AuthUser) × (u.active ≡ true)
        × (has (principal_for_user u) c ≡ true)
        × (InSession u ⊎ Bears u c)
  unfolding session_principal
  from_either (some p) c is named h =
      let (u, active, same, there) = session_active r.session p refl is in
      (u, active, subst (λ q. has q c ≡ true) same (allowed p c h), inl there)
  from_either none c is named h =
      let (u, active, role, there) = from_token _ c refl named h in (u, active, role, inr there)

  -- A request that is authenticated and allowed a capability comes from an active user whose roles
  -- have the capability. The user is the one that the request's session names, or the owner of the
  -- app token that the store holds under the prefix of the bearer token in the request's header. That
  -- token has the hash of the bearer token, is not revoked, not expired, and names the capability if
  -- it names any.
  pub authorize_sound :
      (c : Text)
      → c ≢ []
      → authorize token_hash r now s c ≡ (true, true)
      → (u : AuthUser) × (u.active ≡ true)
        × (has (principal_for_user u) c ≡ true)
        × (InSession u ⊎ Bears u c)
  unfolding authorize principal_from_request
  authorize_sound c named h = from_either (session_principal r s) c refl named h
