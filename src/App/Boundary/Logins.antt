-- ===== src/App/Boundary/Logins.antt =====
-- The session that a login opens.
use app_gocms.Prelude.{
  ◌-◌, ◌<◌, ◌≡◌, ◌≢◌, [], refl, ap, ◌∙◌, Bool, true, some, Result, ok, err, arith,
}
use app_gocms.Text.{Text, codes}
use app_gocms.Text.Laws.{is_empty_of_ne}
use app_gocms.Domain.{Time}
use app_gocms.Authn.{
  MemoryStore, login_locked, invalid_credentials, missing_capability, app_token_failed, Outcome,
  granted, denied, user, principal, user_by_identifier, normalized, recent_failures, day,
}
use app_gocms.Authn.Principals.{Principal, AuthUser, principal_for_user}
use app_gocms.Authn.Active.{principal_of_user, principal-authenticate_password}
use app_gocms.Authn.Lockout.{Login, login, login_granted}
use app_gocms.App.Boundary.{
  HttpRequest, SessionClaims, Signer, Instants, redirected, claims_of, opened, concluded,
  checked_login, complete_login, valid_action_token, named_session, named_principal, first_of,
  session_principal, token_principal, principal_from_request, require_admin, admit,
}

-- The users are kept by their ids, which are not empty.
pub record IsKeyed (s : MemoryStore) : Type 0 where
  pub by_id :
      (name : Text) (u : AuthUser) → user_by_identifier s name ≡ some u → user s u.id ≡ some u
  pub named : (name : Text) (u : AuthUser) → user_by_identifier s name ≡ some u → u.id ≢ []

module _ (signer : Signer) (secret : Text) (verify : Text → Text → Bool)
    (issued : SessionClaims → Result (Unit {0})) where
  -- The login that a request asks for.
  abbrev pub asked_login : HttpRequest → Instants → Login
  asked_login r at = record {
    identifier = r.value (codes "identifier");
    password = r.value (codes "password");
    remote_addr = r.remote_addr;
    checked_at = at.checked_at;
    saved_at = at.saved_at;
  }

  opened_to :
      (p : Principal) (i : Result (Unit {0})) (to : Text) (claims : SessionClaims)
      → opened p i ≡ redirected to (some claims)
      → claims ≡ claims_of p
  opened_to p (ok x) to claims h = ground arith
  opened_to p (err e) to claims h = absurd (ground arith)

  issued_to :
      (o : Outcome Principal) (to : Text) (claims : SessionClaims)
      → concluded signer secret verify issued o ≡ redirected to (some claims)
      → (p : Principal) × (o ≡ granted p) × (claims ≡ claims_of p)
  unfolding concluded
  issued_to (granted p) to claims h = (p, refl, opened_to p (issued (claims_of p)) to claims h)
  issued_to (denied login_locked) to claims h = absurd (ground arith)
  issued_to (denied invalid_credentials) to claims h = absurd (ground arith)
  issued_to (denied missing_capability) to claims h = absurd (ground arith)
  issued_to (denied app_token_failed) to claims h = absurd (ground arith)

  login_checked :
      (r : HttpRequest) (at : Instants) (s s' : MemoryStore) (to : Text) (claims : SessionClaims)
      → complete_login signer secret verify issued r at s ≡ (redirected to (some claims), s')
      → (valid_action_token signer secret
            (r.value (codes "action_token"))
            (codes "login")
            at.token_at
          ≡ true)
        × (concluded signer secret verify issued (login verify (asked_login r at) s).0
            ≡ redirected to (some claims))
        × (s' ≡ (login verify (asked_login r at) s).1)
  unfolding complete_login checked_login
  login_checked r at s s' to claims h = ground arith

  -- The next request, with the session.
  session_of :
      (r : HttpRequest) (u : AuthUser) (s : MemoryStore)
      → r.session ≡ some (claims_of (principal_for_user u))
      → u.id ≢ []
      → principal s u.id ≡ some (principal_for_user u)
      → session_principal r s ≡ some (principal_for_user u)
  unfolding session_principal named_session principal_for_user
  session_of r u s with_session named found =
      ap (λ o. named_principal s (named_session o)) with_session
      ∙ (rw (is_empty_of_ne u.id named) found)

  -- Where the users are kept by their ids: a login that opens a session is that of the active user
  -- whom the form names, with the right password, with fewer than three failures in the last day,
  -- and with a valid token for the action "login". A request that carries the session is let in as
  -- that user, to the administration exactly if the user's roles have its capability.
  pub complete_login_opens :
      (token_hash : Text → Text) (r next : HttpRequest) (at : Instants) (now : Time)
      (s s' : MemoryStore) (to : Text) (claims : SessionClaims)
      → IsKeyed s
      → complete_login signer secret verify issued r at s ≡ (redirected to (some claims), s')
      → next.session ≡ some claims
      → (u : AuthUser) × (user_by_identifier s (normalized (r.value (codes "identifier"))) ≡ some u)
        × (u.active ≡ true)
        × (verify (r.value (codes "password")) u.password_hash ≡ true)
        × (recent_failures s (normalized (r.value (codes "identifier"))) (at.checked_at - day) < 3)
        × (valid_action_token signer secret
              (r.value (codes "action_token"))
              (codes "login")
              at.token_at
            ≡ true)
        × (principal_from_request token_hash next now s' ≡ some (principal_for_user u))
        × (require_admin token_hash next now s' ≡ admit (some (principal_for_user u)))
  unfolding principal_from_request require_admin
  complete_login_opens token_hash r next at now s s' to claims keyed h with_session =
      let (token, opens, after) = login_checked r at s s' to claims h in
      let (p, is_granted, claims_are) = issued_to _ to claims opens in
      let (u, found, active, password, same, few) =
        login_granted verify (asked_login r at) s p is_granted in
      let name = normalized (r.value (codes "identifier")) in
      let kept : principal s' u.id ≡ some (principal_for_user u) =
        ap (λ t. principal t u.id) after
        ∙ principal-authenticate_password verify _ _ r.remote_addr at.checked_at at.saved_at s u.id
        ∙ principal_of_user s u.id u (keyed.by_id name u found) active in
      let known =
        session_of next u s' (with_session ∙ ap some (claims_are ∙ ap claims_of same))
          (keyed.named name u found) kept in
      let from = ap (λ o. first_of o (token_principal token_hash next now s')) known in
      (u, found, active, password, few, token, from, ap admit from)
