-- ===== src/App/Handling/Guarded.antt =====
-- What it takes for an action of the BFF to change anything.
use mathlib.Core.Path.{subst}
use app_gocms.Prelude.{
  ◌≤◌, ◌≡◌, ◌≢◌, ◌⊎◌, refl, ap, ◌∙◌, inl, inr, true, Bool-cases, Option, none, some, ◌++◌, All,
  List, [], ◌∷◌, Result, ok, err, arith,
}
use app_gocms.Text.{Text, trim_space, is_empty}
use app_gocms.Text.Laws.{==_iff}
use app_gocms.Domain.{Time}
use app_gocms.Authn.{MemoryStore}
use app_gocms.Authn.Principals.{
  Principal, AuthUser, has, principal_for_user, admin_access, content_write,
}
use app_gocms.App.Boundary.{
  ActionToken, Signer, unix, may, principal_from_request, authorize, valid_action_token, is_good,
}
use app_gocms.App.Boundary.Authorized.{authorize_sound, InSession, Bears}
use app_gocms.App.Actions.{
  ActionRequest, ActionDescriptor, Bff, descriptor, action_descriptors, cms_content_action_scope,
}
use app_gocms.App.Handling.Dispatching.{Performs, DispatchLaws}
use app_gocms.App.Handling.{
  BffRequest, BffInstants, parse_action_request, Dispatched, Executor, Dispatcher, or_nobody,
  nobody, guard_at, require_bff_json, input_of, perform, handle_bff_action,
}

nobody_may : has nobody content_write ≢ true
unfolding has is_empty
nobody_may h = ground arith

All-at :
    {A : Type 0} (Q : A → Type 0) (before : List A) (x : A) (after : List A)
    → All Q (before ++ x ∷ after)
    → Q x
All-at Q [] x after (q, qs) = q
All-at Q (y ∷ before) x after (q, qs) = All-at Q before x after qs

module _ {S P : Type 0} (dispatcher : Dispatcher S P) (bff : Bff P)
    (executors : Text → Option (Executor S P)) (signer : Signer) (secret : Text)
    (token_hash : Text → Text) (m : MemoryStore) where
  -- Who is behind an action that the BFF performs, with what token, and what is done.
  pub record Acted (r : BffRequest) (at : BffInstants) (s s' : S) : Type 0 where
    pub admin : authorize token_hash r.http at.guarded_at m admin_access ≡ (true, true)
    pub user : AuthUser
    pub active : user.active ≡ true
    pub role : has (principal_for_user user) content_write ≡ true
    pub session :
        InSession token_hash r.http at.named_at m user
        ⊎ Bears token_hash r.http at.named_at m user content_write
    pub request : ActionRequest
    pub parsed : parse_action_request r ≡ ok request
    pub token : ActionToken
    pub signed : signer.signed_decode (dispatcher.action_token_of request) secret ≡ ok token
    pub scope : token.action ≡ cms_content_action_scope
    pub fresh : unix at.token_at ≤ token.exp
    pub run : Executor S P
    pub known : executors (trim_space r.path_value) ≡ some run
    pub ran : s' ≡ (run request s).1

  good_token :
      (o : Result ActionToken) (scope : Text) (now : Time)
      → is_good scope now o ≡ true
      → (token : ActionToken) × (o ≡ ok token) × (token.action ≡ scope) × (unix now ≤ token.exp)
  good_token (ok token) scope now h =
      (token, refl, ground (arith, ==_iff token.action scope), ground arith)
  good_token (err e) scope now h = absurd (ground arith)

  -- A descriptor asks for the capability to write and for a token of the content scope.
  record Asks (d : ActionDescriptor) : Type 0 where
    capability : d.capability ≡ content_write
    token : d.requires_token ≡ true
    scope : d.scope ≡ cms_content_action_scope

  asking : All Asks (action_descriptors bff)
  unfolding action_descriptors
  asking =
      let asks : (id label : Text) → Asks (descriptor bff id label) =
        λ id label. record { capability = refl; token = refl; scope = refl } in
      (asks _ _, (asks _ _, (asks _ _, tt)))

  named_may :
      (o : Option Principal)
      → has (or_nobody o) content_write ≡ true
      → may content_write o ≡ (true, true)
  named_may (some p) h = ap (λ b. (true, b)) h
  named_may none h = absurd (nobody_may h)

  run-Acted :
      (r : BffRequest) (at : BffInstants) (req : ActionRequest) (s : S)
      (dispatched : Dispatched P × S)
      → authorize token_hash r.http at.guarded_at m admin_access ≡ (true, true)
      → parse_action_request r ≡ ok req
      → Performs dispatcher
          (action_descriptors bff)
          executors
          (input_of dispatcher
            (action_descriptors bff)
            executors
            signer
            secret
            token_hash
            m
            r
            at
            req)
          s
          dispatched
      → Acted r at s dispatched.1
  unfolding authorize valid_action_token
  run-Acted r at req s dispatched admin parsed p =
      let asks = All-at Asks p.before p.descriptor p.after (subst (All Asks) p.listed asking) in
      let permitted =
        named_may (principal_from_request token_hash r.http at.named_at m)
          (subst (λ c. has _ c ≡ true) asks.capability p.permitted) in
      let (u, active, role, session) =
        authorize_sound token_hash r.http at.named_at m content_write (λ e. ground arith)
          permitted in
      let (token, signed, scope, fresh) =
        good_token (signer.signed_decode (dispatcher.action_token_of req) secret) p.descriptor.scope
          at.token_at (p.validated asks.token) in
      record {
        admin = admin;
        user = u;
        active = active;
        role = role;
        session = session;
        request = req;
        parsed = parsed;
        token = token;
        signed = signed;
        scope = scope ∙ asks.scope;
        fresh = fresh;
        run = p.run;
        known = p.known;
        ran = ap (λ x. x.1) p.ran;
      }

  perform-Acted :
      (laws : DispatchLaws dispatcher) (r : BffRequest) (at : BffInstants)
      (o : Result ActionRequest) (s : S)
      → authorize token_hash r.http at.guarded_at m admin_access ≡ (true, true)
      → parse_action_request r ≡ o
      → ((perform dispatcher
            (action_descriptors bff)
            executors
            signer
            secret
            token_hash
            m
            r
            at
            o
            s).1
          ≡ s)
        ⊎ Acted r at s
            (perform dispatcher
              (action_descriptors bff)
              executors
              signer
              secret
              token_hash
              m
              r
              at
              o
              s).1
  unfolding perform
  perform-Acted laws r at (err e) s admin parsed = inl refl
  perform-Acted laws r at (ok req) s admin parsed =
      elim (laws.secure (action_descriptors bff) executors
        (input_of dispatcher (action_descriptors bff) executors signer secret token_hash m r at req)
        s) [ inl same ↦ inl same | inr p ↦ inr (run-Acted r at req s _ admin parsed p) ]

  guard_at-Acted :
      (laws : DispatchLaws dispatcher) (r : BffRequest) (at : BffInstants) (o : Option Principal)
      (s : S)
      → principal_from_request token_hash r.http at.guarded_at m ≡ o
      → ((guard_at o
            (perform dispatcher
              (action_descriptors bff)
              executors
              signer
              secret
              token_hash
              m
              r
              at
              (parse_action_request r))
            s).1
          ≡ s)
        ⊎ Acted r at s
            (guard_at o
              (perform dispatcher
                (action_descriptors bff)
                executors
                signer
                secret
                token_hash
                m
                r
                at
                (parse_action_request r))
              s).1
  unfolding guard_at authorize
  guard_at-Acted laws r at none s who = inl refl
  guard_at-Acted laws r at (some p) s who = elim (Bool-cases (has p admin_access)) [
    | inl e ↦ rw e (
        perform-Acted laws r at (parse_action_request r) s
          (ap (may admin_access) who ∙ ap (λ b. (true, b)) e) refl)
    | inr e ↦ rw e (inl refl)
  ]

  -- Where the dispatch of the platform keeps to its documentation: a request for an action changes
  -- nothing, or it was let through the guard of the administration, comes from an active user whose
  -- roles have the capability to write content (by the session of the request, or by the stored app
  -- token that its bearer token names, which is neither revoked nor expired and allows it), and
  -- carries, where the dispatch looks for it, an action token that decodes under the secret to the
  -- content scope and has not expired; what is done then is what the executor of the named action
  -- does with the request.
  pub bff_action_guarded :
      DispatchLaws dispatcher
      → (r : BffRequest) (at : BffInstants) (s : S)
      → ((handle_bff_action dispatcher
            (action_descriptors bff)
            executors
            signer
            secret
            token_hash
            m
            r
            at
            s).1
          ≡ s)
        ⊎ Acted r at s
            (handle_bff_action dispatcher
              (action_descriptors bff)
              executors
              signer
              secret
              token_hash
              m
              r
              at
              s).1
  unfolding handle_bff_action require_bff_json
  bff_action_guarded laws r at s = guard_at-Acted laws r at _ s refl
