-- ===== src/Authn/Tokens.antt =====
-- App tokens: a token lets its user in until it expires, and never gives more than the user's roles.
use mathlib.Core.Path.{subst}
use app_gocms.Prelude.{
  ◌≤◌, ◌≡◌, ◌≢◌, refl, sym, ap, ◌∙◌, ℤ, Bool, true, false, ◌||◌, Option, none, some, List, [], ◌∷◌,
  ◌++◌, arith, filter, if◌then◌else◌, ok, All-append, Bool-cases, ◌⊎◌, inl, inr,
}
use app_gocms.Text.{Text, codes, ◌==◌, is_empty, trim_space, is_space, cut, strip_prefix}
use app_gocms.Text.Laws.{==_refl, ==_iff, Lacks, AllOut, trim-AllOut, is_empty_of_ne}
use app_gocms.Domain.{Time}
use app_gocms.Authn.Principals.{
  Principal, AuthUser, principal_for_user, with_capabilities, has, contains_text,
}
use app_gocms.Authn.{
  MemoryStore, AppToken, Outcome, granted, denied, user, principal, active_principal, token_of,
  save_token, create_app_token, authenticate_app_token, issue, ended, accepted, prefix_of,
  token_named, limited, principal_of,
}

-- What is cut at the first dot.
cut-Lacks :
    (xs ys : Text) → Lacks b'.' xs → cut (xs ++ (codes "." ++ ys)) (codes ".") ≡ some (xs, ys)
unfolding cut strip_prefix
cut-Lacks [] [] h = refl
cut-Lacks [] (y ∷ ys) h = refl
cut-Lacks (x ∷ xs) ys (h, hs) = ground (arith, cut-Lacks xs ys hs)

contains-filter :
    (p : Text → Bool) (c : Text) (xs : List Text)
    → contains_text c (filter p xs) ≡ true
    → (contains_text c xs ≡ true) × (p c ≡ true)
unfolding contains_text
contains-filter p c [] h = ground arith
contains-filter p c (x ∷ xs) h = from (p x) refl (contains-filter p c xs) h
  where
    from :
        (b : Bool)
        → p x ≡ b
        → (contains_text c (filter p xs) ≡ true → (contains_text c xs ≡ true) × (p c ≡ true))
        → contains_text c (if b then x ∷ filter p xs else filter p xs) ≡ true
        → ((x == c || contains_text c xs) ≡ true) × (p c ≡ true)
    from true pb later g = elim (Bool-cases (x == c)) [
      | inl e ↦ (rw e refl, subst (λ y. p y ≡ true) ((==_iff x c).0 e) pb)
      | inr e ↦ (rw e (later (rw e at g)).0, (later (rw e at g)).1)
    ]
    from false pb later g = (ground (arith, (later g).0), (later g).1)

contains-has : (q : Principal) (c : Text) → contains_text c q.capabilities ≡ true → has q c ≡ true
unfolding has
contains-has q c h = ground arith

abbrev given : Principal → Outcome Principal → Principal
given q (granted p) = p
given q (denied e) = q

limited_within :
    (capabilities : List Text) (q p : Principal) (c : Text)
    → limited capabilities (some q) ≡ granted p
    → contains_text c p.capabilities ≡ true
    → (has q c ≡ true) × ((capabilities ≡ []) ⊎ (contains_text c capabilities ≡ true))
unfolding with_capabilities
limited_within [] q p c h g =
    let same = ap (given q) h in
    (contains-has q c (subst (λ r. contains_text c r.capabilities ≡ true) (sym same) g), inl refl)
limited_within (x ∷ xs) q p c h g =
    let same = ap (given q) h in
    let (named, allowed) =
      contains-filter (has q) c (x ∷ xs)
        (subst (λ r. contains_text c r.capabilities ≡ true) (sym same) g) in
    (allowed, inr named)

-- The texts that `randomToken` returns have no space and no dot.
pub record IsRandom (x : Text) : Type 0 where
  pub filled : x ≢ []
  pub no_dot : Lacks b'.' x
  pub no_space : AllOut is_space x

raw_trimmed :
    (x y : Text)
    → IsRandom x
    → IsRandom y
    → trim_space (x ++ (codes "." ++ y)) ≡ x ++ (codes "." ++ y)
unfolding trim_space
raw_trimmed x y hx hy =
    trim-AllOut is_space (x ++ (codes "." ++ y))
      (All-append _ x (codes "." ++ y) hx.no_space (refl, hy.no_space))

prefix_of_raw :
    (x y : Text)
    → IsRandom x
    → IsRandom y
    → prefix_of (cut (trim_space (x ++ (codes "." ++ y))) (codes ".")) ≡ some x
unfolding prefix_of
prefix_of_raw x y hx hy =
    rw (raw_trimmed x y hx hy, cut-Lacks x y hx.no_dot, is_empty_of_ne x hx.filled)

module _ (token_hash : Text → Text) where
  accepted_at :
      (raw : Text) (t : AppToken) (now : Time)
      → t.hash ≡ token_hash raw
      → t.revoked_at ≡ none
      → now ≤ t.expires_at
      → accepted token_hash raw now (some t) ≡ some t
  unfolding accepted
  accepted_at raw t now h r e = ground (arith, ==_refl raw, ==_refl (token_hash raw))

  accepted_is :
      (raw : Text) (now : Time) (o : Option AppToken) (t : AppToken)
      → accepted token_hash raw now o ≡ some t
      → (t.revoked_at ≡ none) × (now ≤ t.expires_at) × (t.hash ≡ token_hash raw)
  unfolding accepted
  accepted_is raw now (some u) t h = ground (arith, (==_iff u.hash (token_hash raw)).0)
  accepted_is raw now none t h = ground arith

  created :
      (user_id : Text) (capabilities : List Text) (ttl : ℤ) (id secret : Text) (now : Time)
      (s : MemoryStore) (raw : Text) (t : AppToken) (s' : MemoryStore)
      → create_app_token token_hash user_id capabilities ttl (ok id) (ok secret) none now s
        ≡ (ok (raw, t), s')
      → (raw ≡ id ++ (codes "." ++ secret))
        × (t.prefix ≡ id)
        × (t.user_id ≡ user_id)
        × (t.capabilities ≡ capabilities)
        × (t.hash ≡ token_hash raw)
        × (t.revoked_at ≡ none)
        × (s' ≡ save_token s t)
  unfolding create_app_token issue ended
  created user_id capabilities ttl id secret now s raw t s' h = ground arith

  found_saved :
      (t : AppToken) (s : MemoryStore) → token_named (save_token s t) (some t.prefix) ≡ some t
  unfolding token_named token_of save_token
  found_saved t s = rw (==_refl t.prefix)

  principal_saved :
      (t u : AppToken) (s : MemoryStore)
      → principal_of (save_token s t) (some u) ≡ limited u.capabilities (principal s u.user_id)
  unfolding principal_of principal user save_token
  principal_saved t u s = refl

  authenticate_saved :
      (x y : Text) (t : AppToken) (later : Time) (s : MemoryStore)
      → IsRandom x
      → IsRandom y
      → t.prefix ≡ x
      → t.hash ≡ token_hash (x ++ (codes "." ++ y))
      → t.revoked_at ≡ none
      → later ≤ t.expires_at
      → authenticate_app_token token_hash (x ++ (codes "." ++ y)) later (save_token s t)
        ≡ limited t.capabilities (principal s t.user_id)
  unfolding authenticate_app_token
  authenticate_saved x y t later s hx hy prefix hash revoked until = rw (prefix_of_raw x y hx hy) (
      ap (λ z. principal_of (save_token s t) (accepted token_hash (x ++ (codes "." ++ y)) later z))
        (ap (λ z. token_named (save_token s t) (some z)) (sym prefix) ∙ found_saved t s)
      ∙ ap (principal_of (save_token s t))
          (accepted_at (x ++ (codes "." ++ y)) t later hash revoked until)
      ∙ principal_saved t t s)

  -- A token that was created for an active user, from an id and a secret without spaces and dots,
  -- lets that user in, with what the token allows, at every instant until it expires; it is found
  -- by its prefix even when the store holds others.
  pub authenticate-create :
      (user_id : Text) (capabilities : List Text) (ttl : ℤ) (id secret : Text) (now later : Time)
      (s : MemoryStore) (p : Principal) (raw : Text) (t : AppToken) (s' : MemoryStore)
      → IsRandom id
      → IsRandom secret
      → principal s user_id ≡ some p
      → create_app_token token_hash user_id capabilities ttl (ok id) (ok secret) none now s
        ≡ (ok (raw, t), s')
      → later ≤ t.expires_at
      → authenticate_app_token token_hash raw later s' ≡ limited capabilities (some p)
  authenticate-create user_id capabilities ttl id secret now later s p raw t s' hi hs hp hc hl =
      let (raw_is, prefix, owner, allowed, hash, revoked, saved) =
        created user_id capabilities ttl id secret now s raw t s' hc in
      rw (raw_is, saved)
        (authenticate_saved id secret t later s hi hs prefix (hash ∙ ap token_hash raw_is) revoked
            hl
          ∙ rw (owner, allowed, hp))

  -- The token that a raw text names stands in the store under the text before the first dot.
  named_stored :
      (s : MemoryStore) (o : Option (Text × Text)) (t : AppToken)
      → token_named s (prefix_of o) ≡ some t
      → (prefix : Text) × (rest : Text) × (o ≡ some (prefix, rest)) × (token_of s prefix ≡ some t)
  unfolding token_named prefix_of
  named_stored s none t h = absurd (ground (arith, h))
  named_stored s (some (prefix, rest)) t h = elim (Bool-cases (is_empty prefix)) [
    | inl e ↦ absurd (ground (arith, rw e at h))
    | inr e ↦ (prefix, rest, refl, rw e at h)
  ]

  -- What is accepted is what was found.
  accepted_same :
      (raw : Text) (now : Time) (o : Option AppToken) (t : AppToken)
      → accepted token_hash raw now o ≡ some t
      → o ≡ some t
  unfolding accepted
  accepted_same raw now (some u) t h = ground arith
  accepted_same raw now none t h = ground arith

  active_granted :
      (capabilities : List Text) (u : AuthUser) (p : Principal)
      → limited capabilities (active_principal (some u)) ≡ granted p
      → (u.active ≡ true) × (limited capabilities (some (principal_for_user u)) ≡ granted p)
  unfolding active_principal principal_for_user
  active_granted capabilities u p g = elim (Bool-cases u.active) [
    | inl e ↦ (e, rw e at g)
    | inr e ↦ absurd (ground (arith, rw e at g))
  ]

  principal_of_granted :
      (s : MemoryStore) (o : Option AppToken) (p : Principal)
      → principal_of s o ≡ granted p
      → (t : AppToken) × (u : AuthUser) × (o ≡ some t)
        × (user s t.user_id ≡ some u)
        × (u.active ≡ true)
        × (limited t.capabilities (some (principal_for_user u)) ≡ granted p)
  unfolding principal_of principal active_principal
  principal_of_granted s none p h = ground arith
  principal_of_granted s (some t) p h = from (user s t.user_id) refl h
    where
      from :
          (o : Option AuthUser)
          → user s t.user_id ≡ o
          → limited t.capabilities (active_principal o) ≡ granted p
          → (t' : AppToken) × (u : AuthUser) × (some t ≡ some t')
            × (user s t'.user_id ≡ some u)
            × (u.active ≡ true)
            × (limited t'.capabilities (some (principal_for_user u)) ≡ granted p)
      from none e g = absurd (ground arith)
      from (some u) e g =
          let (active, same) = active_granted t.capabilities u p g in (t, u, refl, e, active, same)

  -- The app token that a raw text names: the one that the store holds under the text before the first
  -- dot.
  abbrev pub Names : MemoryStore → Text → AppToken → Type 0
  Names s raw t =
      (prefix : Text) × (rest : Text) × (cut (trim_space raw) (codes ".") ≡ some (prefix, rest))
      × (token_of s prefix ≡ some t)

  -- Who is let in by a token is the user of the stored token that the text names, who is active; the
  -- token is not revoked, not expired, and its hash is that of the text.
  pub app_token_granted :
      (raw : Text) (now : Time) (s : MemoryStore) (p : Principal)
      → authenticate_app_token token_hash raw now s ≡ granted p
      → (t : AppToken) × (u : AuthUser) × Names s raw t
        × (t.revoked_at ≡ none)
        × (now ≤ t.expires_at)
        × (t.hash ≡ token_hash raw)
        × (user s t.user_id ≡ some u)
        × (u.active ≡ true)
        × (limited t.capabilities (some (principal_for_user u)) ≡ granted p)
  unfolding authenticate_app_token
  app_token_granted raw now s p h =
      let named = token_named s (prefix_of (cut (trim_space raw) (codes "."))) in
      let (t, u, from, of, active, same) =
        principal_of_granted s (accepted token_hash raw now named) p h in
      let (revoked, until, hash) = accepted_is raw now named t from in
      let stored =
        named_stored s (cut (trim_space raw) (codes ".")) t (accepted_same raw now named t from) in
      (t, u, stored, revoked, until, hash, of, active, same)

  -- A capability of a principal that a token lets in is one of the user's roles, and one that the
  -- token names if it names any. The token is the one that the store holds under the prefix of the
  -- raw text (what stands before the first dot); it is not revoked, not expired, and has the hash of
  -- the text. The user is the token's, as the store has it, and is active.
  pub app_token_within :
      (raw : Text) (now : Time) (s : MemoryStore) (p : Principal) (c : Text)
      → authenticate_app_token token_hash raw now s ≡ granted p
      → contains_text c p.capabilities ≡ true
      → (t : AppToken) × (u : AuthUser) × Names s raw t
        × (t.revoked_at ≡ none)
        × (now ≤ t.expires_at)
        × (t.hash ≡ token_hash raw)
        × (user s t.user_id ≡ some u)
        × (u.active ≡ true)
        × (has (principal_for_user u) c ≡ true)
        × ((t.capabilities ≡ []) ⊎ (contains_text c t.capabilities ≡ true))
  app_token_within raw now s p c h g =
      let (t, u, stored, revoked, until, hash, of, active, same) =
        app_token_granted raw now s p h in
      let (allowed, named) = limited_within t.capabilities (principal_for_user u) p c same g in
      (t, u, stored, revoked, until, hash, of, active, allowed, named)
