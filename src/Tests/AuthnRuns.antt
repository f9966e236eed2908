-- ===== src/Tests/AuthnRuns.antt =====
-- Runs of the logins and of the app tokens. The hasher leaves the password as it is.
use app_gocms.Prelude.{
  ◌-◌, ◌≤◌, ◌<◌, ◌≡◌, refl, ◌⊎◌, Bool, true, false, none, some, [], ◌∷◌, arith, pos,
}
use app_gocms.Text.{Text, codes, ◌==◌, is_empty, trim_space, to_lower, cut, strip_prefix}
use app_gocms.Domain.{Time}
use app_gocms.Authn.Principals.{
  Principal, AuthUser, principal_for_user, has, contains_text, role_capabilities, with_capabilities,
  content_read, content_write,
}
use app_gocms.Authn.{
  MemoryStore, AppToken, denied, login_locked, invalid_credentials, normalized, user_by_identifier,
  recent_failures, day, user, principal, create_app_token, authenticate_app_token, limited,
  authenticate_password, conclude, save_attempt, attempt_of, count_failures, issue, ended,
  save_token,
}
use app_gocms.Authn.Lockout.{IsFilled, Login, login, IsRefused, three_strikes, login_granted}
use app_gocms.Authn.Tokens.{IsRandom, authenticate-create, app_token_within, Names}

abbrev same_text : Text → Text → Bool
same_text password hash = password == hash

abbrev plain : Text → Text
plain raw = raw

abbrev ann : AuthUser
ann = record {
  id = codes "u1";
  email = codes "ann@x.io";
  password_hash = codes "pw";
  roles = codes "viewer" ∷ [];
  active = true;
}

abbrev store : MemoryStore
store = record { users = (ann.id, ann) ∷ []; tokens = []; attempts = [] }

abbrev attempt : Text → Time → Login
attempt password at = record {
  identifier = codes "U1";
  password = password;
  remote_addr = codes "::1";
  checked_at = at;
  saved_at = at;
}

abbrev wrong : Time → Login
wrong at = attempt (codes "no") at

ann-IsFilled :
    (password : Text) → is_empty (trim_space password) ≡ false → IsFilled (codes "U1") password
unfolding is_empty trim_space to_lower
ann-IsFilled password h = record { named = refl; secret = h }

wrong-IsRefused :
    (s : MemoryStore) (at now : Time)
    → now - day ≤ at
    → (login same_text (wrong at) s).0 ≡ denied invalid_credentials
    → IsRefused same_text (normalized (codes "U1")) now (wrong at) s
wrong-IsRefused s at now h refused = record {
  name_of = refl;
  filled = ann-IsFilled (codes "no") (unfold is_empty trim_space in refl);
  recent = h;
  refused = refused;
}

abbrev after : Time → MemoryStore → MemoryStore
after at s = (login same_text (wrong at) s).1

three_strikes_example :
    login same_text (attempt (codes "pw") 40) (after 30 (after 20 (after 10 store)))
    ≡ (denied login_locked, after 30 (after 20 (after 10 store)))
unfolding authenticate_password conclude recent_failures count_failures save_attempt attempt_of
    user_by_identifier is_empty trim_space to_lower ◌==◌
three_strikes_example =
    three_strikes same_text (wrong 10) (wrong 20) (wrong 30) (attempt (codes "pw") 40) store
      (ann-IsFilled (codes "pw") refl) (wrong-IsRefused store 10 40 (omega arith) refl)
      (wrong-IsRefused (after 10 store) 20 40 (omega arith) refl)
      (wrong-IsRefused (after 20 (after 10 store)) 30 40 (omega arith) refl)

login_granted_example :
    (u : AuthUser) × (user_by_identifier store (normalized (codes "U1")) ≡ some u)
    × (u.active ≡ true)
    × (same_text (codes "pw") u.password_hash ≡ true)
    × (principal_for_user ann ≡ principal_for_user u)
    × (recent_failures store (normalized (codes "U1")) (40 - day) < 3)
unfolding authenticate_password conclude recent_failures count_failures save_attempt attempt_of
    user_by_identifier is_empty trim_space to_lower ◌==◌
login_granted_example =
    login_granted same_text (attempt (codes "pw") 40) store (principal_for_user ann) refl

abbrev token_id : Text
token_id = codes "abc"

abbrev token_secret : Text
token_secret = codes "xyz"

token_id-IsRandom : IsRandom token_id
token_id-IsRandom = record {
  filled = λ h. ground (arith, h);
  no_dot = (refl, (refl, (refl, tt)));
  no_space = (refl, (refl, (refl, tt)));
}

token_secret-IsRandom : IsRandom token_secret
token_secret-IsRandom = record {
  filled = λ h. ground (arith, h);
  no_dot = (refl, (refl, (refl, tt)));
  no_space = (refl, (refl, (refl, tt)));
}

abbrev raw_token : Text
raw_token = codes "abc.xyz"

abbrev read_token : AppToken
read_token = record {
  id = token_id;
  user_id = codes "u1";
  prefix = token_id;
  hash = raw_token;
  capabilities = content_read ∷ content_write ∷ [];
  expires_at = 110;
  revoked_at = none;
}

authenticate-create_example :
    authenticate_app_token plain raw_token 105 (record store { tokens = read_token ∷ [] })
    ≡ limited (content_read ∷ content_write ∷ []) (some (principal_for_user ann))
unfolding principal user create_app_token ◌==◌ issue ended save_token
authenticate-create_example =
    authenticate-create plain (codes "u1") (content_read ∷ content_write ∷ []) (pos 10) token_id
      token_secret 100 105 store (principal_for_user ann) raw_token read_token
      (record store { tokens = read_token ∷ [] }) token_id-IsRandom token_secret-IsRandom refl refl
      (omega arith)

abbrev reader : Principal
reader = record { id = codes "u1"; roles = codes "viewer" ∷ []; capabilities = content_read ∷ [] }

app_token_within_example :
    (t : AppToken) × (u : AuthUser) × Names plain
      (record store { tokens = read_token ∷ [] })
      raw_token
      t
    × (t.revoked_at ≡ none)
    × (105 ≤ t.expires_at)
    × (t.hash ≡ raw_token)
    × (user (record store { tokens = read_token ∷ [] }) t.user_id ≡ some u)
    × (u.active ≡ true)
    × (has (principal_for_user u) content_read ≡ true)
    × ((t.capabilities ≡ []) ⊎ (contains_text content_read t.capabilities ≡ true))
unfolding authenticate_app_token principal_for_user contains_text has role_capabilities is_empty
    ◌==◌ principal user with_capabilities cut strip_prefix trim_space
app_token_within_example =
    app_token_within plain raw_token 105 (record store { tokens = read_token ∷ [] }) reader
      content_read refl refl
