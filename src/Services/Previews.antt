-- ===== src/Services/Previews.antt =====
-- internal/application/preview/service.go and internal/domain/preview/preview.go. An instant is a
-- number, so the sum of an instant and a time to live does not overflow.
use app_gocms.Prelude.{
  ◌+◌, ◌<◌, ℤ, pos, pos_part, leb_ℤ, ◌≡◌, ◌≢◌, Bool, not, ◌&&◌, [], Option, none, some, arith, ltb,
  if◌then◌else◌, ok, Exec, pure, require, call, fail_if, ◌>>=◌, ◌>>◌,
}
use app_gocms.Text.{Text, codes, is_empty}
use app_gocms.Text.Laws.{is_empty_of_ne}
use app_gocms.Domain.{Access, Time}
use app_gocms.Env.{Env}
use app_gocms.Content.{content_not_found}

unfoldable pub valid_at : Access → Time → Bool
valid_at access now = not (is_empty access.token) && ltb now access.expires_at

-- `NewAccess`, with the token that `randomToken` draws; `ttl` is positive where it is called.
unfoldable pub new_access : Text → Text → ℤ → Time → Access
new_access token entry_id ttl now = record {
  token = token;
  entry_id = entry_id;
  expires_at = now + pos_part ttl;
}

module _ {S : Type 0} (env : Env S) where
  unfoldable pub create : Text → ℤ → Exec S Access
  unfolding new_access
  create entry_id ttl = do
    fail_if (leb_ℤ ttl (pos 0)) (codes "preview ttl must be positive")
    found ← env.get entry_id
    require (content_not_found entry_id) found
    now ← call env.now
    token ← call env.random_token
    let access = new_access token entry_id ttl now
    env.save_preview access
    pure access

  -- The checks of an access that was found.
  check : Option Access → Exec S (Option Access)
  unfolding valid_at
  check none s = (ok none, s)
  check (some access) s =
      let (now, s') = env.now s in (ok (if valid_at access now then some access else none), s')

  unfoldable pub validate : Text → Exec S (Option Access)
  unfolding check
  validate token = do found ← env.get_preview token; check found

  -- What the service relies on: an access that was saved is found under its token, until another
  -- is saved under the same token.
  pub record PreviewLaws (view : S → Text → Option Access) : Type 0 where
    pub get_reads :
        (token : Text) (s : S) (a : Access)
        → view s token ≡ some a
        → env.get_preview token s ≡ (ok (some a), s)
    pub save_ok :
        (a : Access) (s : S)
        → (env.save_preview a s).0 ≡ ok tt
        → view (env.save_preview a s).1 a.token ≡ some a

  module _ (view : S → Text → Option Access) (laws : PreviewLaws view) where
    -- Where the view is what is read: a stored access with a token is accepted exactly at the
    -- instants before its expiry; else the answer is that there is none, and no error.
    validate_exact :
        (a : Access) (s : S)
        → view s a.token ≡ some a
        → a.token ≢ []
        → (validate a.token s).0 ≡ ok (if ltb (env.now s).0 a.expires_at then some a else none)
    unfolding validate
    validate_exact a s found has_token =
        rw (laws.get_reads a.token s a found, is_empty_of_ne a.token has_token)

    -- What `create` returns is saved, with the expiry that the time to live gives.
    create_saves :
        (entry_id : Text) (ttl : ℤ) (s : S) (a : Access)
        → (create entry_id ttl s).0 ≡ ok a
        → (t : S) × ((env.save_preview a t).0 ≡ ok tt)
          × ((create entry_id ttl s).1 ≡ (env.save_preview a t).1)
    unfolding create
    create_saves entry_id ttl s a h =
        ((env.random_token (env.now (env.get entry_id s).1).1).1, ground arith, ground arith)

    create_expiry :
        (entry_id : Text) (ttl : ℤ) (s : S) (a : Access)
        → (create entry_id ttl s).0 ≡ ok a
        → (0 < pos_part ttl) × (a.expires_at ≡ (env.now (env.get entry_id s).1).0 + pos_part ttl)
    unfolding create
    create_expiry entry_id ttl s a h = ground arith

    -- Where an access that was saved is found under its token: the access that `create` returns
    -- expires `ttl` after the time of its creation, and is accepted exactly as long as the clock is
    -- before that, if its token is not empty.
    pub validate-create :
        (entry_id : Text) (ttl : ℤ) (s : S) (a : Access)
        → (create entry_id ttl s).0 ≡ ok a
        → a.token ≢ []
        → (0 < pos_part ttl)
          × (a.expires_at ≡ (env.now (env.get entry_id s).1).0 + pos_part ttl)
          × ((validate a.token (create entry_id ttl s).1).0
              ≡ ok
                  (if ltb (env.now (create entry_id ttl s).1).0 a.expires_at then some a else none))
    validate-create entry_id ttl s a h has_token =
        let (t, saved, after) = create_saves entry_id ttl s a h in
        let (positive, expiry) = create_expiry entry_id ttl s a h in
        (
          positive,
          expiry,
          validate_exact a (create entry_id ttl s).1 (rw after (laws.save_ok a t saved)) has_token,
        )
