-- ===== src/App/Boundary/ActionTokens.antt =====
-- Tokens of actions: what a token that was issued is good for, and until when.
use app_gocms.Prelude.{ℕ, ◌+◌, ◌≡◌, sym, ap, ◌∙◌, ◌&&◌, some, leb, Result, ok, err, arith}
use app_gocms.Prelude.Errors.{ok-injective}
use app_gocms.Text.{Text, codes, ◌==◌}
use app_gocms.Domain.{Time}
use app_gocms.Screens.{ScreenModel, metadata_of}
use app_gocms.App.Boundary.{
  Signer, ActionToken, is_good, action_token, valid_action_token, unix, ten_minutes, scope_of,
  with_token, at_scope, inject_screen_action_token,
}

-- What the framework promises: a text that it signed is decoded under the same secret.
pub record SignerLaws (signer : Signer) : Type 0 where
  pub decode-encode :
      (t : ActionToken) (secret raw : Text)
      → signer.signed_encode t secret ≡ ok raw
      → signer.signed_decode raw secret ≡ ok t

module _ (signer : Signer) (laws : SignerLaws signer) (secret : Text) where
  -- Where a signed text is decoded under its secret: a token that was issued for an action is valid
  -- for exactly that action, and until the second of its expiry.
  pub valid-action_token :
      (action other raw : Text) (ttl : ℕ) (now later : Time)
      → action_token signer secret action ttl now ≡ ok raw
      → valid_action_token signer secret raw other later
        ≡ (action == other && leb (unix later) (unix (now + ttl)))
  unfolding action_token valid_action_token
  valid-action_token action other raw ttl now later made =
      ap (is_good other later) (laws.decode-encode _ secret raw made)

  issued_token :
      (view_form : Text) (screen screen' : ScreenModel) (o : Result Text)
      → with_token view_form screen o ≡ ok screen'
      → o ≡ ok (metadata_of (codes "action_token") screen'.metadata)
  unfolding with_token metadata_of ◌==◌
  issued_token view_form screen screen' (ok token) h =
      ap (λ (x : ScreenModel). ok (metadata_of (codes "action_token") x.metadata))
        (ok-injective _ screen' h)
  issued_token view_form screen screen' (err e) h = absurd (ground arith)

  screen_token :
      (view_form : Text) (screen screen' : ScreenModel) (scope : Text) (now : Time)
      → scope_of view_form screen ≡ some scope
      → inject_screen_action_token view_form signer secret screen now ≡ ok screen'
      → action_token signer secret scope ten_minutes now
        ≡ ok (metadata_of (codes "action_token") screen'.metadata)
  unfolding inject_screen_action_token at_scope
  screen_token view_form screen screen' scope now scoped made =
      issued_token view_form screen screen' _
        (ap (at_scope view_form signer secret screen now) (sym scoped) ∙ made)

  -- Where a signed text is decoded under its secret: a screen that is given a token is given one for
  -- its own scope ("admin-write" for a form that names none), which is valid for that scope alone,
  -- and for ten minutes.
  pub valid-inject_screen_action_token :
      (view_form : Text) (screen screen' : ScreenModel) (scope other : Text) (now later : Time)
      → scope_of view_form screen ≡ some scope
      → inject_screen_action_token view_form signer secret screen now ≡ ok screen'
      → valid_action_token signer secret
          (metadata_of (codes "action_token") screen'.metadata)
          other
          later
        ≡ (scope == other && leb (unix later) (unix (now + ten_minutes)))
  valid-inject_screen_action_token view_form screen screen' scope other now later scoped made =
      valid-action_token scope other _ ten_minutes now later
        (screen_token view_form screen screen' scope now scoped made)
