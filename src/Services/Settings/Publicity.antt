-- ===== src/Services/Settings/Publicity.antt =====
-- The settings that are answered to everyone.
use app_gocms.Prelude.{◌≡◌, refl, true, false, List, [], ◌∷◌, All, ok, Bool-cases, inl, inr}
use app_gocms.Prelude.Errors.{bind_ok, ok-injective}
use app_gocms.Domain.{Setting}
use app_gocms.Env.{Env}
use app_gocms.Services.Settings.{Registry, public_values, public_settings}
use mathlib.Core.Path.{subst}

pub record IsPublic (v : Setting) : Type 0 where
  pub public : v.is_public ≡ true
  pub not_private : v.is_private ≡ false

public_values-IsPublic : (values : List Setting) → All IsPublic (public_values values)
unfolding public_values
public_values-IsPublic [] = tt
public_values-IsPublic (v ∷ vs) = elim (Bool-cases v.is_public) [
  | inl e ↦ rw e (record { public = refl; not_private = refl }, public_values-IsPublic vs)
  | inr e ↦ rw e (public_values-IsPublic vs)
]

module _ {S : Type 0} (env : Env S) (registry : Registry) where
  -- Every setting that is answered is public, and is not said to be private.
  public_settings-IsPublic :
      (s : S) (values : List Setting)
      → (public_settings env registry s).0 ≡ ok values
      → All IsPublic values
  unfolding public_settings
  public_settings-IsPublic s values h =
      let (all, listed, made) = bind_ok env.list_settings _ s values h in
      subst (All IsPublic) (ok-injective _ values made) (public_values-IsPublic all)
