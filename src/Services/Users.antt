-- ===== src/Services/Users.antt =====
-- internal/application/users/service.go
use app_gocms.Prelude.{
  Option, none, some, List, [], ◌∷◌, if◌then◌else◌, Exec, pure, fail_if, ◌>>=◌, ◌>>◌,
}
use app_gocms.Text.{Text, codes, is_empty}
use app_gocms.Domain.{User, AuthorProfile, public_author as profile_of}
use app_gocms.Env.{Env}

abbrev profile : Option User → Option AuthorProfile
profile none = none
profile (some u) = some (profile_of u)

-- The loop of `List`.
pub active_authors : List User → List AuthorProfile
active_authors [] = []
active_authors (u ∷ us) = if u.active then profile_of u ∷ active_authors us else active_authors us

module _ {S : Type 0} (env : Env S) where
  unfoldable pub save : User → Exec S Unit
  save user = do fail_if (is_empty user.id) (codes "user id is required"); env.save_user user

  unfoldable pub public_author : Text → Exec S (Option AuthorProfile)
  public_author id = do found ← env.get_user id; pure (profile found)

  unfoldable pub list : Exec S (List AuthorProfile)
  list = do users ← env.list_users; pure (active_authors users)
