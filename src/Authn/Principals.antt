-- ===== src/Authn/Principals.antt =====
-- internal/application/authn/service.go: principals, roles and capabilities, with the names of
-- pkg/module/capabilities/capabilities.go. The map of a principal's capabilities is a list.
use app_gocms.Prelude.{Bool, true, false, ◌||◌, List, [], ◌∷◌, ◌++◌, filter, if◌then◌else◌}
use app_gocms.Text.{Text, codes, ◌==◌, is_empty}

abbrev pub admin_access : Text
admin_access = codes "admin.access"

abbrev pub content_read : Text
content_read = codes "content.read"

abbrev pub content_write : Text
content_write = codes "content.write"

abbrev pub content_private : Text
content_private = codes "content.read_private"

abbrev pub media_upload : Text
media_upload = codes "media.upload"

abbrev pub media_edit : Text
media_edit = codes "media.edit"

abbrev pub taxonomy_manage : Text
taxonomy_manage = codes "taxonomies.manage"

abbrev pub taxonomy_assign : Text
taxonomy_assign = codes "taxonomies.assign"

abbrev pub users_manage : Text
users_manage = codes "users.manage"

abbrev pub settings_manage : Text
settings_manage = codes "settings.manage"

pub record Principal : Type 0 where
  pub id : Text
  pub roles : List Text
  pub capabilities : List Text

pub record AuthUser : Type 0 where
  pub id : Text
  pub email : Text
  pub password_hash : Text
  pub roles : List Text
  pub active : Bool

unfoldable pub contains_text : Text → List Text → Bool
contains_text x [] = false
contains_text x (y ∷ ys) = y == x || contains_text x ys

unfoldable pub has : Principal → Text → Bool
unfolding contains_text
has p capability = if is_empty capability then true else contains_text capability p.capabilities

-- `BuiltInRoles()[role]`
unfoldable pub role_capabilities : Text → List Text
role_capabilities role =
    if role == codes "admin"
    then admin_access ∷ content_read ∷ content_write ∷ content_private ∷ media_upload ∷ media_edit
      ∷ taxonomy_manage ∷ taxonomy_assign ∷ users_manage ∷ settings_manage ∷ []
    else if role == codes "editor"
    then admin_access ∷ content_read ∷ content_write ∷ content_private ∷ media_upload ∷ media_edit
      ∷ taxonomy_assign ∷ []
    else if role == codes "viewer"
    then admin_access ∷ content_read ∷ content_private ∷ []
    else []

granted_by : List Text → List Text
granted_by [] = []
granted_by (role ∷ roles) = role_capabilities role ++ granted_by roles

unfoldable pub principal_for_user : AuthUser → Principal
unfolding granted_by role_capabilities
principal_for_user u = record { id = u.id; roles = u.roles; capabilities = granted_by u.roles }

-- The capabilities among those given that the principal has.
unfoldable pub with_capabilities : Principal → List Text → Principal
unfolding has
with_capabilities p capabilities = record p { capabilities = filter (has p) capabilities }
