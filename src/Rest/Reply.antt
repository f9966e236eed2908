-- ===== src/Rest/Reply.antt =====
-- What the REST handlers are given and what they answer: internal/delivery/rest/errors.go and the
-- envelopes of pkg/module/codex/routes.go. A body is what `encoding/json` makes of it at the type
-- that the handler decodes it at, or the error of the decoder.
use app_gocms.Prelude.{ℕ, ◌||◌, List, if◌then◌else◌, Result, ok, err, Error}
use app_gocms.Text.{Text, codes, contains}
use app_gocms.Domain.{
  Entry, ContentType, TaxonomyDefinition, Term, Asset, Setting, Menu, AuthorProfile,
}
use app_gocms.Rest.Pagination.{ListEnvelope}

pub record Request : Type 0 where
  pub method : Text
  -- the values in the URL's query, empty if absent
  pub page : Text
  pub per_page : Text
  pub status : Text
  pub q : Text
  pub search : Text
  pub entry_body : Result Entry
  pub definition_body : Result TaxonomyDefinition
  pub term_body : Result Term
  pub asset_body : Result Asset

pub record ErrorBody : Type 0 where
  pub code : Text
  pub message : Text
  pub status : ℕ

pub data Payload : Type 0 where
  entry : Entry → Payload
  entries : ListEnvelope Entry → Payload
  content_types : List ContentType → Payload
  definitions : List TaxonomyDefinition → Payload
  definition : TaxonomyDefinition → Payload
  terms : List Term → Payload
  term : Term → Payload
  assets : List Asset → Payload
  asset : Asset → Payload
  author : AuthorProfile → Payload
  settings : List Setting → Payload
  menus : List Menu → Payload
  menu : Menu → Payload
  failure : ErrorBody → Payload

-- A status and a payload, or a panic of the handler.
pub data Reply : Type 0 where
  respond : ℕ → Payload → Reply
  panic : Reply

abbrev pub api_error : ℕ → Text → Text → Payload
api_error status code message = failure (record { code = code; message = message; status = status })

unfoldable pub not_found : Text → Reply
not_found message = respond 404 (api_error 404 (codes "not_found") message)

unfoldable pub unauthorized : Reply
unauthorized = respond 401 (api_error 401 (codes "unauthorized") (codes "authorization required"))

unfoldable pub forbidden : Reply
forbidden = respond 403 (api_error 403 (codes "forbidden") (codes "missing capability"))

unfoldable pub validation_error : Text → Reply
validation_error message = respond 400 (api_error 400 (codes "validation_error") message)

unfoldable pub server_error : Error → Reply
server_error e = respond 500 (api_error 500 (codes "internal_error") e)

-- An error is classified by the words of its message.
unfoldable pub error_response : Error → Reply
unfolding not_found validation_error server_error
error_response e =
    if contains e (codes "not found")
    then not_found e
    else if contains e (codes "required")
        || contains e (codes "invalid")
        || contains e (codes "unsupported")
    then validation_error e
    else server_error e

-- `result(status, payload, err)`, where the payload is that of the value that was returned.
abbrev pub result {ℓ} : {A : Type ℓ} → ℕ → (A → Payload) → Result A → Reply
result status payload (ok a) = respond status (payload a)
result status payload (err e) = error_response e
