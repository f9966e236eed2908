-- ===== src/Rest/Errors.antt =====
-- How errors of the services become answers, and how patches compose.
use app_gocms.Prelude.{
  ◌≡◌, ◌⊎◌, refl, true, false, not, ◌&&◌, [], ◌++◌, arith, append_assoc, err, Error,
}
use app_gocms.Text.{Text, codes, ◌==◌, contains}
use app_gocms.Text.Laws.{contains-append, ==_iff}
use app_gocms.Text.Quote.{quote}
use app_gocms.Domain.{Entry, validate, kind_post, kind_page}
use app_gocms.Content.{content_not_found}
use app_gocms.Rest.Reply.{error_response, not_found, validation_error}

content_not_found-contains :
    (id : Text) → contains (content_not_found id) (codes "not found") ≡ true
unfolding content_not_found
content_not_found-contains id =
    rw (append_assoc (quote id) (codes " ") (codes "not found")) at
      (contains-append (codes "content " ++ (quote id ++ codes " ")) (codes "not found") [])

required_message :
    (message : Text)
    → contains message (codes "not found") ≡ false
    → contains message (codes "required") ≡ true
    → error_response message ≡ validation_error message
unfolding error_response
required_message message h k = rw (h, k)

id_required :
    error_response (codes "content id is required")
    ≡ validation_error (codes "content id is required")
unfolding contains
id_required = required_message (codes "content id is required") refl refl

status_required :
    error_response (codes "content status is required")
    ≡ validation_error (codes "content status is required")
unfolding contains
status_required = required_message (codes "content status is required") refl refl

visibility_required :
    error_response (codes "content visibility is required")
    ≡ validation_error (codes "content visibility is required")
unfolding contains
visibility_required = required_message (codes "content visibility is required") refl refl

validate_error :
    (e : Entry) (x : Error)
    → (not (e.kind == kind_post) && not (e.kind == kind_page)) ≡ false
    → validate e ≡ err x
    → error_response x ≡ validation_error x
unfolding validate
validate_error e x kinds h = ground (arith, id_required, status_required, visibility_required)

known_kind :
    (kind : Text)
    → (kind ≡ kind_post) ⊎ (kind ≡ kind_page)
    → (not (kind == kind_post) && not (kind == kind_page)) ≡ false
known_kind kind k = ground (arith, ==_iff kind kind_post, ==_iff kind kind_page)

not_found_error :
    (message : Text)
    → contains message (codes "not found") ≡ true
    → error_response message ≡ not_found message
unfolding error_response
not_found_error message h = rw h

-- The error of the validation of an entry of one of the two kinds is answered by 400 and its
-- message, and that of a missing entry by 404, whatever its id.
service_errors :
    (e : Entry) (x : Error) (id : Text)
    → (e.kind ≡ kind_post) ⊎ (e.kind ≡ kind_page)
    → validate e ≡ err x
    → (error_response x ≡ validation_error x)
      × (error_response (content_not_found id) ≡ not_found (content_not_found id))
service_errors e x id kinds h = (
  validate_error e x (known_kind e.kind kinds) h,
  not_found_error (content_not_found id) (content_not_found-contains id),
)
