-- ===== src/Rest/Routes.antt =====
-- internal/delivery/rest/routes.go: the dispatch of a request and its handlers. `authorize` is the
-- handler's `Authorizer` at this request, `none` if it is nil: it answers, for a capability, whether
-- the request is authenticated and whether it is allowed.
use app_gocms.Prelude.{
  ℕ, ◌≡◌, Bool, Option, none, some, List, [], ◌∷◌, if◌then◌else◌, Result, ok, err, Exec,
}
use app_gocms.Text.{Text, codes, ◌==◌, is_slash, slash, trim, split}
use app_gocms.Domain.{kind_post, kind_page}
use app_gocms.Rest.Reply.{
  Request, Payload, Reply, unauthorized, forbidden, validation_error, server_error, result,
}

-- A handler's answer, and the state that it leaves.
abbrev pub Handler : Type 0 → Type 0
Handler S = S → Reply × S

abbrev pub answer {ℓ} : {S : Type ℓ} → Reply → S → Reply × S
answer r s = (r, s)

abbrev pub is_get : Request → Bool
is_get r = r.method == codes "GET"

abbrev pub is_post : Request → Bool
is_post r = r.method == codes "POST"

abbrev pub is_patch : Request → Bool
is_patch r = r.method == codes "PATCH"

abbrev pub is_delete : Request → Bool
is_delete r = r.method == codes "DELETE"

unfoldable pub kind_for_collection : Text → Text
kind_for_collection collection = if collection == codes "pages" then kind_page else kind_post

abbrev first_or_empty : List Text → List Text
first_or_empty [] = [] ∷ []
first_or_empty ([] ∷ rest) = [] ∷ []
first_or_empty ((c ∷ p) ∷ rest) = (c ∷ p) ∷ rest

unfoldable pub split_path : Text → List Text
unfolding trim split
split_path path = first_or_empty (split slash (trim is_slash path))

abbrev pub Authorizer : Type 0
Authorizer = Option (Text → Bool × Bool)

abbrev answer_of : Bool × Bool → Option Reply
answer_of (authenticated, allowed) =
    if authenticated then (if allowed then none else some forbidden) else some unauthorized

-- The refusal, or `none` where the request may go on.
unfoldable pub refusal : Authorizer → Text → Option Reply
refusal none capability = some unauthorized
refusal (some f) capability = answer_of (f capability)

module _ {S : Type 0} where
  -- `if status, payload, ok := h.authorize(r, …); !ok { return status, payload }`
  unfoldable pub guarded : Option Reply → Handler S → Handler S
  guarded (some r) h s = (r, s)
  guarded none h s = h s

  -- `if err := json.NewDecoder(r.Body).Decode(&value); err != nil { return validationError(…) }`
  unfoldable pub decoded {ℓ} : {A : Type ℓ} → Result A → (A → Handler S) → Handler S
  decoded (err e) h s = (validation_error e, s)
  decoded (ok a) h s = h a s

  -- `result(status, payload, err)` of a call.
  unfoldable pub answer_with : {A : Type 0} → ℕ → (A → Payload) → Exec S A → Handler S
  answer_with status payload m s = let (r, s') = m s in (result status payload r, s')

  -- A call whose error is a server error.
  unfoldable pub reading : {A : Type 0} → Exec S A → (A → Reply) → Handler S
  reading m f s = let (r, s') = m s in (elim r [ ok a ↦ f a | err e ↦ server_error e ], s')

  pub reading_ok :
      {A : Type 0} (m : Exec S A) (f : A → Reply) (s : S) (a : A)
      → (m s).0 ≡ ok a
      → (reading m f s).0 ≡ f a
  unfolding reading
  reading_ok m f s a h = rw h
