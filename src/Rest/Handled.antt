-- ===== src/Rest/Handled.antt =====
-- What the handler of the REST API leaves of a request to which no capability is granted.
use app_gocms.Prelude.{◌≡◌, ◌⊎◌, inl, inr, refl, ◌∙◌, Result, ok, err}
use app_gocms.Text.{Text}
use app_gocms.Env.{Env}
use app_gocms.Services.ContentTypes
use app_gocms.Rest.Reply.{Request, Reply, respond, panic, server_error}
use app_gocms.Storage.Transactions.{Transactions}
use app_gocms.Rest.Routes.{Authorizer}
use app_gocms.Rest.Dispatch.{dispatch, handle, finish, within}
use app_gocms.Rest.Authorization.{ReadOnly, IsRefused, dispatch_refused}

module _ {S : Type 0} (env : Env S) (reads : ReadOnly env) (authorize : Authorizer)
    (refused : IsRefused authorize) (r : Request) (tx : Transactions S) where
  finish_state :
      (before : S) (answer : Reply × S)
      → ((finish tx env authorize r before answer).1 ≡ before)
        ⊎ ((finish tx env authorize r before answer).1 ≡ answer.1)
  unfolding finish
  finish_state before (panic, s) = inl refl
  finish_state before (respond status payload, s) = from (tx.commit s)
    where
      from :
          (o : Result (Unit {0}))
          → ((elim o as (λ _. Reply × S) [
            | err e ↦ (server_error e, before)
            | ok _ ↦ (respond status payload, s)
          ]).1
              ≡ before)
            ⊎ ((elim o as (λ _. Reply × S) [
              | err e ↦ (server_error e, before)
              | ok _ ↦ (respond status payload, s)
            ]).1
                ≡ s)
      from (err e) = inl refl
      from (ok u) = inr refl

  -- The handler answers 500 before or after its function, or ends it.
  handle_state :
      (path : Text) (s : S)
      → ((handle tx env authorize r path s).1 ≡ s)
        ⊎ ((handle tx env authorize r path s).1
            ≡ (dispatch env authorize r path (ContentTypes.install_built_ins env s).1).1)
  unfolding handle within
  handle_state path s = from (tx.begin s) (ContentTypes.install_built_ins env s).0
    where
      answer_of : Reply × S
      answer_of = dispatch env authorize r path (ContentTypes.install_built_ins env s).1

      from :
          (begun installed : Result (Unit {0}))
          → ((elim begun as (λ _. Reply × S) [
            | err e ↦ (server_error e, s)
            | ok _ ↦ elim installed as (λ _. Reply × S) [
              | err e ↦ (server_error e, s)
              | ok _ ↦ finish tx env authorize r s answer_of
            ]
          ]).1
              ≡ s)
            ⊎ ((elim begun as (λ _. Reply × S) [
              | err e ↦ (server_error e, s)
              | ok _ ↦ elim installed as (λ _. Reply × S) [
                | err e ↦ (server_error e, s)
                | ok _ ↦ finish tx env authorize r s answer_of
              ]
            ]).1
                ≡ answer_of.1)
      from (err e) installed = inl refl
      from (ok u) (err e) = inl refl
      from (ok u) (ok v) = finish_state s answer_of

  -- Where the calls that read leave the state as it is: a request to which the authorizer grants
  -- no capability, whatever its path, its method and its body, leaves behind either the state
  -- that it found, or that state with the two built-in content types registered, as every
  -- request that is committed does; it changes nothing else.
  pub handle_refused :
      (path : Text) (s : S)
      → ((handle tx env authorize r path s).1 ≡ s)
        ⊎ ((handle tx env authorize r path s).1 ≡ (ContentTypes.install_built_ins env s).1)
  handle_refused path s = elim (handle_state path s) [
    | inl same ↦ inl same
    | inr end ↦ inr (
        end
        ∙ dispatch_refused env reads authorize refused r path
            (ContentTypes.install_built_ins env s).1)
  ]
