-- ===== src/App/Handling/Dispatching.antt =====
-- What is relied on of the platform's dispatch of actions, `SecureDispatch`.
use app_gocms.Prelude.{◌≡◌, ◌⊎◌, true, Option, some, List, ◌∷◌, ◌++◌, Result, ok, err}
use app_gocms.Text.{Text}
use app_gocms.Authn.Principals.{has}
use app_gocms.App.Actions.{ActionDescriptor, ActionResult}
use app_gocms.App.Handling.{DispatchInput, Dispatched, broken, done, Executor, Dispatcher}

abbrev pub outcome_of : {P : Type 0} → Result (ActionResult P) → Dispatched P
outcome_of (ok result) = done result
outcome_of (err e) = broken e

module _ {S P : Type 0} where
  -- A dispatch that performs an action: one of the descriptors is the action's, the principal has
  -- its capability, the validator takes the token of the request for its scope if it requires one, and the executor
  -- of the action does all the rest.
  pub record Performs (dispatcher : Dispatcher S P) (descriptors : List ActionDescriptor)
      (executors : Text → Option (Executor S P)) (input : DispatchInput) (s : S)
      (dispatched : Dispatched P × S) : Type 0 where
    pub before : List ActionDescriptor
    pub descriptor : ActionDescriptor
    pub after : List ActionDescriptor
    pub listed : descriptors ≡ before ++ descriptor ∷ after
    pub named : descriptor.id ≡ input.action_id
    pub permitted : has input.principal descriptor.capability ≡ true
    pub validated :
        descriptor.requires_token ≡ true
        → input.validator (dispatcher.action_token_of input.request) descriptor.scope ≡ true
    pub run : Executor S P
    pub known : executors input.action_id ≡ some run
    pub ran : dispatched ≡ (outcome_of (run input.request s).0, (run input.request s).1)

  -- The documented behaviour of `SecureDispatch`: it performs the action, or changes nothing.
  pub record DispatchLaws (dispatcher : Dispatcher S P) : Type 0 where
    pub secure :
        (descriptors : List ActionDescriptor) (executors : Text → Option (Executor S P))
        (input : DispatchInput) (s : S)
        → ((dispatcher.secure_dispatch descriptors executors input s).1 ≡ s)
          ⊎ Performs dispatcher descriptors executors input s
              (dispatcher.secure_dispatch descriptors executors input s)
