-- ===== src/Rest/Authorization.antt =====
-- What a request may do that no capability is granted to.
use app_gocms.Prelude.{
  ℕ, ℤ, ◌≡◌, ◌≢◌, refl, Bool, true, false, Option, none, some, List, [], ◌∷◌, ◌∙◌, if◌then◌else◌,
  Result, ok, err, Exec, pure, ◌>>=◌,
}
use app_gocms.Prelude.Errors.{continue}
use app_gocms.Text.{Text}
use app_gocms.Domain.{Entry, Query}
use app_gocms.Env.{Env}
use app_gocms.Content
use app_gocms.Services.ContentTypes
use app_gocms.Services.Media
use app_gocms.Services.Menus
use app_gocms.Services.Settings
use app_gocms.Services.Taxonomy
use app_gocms.Services.Users
use app_gocms.Rest.Pagination.{ListEnvelope}
use app_gocms.Rest.Reply.{Request, Payload, Reply}
use app_gocms.Rest.Routes.{
  Handler, answer, Authorizer, refusal, guarded, answer_with, reading, split_path,
}
use app_gocms.Rest.Content.{content, search as search_content, show_page, listed}
use app_gocms.Rest.Dispatch.{
  dispatch, taxonomies, media, authors, get_menus, only_get, dispatch_parts,
}

-- The calls that read leave the state as it is.
pub record ReadOnly {S : Type 0} (env : Env S) : Type 0 where
  pub get : (id : Text) (s : S) → (env.get id s).1 ≡ s
  pub list : (q : Query) (s : S) → (env.list q s).1 ≡ s
  pub content_types : (s : S) → (env.list_content_types s).1 ≡ s
  pub settings : (s : S) → (env.list_settings s).1 ≡ s
  pub user : (id : Text) (s : S) → (env.get_user id s).1 ≡ s
  pub terms : (t : Text) (s : S) → (env.list_terms t s).1 ≡ s
  pub asset : (id : Text) (s : S) → (env.get_asset id s).1 ≡ s
  pub assets : (s : S) → (env.list_assets s).1 ≡ s
  pub content_type : (id : Text) (s : S) → (env.get_content_type id s).1 ≡ s
  pub menus : (s : S) → (env.list_menus s).1 ≡ s
  pub menu : (l : Text) (s : S) → (env.get_menu_by_location l s).1 ≡ s

-- The authorizer refuses the request at every capability.
abbrev pub IsRefused : Authorizer → Type 0
IsRefused authorize = (capability : Text) → refusal authorize capability ≢ none

-- An operation, and a handler, that leaves the state as it is.
pub record Reads {S A : Type 0} (m : Exec S A) : Type 0 where
  pub at : (s : S) → (m s).1 ≡ s

record Still {S : Type 0} (h : Handler S) : Type 0 where
  at : (s : S) → (h s).1 ≡ s

module _ {S : Type 0} where
  Still-answer : (r : Reply) → Still {S = S} (answer r)
  Still-answer r = record { at = λ s. refl }

  Still-if : (b : Bool) (h k : Handler S) → Still h → Still k → Still (if b then h else k)
  Still-if true h k sh sk = sh
  Still-if false h k sh sk = sk

  Still-guarded : (o : Option Reply) (h : Handler S) → o ≢ none → Still (guarded o h)
  unfolding guarded
  Still-guarded none h refused = absurd (refused refl)
  Still-guarded (some r) h refused = record { at = λ s. refl }

  state-continue :
      {A B : Type 0} (f : A → B) (o : Result A) (s : S) → (continue o (λ a. pure (f a)) s).1 ≡ s
  state-continue f (ok a) s = refl
  state-continue f (err e) s = refl

  pub Reads-pure-bind :
      {A B : Type 0} (m : Exec S A) (f : A → B) → Reads m → Reads (m >>= λ a. pure (f a))
  Reads-pure-bind m f h = record { at = λ s. state-continue f (m s).0 (m s).1 ∙ h.at s }

  pub Reads-bind :
      {A B : Type 0} (m : Exec S A) (f : A → Exec S B)
      → Reads m
      → ((a : A) → Reads (f a))
      → Reads (m >>= f)
  Reads-bind {A = A} m f hm hf = record { at = λ s. then_reads (m s).0 (m s).1 ∙ hm.at s }
    where
      then_reads : (o : Result A) (s : S) → (continue o f s).1 ≡ s
      then_reads (ok a) s = (hf a).at s
      then_reads (err e) s = refl

  Still-answer_with :
      {A : Type 0} (status : ℕ) (payload : A → Payload) (m : Exec S A)
      → Reads m
      → Still (answer_with status payload m)
  unfolding answer_with
  Still-answer_with status payload m h = record { at = λ s. h.at s }

  Still-reading : {A : Type 0} (m : Exec S A) (f : A → Reply) → Reads m → Still (reading m f)
  unfolding reading
  Still-reading m f h = record { at = λ s. h.at s }

module _ {S : Type 0} (env : Env S) (reads : ReadOnly env) where
  Reads-get : (id : Text) → Reads (env.get id)
  Reads-get id = record { at = reads.get id }

  Reads-list : (q : Query) → Reads (env.list q)
  Reads-list q = record { at = reads.list q }

  Reads-content_types : Reads env.list_content_types
  Reads-content_types = record { at = reads.content_types }

  Reads-settings : Reads env.list_settings
  Reads-settings = record { at = reads.settings }

  Reads-user : (id : Text) → Reads (env.get_user id)
  Reads-user id = record { at = reads.user id }

  Reads-terms : (t : Text) → Reads (env.list_terms t)
  Reads-terms t = record { at = reads.terms t }

  Reads-asset : (id : Text) → Reads (env.get_asset id)
  Reads-asset id = record { at = reads.asset id }

  Reads-assets : Reads env.list_assets
  Reads-assets = record { at = reads.assets }

  Reads-menus : Reads env.list_menus
  Reads-menus = record { at = reads.menus }

  Reads-menu : (l : Text) → Reads (env.get_menu_by_location l)
  Reads-menu l = record { at = reads.menu l }

  ruleset still_rules = (
    Still-answer, Still-if, Still-guarded, Still-answer_with, Still-reading, Reads-pure-bind,
    Reads-get, Reads-list, Reads-content_types, Reads-settings, Reads-user, Reads-terms,
    Reads-asset, Reads-assets, Reads-menus, Reads-menu,
  )

  module _ (authorize : Authorizer) (refused : IsRefused authorize) (r : Request) where
    Still-show_page :
        (kind : Text) (show : Option (ListEnvelope Entry) → Reply) (p : Result (ℤ × ℤ))
        → Still (show_page env authorize r kind show p)
    unfolding show_page Content.list
    Still-show_page kind show (err e) = search still_rules
    Still-show_page kind show (ok (page, per_page)) = search still_rules

    Still-content : (rest : List Text) (kind : Text) → Still (content env authorize r rest kind)
    unfolding content Content.get Content.list listed
    Still-content [] kind = search (still_rules, Still-show_page)
    Still-content (a ∷ []) kind = search still_rules
    Still-content (a ∷ b ∷ []) kind = search still_rules
    Still-content (a ∷ b ∷ c ∷ rest) kind = search still_rules

    Still-taxonomies : (rest : List Text) → Still (taxonomies env authorize r rest)
    unfolding taxonomies Taxonomy.list_terms
    Still-taxonomies [] = search still_rules
    Still-taxonomies (a ∷ []) = search still_rules
    Still-taxonomies (a ∷ b ∷ []) = search still_rules
    Still-taxonomies (a ∷ b ∷ c ∷ rest) = search still_rules

    Still-media : (rest : List Text) → Still (media env authorize r rest)
    unfolding media Media.list Media.get
    Still-media [] = search still_rules
    Still-media (a ∷ []) = search still_rules
    Still-media (a ∷ b ∷ rest) = search still_rules

    Still-authors : (rest : List Text) → Still (authors env authorize r rest)
    unfolding authors Users.public_author
    Still-authors [] = search still_rules
    Still-authors (a ∷ []) = search still_rules
    Still-authors (a ∷ b ∷ rest) = search still_rules

    Still-get_menus : (rest : List Text) → Still (get_menus env authorize r rest)
    unfolding get_menus Menus.list Menus.by_location
    Still-get_menus [] = search still_rules
    Still-get_menus (a ∷ []) = search still_rules
    Still-get_menus (a ∷ b ∷ rest) = search still_rules

    Still-only_get :
        (rest : List Text) (h : Handler S) → Still h → Still (only_get env authorize r rest h)
    unfolding only_get
    Still-only_get [] h sh = search still_rules
    Still-only_get (a ∷ rest) h sh = search still_rules

    Still-search : Still (search_content env authorize r)
    unfolding search_content listed
    Still-search = search (Still-show_page)

    Still-dispatch_parts : (parts : List Text) → Still (dispatch_parts env authorize r parts)
    unfolding dispatch_parts ContentTypes.list Settings.public_settings
    Still-dispatch_parts [] = search still_rules
    Still-dispatch_parts (head ∷ rest) =
        search
          (
            still_rules, Still-content, Still-taxonomies, Still-media, Still-authors,
            Still-get_menus, Still-only_get, Still-search,
          )
          depth 14

    -- Past the registration of the built-in content types, nothing is changed.
    pub dispatch_refused : (path : Text) (s : S) → (dispatch env authorize r path s).1 ≡ s
    unfolding dispatch
    dispatch_refused path s = (Still-dispatch_parts (split_path path)).at s
