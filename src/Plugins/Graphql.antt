-- ===== src/Plugins/Graphql.antt =====
-- internal/plugins/graphql/plugin.go: the queries that the GraphQL plugin answers. `field r name` is
-- `r[name].(string)`, which is empty for a missing field or another type. A value that is no text is
-- neither of the texts that a record is hidden for.
pub mod Shown
use app_gocms.Prelude.{
  ℕ, Bool, true, false, not, ◌||◌, Option, none, some, List, [], ◌∷◌, filter, if◌then◌else◌, Result,
  ok, err, Error, Exec, pure, ◌>>=◌, ◌>>◌,
}
use app_gocms.Text.{Text, codes, ◌==◌, contains, to_lower}
use app_gocms.Env.{Env}
use app_gocms.Services.ContentTypes
use app_gocms.Storage.Repositories.{Repositories}
use app_gocms.Storage.Transactions.{Transactions, within_tx}
use app_gocms.Extensions.{Route, Context, add_route}

-- `decode` is what decoding the body, where there is one, makes of the query of the URL.
pub record GraphRequest : Type 0 where
  pub method : Text
  pub query : Text
  pub decode : Option (Text → Text)

pub data Payload (R : Type 0) : Type 0 where
  errors : Text → Payload R
  data_of : Text → List R → Payload R

pub record GraphReply (R : Type 0) : Type 0 where
  pub status : ℕ
  pub payload : Payload R

unfoldable pub query_of : GraphRequest → Text
query_of r = if r.method == codes "POST" then sent r.decode else r.query
  where
    sent : Option (Text → Text) → Text
    sent none = r.query
    sent (some decode) = decode r.query

abbrev pub mutation_refused : {R : Type 0} → GraphReply R
mutation_refused = record {
  status = 403;
  payload = errors (codes "GraphQL mutations are not enabled in this profile");
}

unfoldable pub replied : {R X : Type 0} → Result (Payload R) × X → GraphReply R × X
replied (ok payload, s) = (record { status = 200; payload = payload }, s)
replied (err e, s) = (record { status = 500; payload = errors e }, s)

module _ {R : Type 0} (field : R → Text → Text) where
  unfoldable pub is_shown : R → Bool
  is_shown r =
      not (
        field r (codes "status") == codes "draft"
        || field r (codes "visibility") == codes "private")

  unfoldable pub public_records : List R → List R
  public_records items = filter is_shown items

  module _ {S : Type 0} (repos : Repositories S R) where
    unfoldable records_of : Text → Exec S (List R) → Exec S (Payload R)
    records_of name list = do records ← list; pure (data_of name records)

    unfoldable public_of : Text → Exec S (List R) → Exec S (Payload R)
    unfolding public_records
    public_of name list = do records ← list; pure (data_of name (public_records records))

    -- The first of the collections that the query has the name of; the posts, if it has none.
    unfoldable pub queried : Text → Exec S (Payload R)
    unfolding records_of public_of
    queried query =
        if contains query (codes "settings")
        then records_of (codes "settings") repos.settings.list
        else if contains query (codes "menus")
        then records_of (codes "menus") repos.menus.list
        else if contains query (codes "pages")
        then public_of (codes "pages") repos.pages.list
        else public_of (codes "posts") repos.posts.list

  module _ {S : Type 0} (repos : Repositories S R) (tx : Transactions S) (env : Env S) where
    -- `env` is the application's view of the records of the transaction.
    unfoldable pub handle : GraphRequest → S → GraphReply R × S
    unfolding query_of queried replied
    handle r s =
        let query = to_lower (query_of r) in
        if contains query (codes "mutation")
        then (mutation_refused, s)
        else replied (within_tx tx (ContentTypes.install_built_ins env >> queried repos query) s)

abbrev graph_route : {H : Type 0} → H → Text → Route H
graph_route handle method = record {
  method = method;
  pattern_text = codes "/go-graphql";
  capability = [];
  handler = handle;
}

unfoldable pub register : {H D : Type 0} → H → Context H D → Context H D
unfolding add_route
register handle c =
    add_route (graph_route handle (codes "POST")) (add_route (graph_route handle (codes "GET")) c)
