-- ===== src/Spokes.antt =====
-- The search for Applications on spoke clusters (internal/controller/pattern_controller.go,
-- checkSpokeApplicationsGone).
use patterns_operator.Prelude.{
  String, Bool, true, ◌||◌, List, [], ◌∷◌, ◌==◌, ◌^◌, nat_eq, map, join, if◌then◌else◌,
}
use patterns_operator.Errors.{Result, ok, err, errorf, wrap}
use patterns_operator.Library.{Library, Url}
use patterns_operator.Defaults.{Env, ActiveArgo}
use patterns_operator.Cluster.{
  SearchItem, SearchResponse, Prog, pure, fail, ask, ◌>>=◌, search_applications, read_token,
}

abbrev pub default_search_url : String
default_search_url =
    "https://search-search-api.open-cluster-management.svc.cluster.local:4010/searchapi/graphql"

abbrev pub search_url : Env → String
search_url e = if e.search_api_url == "" then default_search_url else e.search_api_url

unfoldable pub get_token : Env → Prog String
unfolding ask ◌>>=◌
get_token e =
    let read : Prog String = (do
      reply ← ask read_token
      elim reply [
        | ok t ↦ pure t
        | err x ↦ fail (wrap ("failed to read serviceaccount token: " ^ x.message) x)
      ]) in
    if e.search_api_token == "" then read else pure e.search_api_token

abbrev item_text : SearchItem → String
item_text i = i.namespace ^ "/" ^ i.name ^ " in " ^ i.cluster

-- The items of the first search result.
abbrev first_items : List (List SearchItem) → List SearchItem
first_items [] = []
first_items (items ∷ _) = items

abbrev pub verdict : List SearchItem → Prog Bool
verdict [] = pure true
verdict (i ∷ is) =
    fail (errorf ("spoke cluster apps still exist: [" ^ join (map item_text (i ∷ is)) " " ^ "]"))

abbrev pub read_results : Result (List (List SearchItem)) → Prog Bool
read_results (err x) = fail (wrap ("failed to parse JSON response: " ^ x.message) x)
read_results (ok results) = verdict (first_items results)

abbrev pub read_response : Result SearchResponse → Prog Bool
read_response (err x) =
    fail (wrap ("failed to make HTTP request to search service: " ^ x.message) x)
read_response (ok r) =
    if nat_eq r.status_code 200
    then read_results r.results
    else fail (errorf "search service returned status")

-- The search from the parsed URL on. It is sent to the URL without its query.
unfoldable pub search_at : Env → ActiveArgo → Bool → Result Url → Prog Bool
unfolding ask ◌>>=◌
search_at e active app_of_apps (err x) = fail (errorf ("invalid search API URL: " ^ search_url e))
search_at e active app_of_apps (ok u) =
    let namespaces = if app_of_apps then active.namespace ∷ [] else ("!" ^ active.namespace) ∷ [] in
    let search : Prog Bool = (do
      token ← get_token e
      reply ← ask (
          search_applications (record {
            url = u.scheme ^ "://" ^ u.host ^ u.path;
            token = token;
            namespaces = namespaces;
          }))
      read_response reply) in
    if u.scheme == "https" || u.scheme == "http"
    then search
    else fail (errorf ("invalid search API URL: " ^ search_url e))

unfoldable pub check_spoke_applications_gone : Library → Env → ActiveArgo → Bool → Prog Bool
unfolding search_at
check_spoke_applications_gone lib e active app_of_apps =
    search_at e active app_of_apps (lib.parse_url (search_url e))
