-- ===== src/Examples/Requests.antt =====
-- A request that is no POST, over a router in memory.
use try_it.Prelude.{
  ◌≡◌, String, Bool, true, false, ◌||◌, some, none, List, [], ◌∷◌, if◌then◌else◌, ◌==◌,
}
use try_it.Shared.Errors.{Result, err}
use try_it.Shared.Token.{UserToken}
use try_it.Http.{Method, get, post, put, delete, options}
use try_it.Session.Server.{Route, Request, Site, Found, matched, wrong_method, not_found, serve}
use try_it.Session.Server.Methods.{serve-Keeps}
use try_it.Examples.Sessions.{
  Memory, memory, keeping, Log, sign_name, empty_service, draws_one, fetch_one,
}

abbrev same_method : Method → Method → Bool
same_method get get = true
same_method post post = true
same_method put put = true
same_method delete delete = true
same_method options options = true
same_method _ _ = false

abbrev among : Method → List Method → Bool
among verb [] = false
among verb (m ∷ ms) = same_method verb m || among verb ms

abbrev allowed : Method → Route → Bool
allowed verb route = elim route.methods [ none ↦ true | some ms ↦ among verb ms ]

-- Paths without variables, with the first route of the same text.
abbrev exact : List Route → Method → String → Found
exact [] verb path = not_found
exact (route ∷ routes) verb path =
    let later = exact routes verb path in
    if route.pattern == path
    then (if allowed verb route then matched route "" else wrong_method)
    else later

abbrev no_tokens : String → Result UserToken
no_tokens jwt = err "malformed"

-- Erin is in the waiting room of session "s".
abbrev site_one : Site Memory Log
site_one = record {
  manager = empty_service;
  rooms = record {
    connections = ("s", ("erin", 4) ∷ []) ∷ [];
    rooms = ("s", ("erin", "Erin") ∷ []) ∷ [];
    sent = [];
  };
}

abbrev get_delete : Request
get_delete = record {
  method = get;
  path = "/delete-user";
  query = ("code", "s") ∷ ("userId", "erin") ∷ [];
  create_body = none;
  join_body = none;
  code_body = none;
  draws = draws_one;
  sent = true;
  lost = "";
  upgrade = none;
}

serve-Keeps_example :
    (serve memory keeping sign_name no_tokens "ws://h:1/ws" fetch_one exact get_delete
      site_one).1.manager
    ≡ site_one.manager
serve-Keeps_example =
    serve-Keeps memory keeping sign_name no_tokens "ws://h:1/ws" fetch_one exact get_delete site_one
