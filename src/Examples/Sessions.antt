-- ===== src/Examples/Sessions.antt =====
-- The life of a session over a store in memory and a broker that keeps what is published.
use try_it.Prelude.{
  ℕ, ◌≡◌, refl, ap, subst, String, true, Option, none, some, List, [], ◌∷◌, ◌++◌, arith, ◌==◌,
  eq_refl, Bool-cases, inl, inr,
}
use try_it.Prelude.Dict
use try_it.Prelude.Dict.{Dict, get-put, get-remove}
use try_it.Shared.Errors.{Result, ok, ErrorOr}
use try_it.Shared.Token.{UserToken}
use try_it.Http.{post}
use try_it.Session.Storage.{
  Session, RedisClient, session_key, stored_fields, load_session, code_exist,
}
use try_it.Session.Broker.{Channel, Event}
use try_it.Session.Manager.{
  SessionManager, Fetched, answer, no_answer, generate_user_token, new_session,
}
use try_it.Session.Handlers.{
  CreateSessionReq, Draws, refuse, outcome, create_session_handler, validate_code_handler,
  session_end_handler,
}
use try_it.Session.Codes.{RedisLaws, IsDrawn}
use try_it.Session.Life.{
  waiting, new_session_lem, session_end_handler_lem, create_session_handler_orphan,
}
use try_it.Examples.Quiz.{quiz_one}

-- The keys that hold a hash.
abbrev pub Memory : Type 0
Memory = Dict (Dict String)

abbrev pub hash_of : Option (Dict String) → Dict String
hash_of none = []
hash_of (some m) = m

abbrev pub put_all : Dict String → Dict String → Dict String
put_all m [] = m
put_all m ((f, v) ∷ fields) = Dict.put (put_all m fields) f v

abbrev pub there : Option (Dict String) → ℕ
there none = 0
there (some m) = 1

abbrev pub memory : RedisClient Memory
memory = record {
  hset = λ r key fields. (Dict.put r key (put_all (hash_of (Dict.get r key)) fields), none);
  hgetall = λ r key. ok (hash_of (Dict.get r key));
  del = λ r key. (Dict.remove r key, none);
  exists = λ r key. ok (there (Dict.get r key));
  sadd = λ r key member. (r, none);
  smembers = λ r key. ok [];
  expire = λ r key. r;
  ping = λ r. none;
}

put_all-get :
    (m fields : Dict String) (f v : String)
    → Dict.get fields f ≡ some v
    → Dict.get (put_all m fields) f ≡ some v
unfolding Dict.get
put_all-get m [] f v h = absurd (ground arith)
put_all-get m ((g, w) ∷ fields) f v h = rw get-put (elim (Bool-cases (g == f)) [
  | inl e ↦ rw e (rw e at h)
  | inr e ↦ rw e (put_all-get m fields f v (rw e at h))
])

get-put_self :
    (r : Memory) (key : String) (m : Dict String) → Dict.get (Dict.put r key m) key ≡ some m
get-put_self r key m = rw (get-put, eq_refl) refl

get-remove_self : (r : Memory) (key : String) → Dict.get (Dict.remove r key) key ≡ none
get-remove_self r key = rw (get-remove, eq_refl) refl

-- The state that a command gives.
state_of : (p : Memory × ErrorOr) (r : Memory) → p ≡ (r, none) → p.0 ≡ r
state_of p r h = ap (λ (q : Memory × ErrorOr). q.0) h

pub memory-Laws : RedisLaws memory
memory-Laws = record {
  hset_reads = λ r r' key fields h.
      let m = put_all (hash_of (Dict.get r key)) fields in
      let read : Dict.get r' key ≡ some m =
        subst (λ (q : Memory). Dict.get q key ≡ some m) (state_of (memory.hset r key fields) r' h)
          (get-put_self r key m) in
      (
        m,
        ap (λ (o : Option (Dict String)). ok (hash_of o)) read,
        put_all-get (hash_of (Dict.get r key)) fields,
      );
  hset_exists = λ r r' key f v fields h.
      let m = put_all (hash_of (Dict.get r key)) ((f, v) ∷ fields) in
      let read : Dict.get r' key ≡ some m =
        subst (λ (q : Memory). Dict.get q key ≡ some m)
          (state_of (memory.hset r key ((f, v) ∷ fields)) r' h) (get-put_self r key m) in
      (0, ap (λ (o : Option (Dict String)). ok (there o)) read);
  del_exists = λ r r' key h.
      let read : Dict.get r' key ≡ none =
        subst (λ (q : Memory). Dict.get q key ≡ none) (state_of (memory.del r key) r' h)
          (get-remove_self r key) in
      ap (λ (o : Option (Dict String)). ok (there o)) read;
}

-- A broker that keeps what is published, with its routing keys.
abbrev pub Log : Type 0
Log = List (String × Event)

abbrev pub keeping : Channel Log
keeping = record {
  publish = λ b key event. (b ++ (key, event) ∷ [], none);
  open_channel = λ b. none;
}

abbrev pub sign_name : UserToken → Result String
sign_name token = ok token.user_name

abbrev pub empty_service : SessionManager Memory Log
empty_service = record { cache = []; rabbit = [] }

abbrev pub draws_one : Draws
draws_one = record { session_id = "id"; user_id = "u1"; codes = λ i. "ABC123" }

abbrev pub request_one : CreateSessionReq
request_one = record { user_name = "Host"; quiz_id = "q1" }

abbrev pub fetch_one : String → Fetched
fetch_one url = answer 200 (ok (ok quiz_one))

abbrev fetch_none : String → Fetched
fetch_none url = no_answer "timeout"

-- The store after the session is saved, and the session that was.
abbrev pub waiting_one : Session
waiting_one = waiting memory keeping sign_name "ws://h:1/ws" "id" draws_one.codes empty_service

abbrev pub store_one : Memory
store_one = (memory.hset [] (session_key waiting_one.code) (stored_fields waiting_one)).0

new_session_lem_example :
    (new_session memory "id" draws_one.codes "ws://h:1/ws" empty_service
      ≡ (ok waiting_one, record { cache = store_one; rabbit = [] }))
    × IsDrawn memory draws_one.codes [] 0 3 waiting_one.code
    × (code_exist memory store_one waiting_one.code ≡ true)
    × (load_session memory store_one waiting_one.code
        ≡ ok (record waiting_one { server_ws_endpoint = "" }))
new_session_lem_example =
    new_session_lem memory keeping sign_name "ws://h:1/ws" memory-Laws "id" draws_one.codes
      empty_service store_one refl

abbrev pub published_one : Log
published_one =
    (
      "session.start",
      Event.session_start (record { session_id = waiting_one.code; quiz = quiz_one }),
    )
    ∷ []

session_end_handler_lem_example :
    (session_end_handler memory keeping sign_name "ws://h:1/ws" post "ABC123"
        (record { cache = store_one; rabbit = [] })
      ≡ outcome memory keeping sign_name "ws://h:1/ws" (
        none,
        record {
          cache = Dict.remove store_one (session_key "ABC123");
          rabbit = ("session.end", Event.session_end "ABC123") ∷ [];
        },
      ))
    × ((b : Log)
        → validate_code_handler memory keeping sign_name "ws://h:1/ws" "u2" "broken pipe" true post
            (some (record { code = "ABC123"; user_name = "Bob" }))
            (record { cache = Dict.remove store_one (session_key "ABC123"); rabbit = b })
          ≡ (
            refuse 400 "Code is incorrect",
            record { cache = Dict.remove store_one (session_key "ABC123"); rabbit = b },
          ))
unfolding generate_user_token
session_end_handler_lem_example =
    session_end_handler_lem memory keeping sign_name "ws://h:1/ws" memory-Laws
      (record { cache = store_one; rabbit = [] }) "ABC123"
      (Dict.remove store_one (session_key "ABC123")) "u2" "Bob" "broken pipe" "Bob" refl refl

create_session_handler_orphan_example :
    (create_session_handler memory keeping sign_name "ws://h:1/ws" fetch_none draws_one true post
        (some request_one)
        empty_service
      ≡ (refuse 500 "StatusInternalServerError", record { cache = store_one; rabbit = [] }))
    × (code_exist memory store_one waiting_one.code ≡ true)
create_session_handler_orphan_example =
    create_session_handler_orphan memory keeping sign_name "ws://h:1/ws" memory-Laws draws_one
      request_one empty_service store_one fetch_none "timeout" refl refl
