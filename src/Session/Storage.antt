-- ===== src/Session/Storage.antt =====
-- backend-go/SessionService/Storage/Redis/redis.go, over the client's operations on the state `R` of
-- the store, and backend-go/shared/session.go.
use try_it.Prelude.{ℕ, String, Bool, true, false, none, some, List, [], ◌∷◌, ltb, if◌then◌else◌}
use try_it.Prelude.Dict
use try_it.Prelude.Dict.{Dict}
use try_it.Prelude.Text.{join}
use try_it.Shared.Errors.{Result, ok, err, ErrorOr}

pub record Session : Type 0 where
  pub id : String
  pub code : String
  pub state : String
  pub server_ws_endpoint : String

-- The commands of the Redis client that the service sends. `ping` says whether the server answers.
pub record RedisClient (R : Type 0) : Type 0 where
  pub hset : R → String → Dict String → R × ErrorOr
  pub hgetall : R → String → Result (Dict String)
  pub del : R → String → R × ErrorOr
  pub exists : R → String → Result ℕ
  pub sadd : R → String → String → R × ErrorOr
  pub smembers : R → String → Result (List String)
  pub expire : R → String → R
  pub ping : R → ErrorOr

abbrev pub session_key : String → String
session_key code = join "session:" code

abbrev pub players_key : String → String
players_key code = join "session:" (join code ":players")

-- `res[field]`, where a missing field is the empty text.
abbrev pub field : Dict String → String → String
field m f = elim (Dict.get m f) [ none ↦ "" | some v ↦ v ]

-- The fields of a session that are stored.
abbrev pub stored_fields : Session → Dict String
stored_fields s = ("id", s.id) ∷ ("code", s.code) ∷ ("state", s.state) ∷ []

-- What `LoadSession` makes of the result of `HGETALL`.
abbrev pub session_from : String → Result (Dict String) → Result Session
session_from code (err e) = err e
session_from code (ok []) = err (join "session with code " (join code " not found in Redis"))
session_from code (ok (entry ∷ more)) = ok (record {
  id = field (entry ∷ more) "id";
  code = field (entry ∷ more) "code";
  state = field (entry ∷ more) "state";
  server_ws_endpoint = "";
})

module _ {R : Type 0} (client : RedisClient R) where
  open client use {hset, hgetall, del, exists, sadd, smembers, expire, ping}

  unfoldable pub save_session : R → Session → R × ErrorOr
  save_session r s = hset r (session_key s.code) (stored_fields s)

  unfoldable pub load_session : R → String → Result Session
  load_session r code = session_from code (hgetall r (session_key code))

  unfoldable pub delete_session : R → String → R × ErrorOr
  delete_session r code = del r (session_key code)

  unfoldable pub edit_session_state : R → String → String → R × ErrorOr
  edit_session_state r code state = hset r (session_key code) (("state", state) ∷ [])

  unfoldable pub code_exist : R → String → Bool
  code_exist r code = elim (exists r (session_key code)) [
    | err e ↦ false
    | ok n ↦ if ltb 0 n then true else false
  ]

  -- An error of `Expire` is not read.
  unfoldable pub add_player_to_session : R → String → String → R × ErrorOr
  add_player_to_session r code name =
      let (r1, failed) = sadd r (players_key code) name in
      elim failed [ some e ↦ (r1, some e) | none ↦ (expire r1 (players_key code), none) ]

  unfoldable pub get_players_for_session : R → String → Result (List String)
  get_players_for_session r code = smembers r (players_key code)

  unfoldable pub check_redis_alive : R → ErrorOr
  check_redis_alive r = ping r
