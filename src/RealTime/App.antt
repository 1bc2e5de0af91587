-- ===== src/RealTime/App.antt =====
-- backend-go/real_time/app/manager.go: the parts of the service, and how it connects to the broker and
-- the store.
use try_it.Prelude.{◌≡◌, refl, String, Option, none, some, inl, inr, Option-cases}
use try_it.Prelude.Int.{ℤ, pos}
use try_it.Prelude.Dict
use try_it.Prelude.Dict.{Dict}
use try_it.Prelude.Text.{atoi}
use try_it.Shared.Errors.{Result, ok, err, ErrorOr, Result-cases}
use try_it.RealTime.Cache.{Cache, CacheLaws, stored, value_of}
use try_it.RealTime.Registry.{ConnectionRegistry, new_connection_registry}
use try_it.RealTime.Tracker.{QuizTracker, new_quiz_tracker, set_cache}
use try_it.RealTime.Queues.{AmqpChannel, RealTimeRabbit, new_real_time_rabbit}
use try_it.RealTime.Restart.{set_cache_lem, set_cache-store}

-- `Manager`; none is nil.
pub record Manager (C A : Type 0) : Type 0 where
  pub redis : Option C
  pub rabbit : Option (RealTimeRabbit A)
  pub quiz_tracker : QuizTracker C
  pub connection_registry : ConnectionRegistry

-- What `url.Parse` gives of the address of the store: the host with its port, the password, and the
-- path.
pub record Url : Type 0 where
  pub host : String
  pub password : String
  pub path : String

-- `/2` is database 2, and a path that is no number is database 0.
abbrev pub or_default : Option ℤ → ℤ
or_default none = pos 0
or_default (some n) = n

unfoldable pub database_of : String → ℤ
database_of String.[] = pos 0
database_of (String.◌∷◌ slash String.[]) = pos 0
database_of (String.◌∷◌ slash (String.◌∷◌ c s)) = or_default (atoi (String.◌∷◌ c s))

-- `NewManager`, where the tracker's store stands for the nil that it starts with.
unfoldable pub new_manager : {C A : Type 0} → C → Manager C A
new_manager c = record {
  redis = none;
  rabbit = none;
  quiz_tracker = new_quiz_tracker c;
  connection_registry = new_connection_registry;
}

-- `ConnectRabbitMQ` on what `amqp.Dial` gives, where `opened` is the error of the new channel: the
-- error of `NewRealTimeRabbit` is not read.
unfoldable pub connect_rabbit_mq :
    {C A : Type 0}
    → AmqpChannel A
    → ErrorOr
    → Result A
    → Manager C A
    → Manager C A × Result (Option (RealTimeRabbit A))
connect_rabbit_mq channel opened (err e) m = (m, err e)
connect_rabbit_mq channel opened (ok a) m =
    let broker = value_of (new_real_time_rabbit channel opened a).1 in
    (record m { rabbit = broker }, ok broker)

module _ {C A : Type 0} (cache : Cache C) (ping : C → ErrorOr) where
  -- `ConnectRedis` once the client is there: it has to answer.
  unfoldable pub use_store : C → Manager C A → ErrorOr × Manager C A
  use_store c m = elim (ping c) [
    | some e ↦ (some e, m)
    | none ↦ (none, record m { redis = some c; quiz_tracker = set_cache cache m.quiz_tracker c })
  ]

  -- `ConnectRedis`, where `open_store` is `redis.NewClient`.
  unfoldable pub connect_redis :
      (String → Result Url)
      → (String → String → ℤ → C)
      → String
      → Manager C A
      → ErrorOr × Manager C A
  unfolding use_store database_of
  connect_redis parse open_store raw_url m = elim (parse raw_url) [
    | err e ↦ (some e, m)
    | ok u ↦ use_store (open_store u.host u.password (database_of u.path)) m
  ]

module _ {C A : Type 0} (cache : Cache C) (ping : C → ErrorOr) where
  -- The manager `m` after a store was opened, on what it answers: an error is given back and nothing
  -- has changed; else the manager and its tracker have the store, the tracker has the quizzes that are
  -- in it in place of its own, and all else is as it was.
  abbrev pub Takes : ErrorOr → C → Manager C A → ErrorOr × Manager C A → Type 0
  Takes (some e) c m out = out ≡ (some e, m)
  Takes none c m out =
      (out.0 ≡ none)
      × (out.1.redis ≡ some c)
      × (out.1.quiz_tracker.cache ≡ c)
      × ((j : String) → Dict.get out.1.quiz_tracker.tracker j ≡ stored cache c j)
      × (out.1.quiz_tracker.answers ≡ m.quiz_tracker.answers)
      × (out.1.rabbit ≡ m.rabbit)
      × (out.1.connection_registry ≡ m.connection_registry)

  -- The same from what the parsing of the address gives.
  abbrev pub Connects :
      (String → String → ℤ → C) → Result Url → Manager C A → ErrorOr × Manager C A → Type 0
  Connects open_store (err e) m out = out ≡ (some e, m)
  Connects open_store (ok u) m out =
      let c = open_store u.host u.password (database_of u.path) in Takes (ping c) c m out

  module _ (IsSound : C → Type 0) (laws : CacheLaws cache IsSound) where
    use_store-Takes :
        (c : C) (m : Manager C A) → IsSound c → Takes (ping c) c m (use_store cache ping c m)
    unfolding use_store
    use_store-Takes c m s = elim (Option-cases (ping c)) [
      | inr (e, dead) ↦ rw (dead, use_store) refl
      | inl alive ↦
          let (old, same) = set_cache_lem cache IsSound laws m.quiz_tracker c s in
          rw (alive, use_store)
            (refl, refl, set_cache-store cache IsSound laws m.quiz_tracker c, same, old, refl, refl)
    ]

    -- The manager, in whatever state it is, connects to a store that keeps the promises of its interface
    -- on the quizzes that it holds, but which may be down or at no address: an address
    -- that does not parse, or a store that does not answer, gives its error and changes nothing.
    -- Else there is no error, the manager and its tracker have this store, the tracker has for every
    -- session the quiz of the store and no other, and keeps its answers, and the broker and the
    -- registry are as they were.
    pub connect_redis_lem :
        (parse : String → Result Url) (open_store : String → String → ℤ → C) (raw_url : String)
        (m : Manager C A)
        → ((host password : String) (n : ℤ) → IsSound (open_store host password n))
        → Connects open_store
            (parse raw_url)
            m
            (connect_redis cache ping parse open_store raw_url m)
    unfolding connect_redis
    connect_redis_lem parse open_store raw_url m sound = elim (Result-cases (parse raw_url)) [
      | inr (e, bad) ↦ rw (bad, connect_redis) refl
      | inl (u, good) ↦
          rw (good, connect_redis)
            (use_store-Takes (open_store u.host u.password (database_of u.path)) m
              (sound u.host u.password (database_of u.path)))
    ]
