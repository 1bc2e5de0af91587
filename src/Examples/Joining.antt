-- ===== src/Examples/Joining.antt =====
-- Users who connect to the session of Examples/Quiz.antt, and its start and end.
use try_it.Prelude.{
  ◌≡◌, refl, String, none, some, [], ◌++◌, arith, panics, Returns, if◌then◌else◌, ◌==◌,
}
use try_it.Prelude.Int.{pos}
use try_it.Prelude.Dict
use try_it.Prelude.Dict.{Dict}
use try_it.Shared.Errors.{ErrorOr}
use try_it.Shared.Token.{UserToken, role_participant}
use try_it.RealTime.Message.{bare, end}
use try_it.RealTime.Registry.Delivery.{conn_of, IsFree}
use try_it.RealTime.Registry.Online.{sent_to, players_of}
use try_it.RealTime.Tracker.{new_quiz_tracker}
use try_it.RealTime.Tracker.Valid.{IsValid-new}
use try_it.RealTime.Tracker.Answers.{RowWritten, row_or_blank}
use try_it.RealTime.Consumer.{HandlerDeps, cleanup_question_consumer, session_ended}
use try_it.RealTime.Handler.{welcome, join_session}
use try_it.RealTime.Joining.{context_of, join_session_lem, join_session_early}
use try_it.RealTime.Ending.{session_ended_lem}
use try_it.Examples.Quiz.{
  at_question, no_store, registry_one, tracker_at, deps_at, online, online-up, no_board, known_at,
  tracker_at-IsValid, one_host,
}

abbrev dave : UserToken
dave = record {
  user_id = "dave";
  user_name = "Dave";
  user_type = role_participant;
  session_id = "s";
  exp = 10000;
}

-- The service before the start of any session arrived.
abbrev before_start : HandlerDeps (Unit {0})
before_start = record { tracker = new_quiz_tracker tt; registry = registry_one }

join_session_lem_example : Returns (join_session dave 9 (deps_at (pos 0))) (λ out.
    (out.0 ≡ welcome "s" "dave")
    × (conn_of out.1.registry "s" "dave" ≡ some (context_of dave 9))
    × IsFree out.1.registry
    × RowWritten
        (tracker_at (pos 0))
        out.1.tracker
        "s"
        "dave"
        (row_or_blank (tracker_at (pos 0)) "s" "dave"))
join_session_lem_example =
    join_session_lem dave 9 (deps_at (pos 0)) (refl, refl) (at_question (pos 0))
      (tracker_at-IsValid (pos 0) (omega arith)) (known_at (pos 0)) refl

join_session_early_example : join_session dave 9 before_start ≡ panics
unfolding new_quiz_tracker Dict.get
join_session_early_example =
    join_session_early dave 9 before_start (refl, refl) (IsValid-new tt) refl refl

-- A broker that cancels every consumer.
abbrev cancels : String → ErrorOr
cancels tag = none

session_ended_lem_example :
    Returns (session_ended online no_board no_store cancels (some "s") (deps_at (pos 1)) []) (λ out.
      ((s : String)
        → Dict.get out.0.registry.connections s
          ≡ (if "s" == s then none else Dict.get registry_one.connections s))
      × IsFree out.0.registry
      × (out.0.registry.attempts ≡ [] ++ sent_to (bare end) (players_of registry_one "s"))
      × (out.0.tracker ≡ tracker_at (pos 1))
      × (out.1 ≡ (cleanup_question_consumer cancels "s" []).1))
session_ended_lem_example =
    session_ended_lem online online-up no_board no_store cancels "s" (deps_at (pos 1)) []
      (refl, refl) one_host
