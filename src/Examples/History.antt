-- ===== src/Examples/History.antt =====
-- A short life of the service: a session starts, a participant connects, and the first question is
-- triggered.
use try_it.Prelude.{refl, true, false, some, none, String, [], ◌∷◌}
use try_it.Prelude.Int.{pos, negsuc}
use try_it.Prelude.Dict
use try_it.Shared.Errors.{Result, ok, ErrorOr}
use try_it.Shared.Token.{UserToken, role_participant}
use try_it.Shared.Quiz.{empty_answer, len}
use try_it.RealTime.Message.{bare, next_question}
use try_it.RealTime.Registry.{
  ConnectionContext, new_connection_registry, register_session, register_connection,
  broadcast_to_session, get_connections, send_message, send_one, without_admins,
  without_admins_from, send_to_admin, send_to_admins,
}
use try_it.RealTime.Tracker.{
  new_quiz_tracker, new_session, add_participant, ensure_user, inc_question_idx,
  get_current_question, get_quiz_len,
}
use try_it.RealTime.Consumer.{
  HandlerDeps, session_started, question_started, consumer_tag, question_step, board_step,
}
use try_it.RealTime.Responder.{send_question_payload, send_next_question_ack}
use try_it.RealTime.Handler.{welcome, web_socket_handler, join_session}
use try_it.RealTime.Running.{Running, Running-IsSound, started, begun, connected, triggered}
use try_it.RealTime.Running.Sound.{IsSound}
use try_it.Examples.Quiz.{quiz_one, at_question, no_store, no_board, online}

abbrev cancels : String → ErrorOr
cancels tag = none

abbrev erin : UserToken
erin = record {
  user_id = "erin";
  user_name = "Erin";
  user_type = role_participant;
  session_id = "s";
  exp = 10000;
}

abbrev parses : String → Result UserToken
parses token = ok erin

abbrev erin_online : ConnectionContext
erin_online = record { conn = some 4; user_id = "erin"; session_id = "s"; role = role_participant }

abbrev opened : HandlerDeps (Unit {0})
opened = record {
  tracker = record {
    answers = ("s", []) ∷ [];
    tracker = ("s", at_question (negsuc 0)) ∷ [];
    cache = tt;
  };
  registry = record { connections = ("s", []) ∷ []; readers = 0; writer = false; attempts = [] };
}

abbrev joined : HandlerDeps (Unit {0})
joined = record {
  tracker = record {
    answers = ("s", ("erin", empty_answer ∷ empty_answer ∷ []) ∷ []) ∷ [];
    tracker = ("s", at_question (negsuc 0)) ∷ [];
    cache = tt;
  };
  registry = record {
    connections = ("s", ("erin", erin_online) ∷ []) ∷ [];
    readers = 0;
    writer = false;
    attempts = [];
  };
}

abbrev asked : HandlerDeps (Unit {0})
asked = record {
  tracker = record {
    answers = ("s", ("erin", empty_answer ∷ empty_answer ∷ []) ∷ []) ∷ [];
    tracker = ("s", at_question (pos 0)) ∷ [];
    cache = tt;
  };
  registry = record joined.registry {
    attempts = record { to = erin_online; message = bare next_question; delivered = true } ∷ [];
  };
}

history : Running online parses no_board cancels no_store asked (("s", consumer_tag "s") ∷ [])
unfolding new_connection_registry new_quiz_tracker session_started register_session new_session
    web_socket_handler join_session register_connection add_participant ensure_user question_started
    inc_question_idx get_current_question get_quiz_len question_step board_step broadcast_to_session
    get_connections send_message send_one without_admins without_admins_from send_to_admin
    send_to_admins Dict.get Dict.put Dict.has Dict.values len send_question_payload
    send_next_question_ack
history =
    triggered joined asked (("s", consumer_tag "s") ∷ []) "s" ("question" ∷ "s" ∷ "start" ∷ [])
      (connected opened joined (("s", consumer_tag "s") ∷ []) (some 4) "token" (welcome "s" "erin")
        (begun _ opened [] (("s", consumer_tag "s") ∷ []) (some ("s", quiz_one)) (started tt) refl)
        refl)
      refl

Running-IsSound_example : IsSound asked
Running-IsSound_example =
    Running-IsSound online parses no_board cancels no_store asked (("s", consumer_tag "s") ∷ [])
      history
