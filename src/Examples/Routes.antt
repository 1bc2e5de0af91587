-- ===== src/Examples/Routes.antt =====
-- A broker in memory, the codes that it routes by, and a whole reader.
use try_it.Prelude.{
  replicate, Bool-cases, inl, inr, ℕ, ◌≡◌, refl, String, Bool, true, false, ◌&&◌, ◌||◌, some, none,
  List, [], ◌∷◌, arith, ◌==◌, get_elem?, Returns,
}
use try_it.Prelude.Int.{pos}
use try_it.Prelude.Split.{lacks, split}
use try_it.Shared.Errors.{ok}
use try_it.Shared.Name.{is_glob, is_special, IsName}
use try_it.Session.Broker.{QuizMessage, Channel, question_start, publish_question_start}
use try_it.Session.Generator.{generate_session_code, generate_session_code_lem, IsCode}
use try_it.RealTime.Queues.{AmqpChannel, question_queue}
use try_it.RealTime.Queues.Routing.{AmqpLaws, listening, publish_question_start_lem}
use try_it.RealTime.Handler.{message, garbage, hang_up, reads, runs, handle_read}
use try_it.RealTime.Message.{ClientMessage}
use try_it.RealTime.Reading.{handle_read_lem}
use try_it.RealTime.Reading.Handled.{IsHandled, messages_of, hangs_up}
use try_it.Prelude.Int.{negsuc}
use try_it.Prelude.Dict
use try_it.Shared.Quiz.{len}
use try_it.RealTime.Consumer.{HandlerDeps}
use try_it.RealTime.Registry.{new_connection_registry}
use try_it.RealTime.Tracker.Valid.{IsValid}
use try_it.RealTime.Tracker.Progress.{advance}
use try_it.RealTime.Queues.{RealTimeRabbit}
use try_it.RealTime.Consuming.{question_loop, consume_session_start}
use try_it.RealTime.Game.{Played, question_loop_lem}
use try_it.RealTime.Opening.{OpensUnless, consume_session_start_lem}
use try_it.Examples.Quiz.{
  no_board, quiz_one, at_question, no_store, alice, deps_at, online, online-up, second_option,
  known_at, tracker_at-IsValid,
}

-- The queues with their binding keys.
abbrev Bindings : Type 0
Bindings = List (String × String)

is_bound : Bindings → String → String → Bool
is_bound [] p k = false
is_bound ((queue, key) ∷ more) p k = (queue == p && key == k) || is_bound more p k

abbrev broker : AmqpChannel Bindings
broker = record {
  queue_declare = λ a queue flags. (a, ok queue);
  queue_bind = λ a queue key exchange. ((queue, key) ∷ a, none);
  consume = λ a queue tag. (a, none);
}

broker-AmqpLaws : AmqpLaws broker is_bound
unfolding is_bound
broker-AmqpLaws = record {
  declare_works = λ a queue flags. refl;
  declare_routes = λ a queue flags p k. refl;
  bind_works = λ a queue key. refl;
  bind_routes = λ a queue key p k plain. refl;
  consume_routes = λ a queue tag p k. refl;
}

abbrev publisher : Channel Bindings
publisher = record { publish = λ b key event. (b, none); open_channel = λ b. none }

ab12-IsName : IsName "AB12"
unfolding lacks is_special is_glob
ab12-IsName = refl

publish_question_start_lem_example :
    (key : String) × (publish_question_start publisher [] "AB12" ""
      ≡ publisher.publish [] key (question_start ""))
    × (is_bound (listening broker is_bound broker-AmqpLaws [] "AB12") (question_queue "AB12") key
        ≡ ("AB12" == "AB12"))
    × (is_bound (listening broker is_bound broker-AmqpLaws [] "AB12") "session_started" key ≡ false)
    × (is_bound (listening broker is_bound broker-AmqpLaws [] "AB12") "session_ended" key ≡ false)
    × (get_elem? (split b'.' key) 1 ≡ some "AB12")
unfolding is_bound
publish_question_start_lem_example =
    publish_question_start_lem broker is_bound broker-AmqpLaws publisher [] [] "AB12" "AB12" ""
      ab12-IsName ab12-IsName (λ q j. refl)

abbrev start_message : QuizMessage
start_message = record { session_id = "AB12"; quiz = quiz_one }

-- Draws that are all 0.
abbrev zeros : ℕ → ℕ → ℕ
zeros i n = 0

generate_session_code_lem_example : Returns (generate_session_code zeros (pos 6)) (IsCode 6)
generate_session_code_lem_example = generate_session_code_lem zeros (λ i n h. h) 6

abbrev first_option : ClientMessage
first_option = record { kind = "answer"; option = pos 0; timestamp = pos 6 }

-- The two answers are handled in the other order, the second after the hang-up.
handle_read_lem_example :
    Returns
      (handle_read online no_store alice
        (reads (message second_option)
          ∷ reads garbage
          ∷ reads (message first_option)
          ∷ runs 1
          ∷ reads hang_up
          ∷ runs 0
          ∷ [])
        []
        (deps_at (pos 0)))
      (λ out.
        IsHandled
          (deps_at (pos 0))
          out.1
          alice
          (at_question (pos 0))
          0
          (second_option ∷ first_option ∷ [])
          out.0
          true)
unfolding messages_of hangs_up
handle_read_lem_example =
    handle_read_lem online no_store alice (at_question (pos 0)) 0 online-up refl refl
      (reads (message second_option)
        ∷ reads garbage
        ∷ reads (message first_option)
        ∷ runs 1
        ∷ reads hang_up
        ∷ runs 0
        ∷ [])
      [] (deps_at (pos 0)) (refl, refl) (tracker_at-IsValid (pos 0) (omega arith))
      (known_at (pos 0))

-- A game in a session whose id is a name: two triggers and one too many.
abbrev game_deps : HandlerDeps (Unit {0})
game_deps = record {
  tracker = record {
    answers = ("AB12", []) ∷ [];
    tracker = ("AB12", at_question (negsuc 0)) ∷ [];
    cache = tt;
  };
  registry = new_connection_registry;
}

game_deps-IsValid : IsValid game_deps.tracker
unfolding Dict.get len
game_deps-IsValid = record {
  agree = λ sid. elim (Bool-cases ("AB12" == sid)) [ inl e ↦ rw e (refl, tt) | inr e ↦ rw e tt ];
}

question_loop_lem_example :
    Returns
      (question_loop online no_board no_store "AB12"
        (replicate 3 (question_queue "AB12"))
        game_deps)
      (Played online online-up no_board no_store "AB12"
        (advance no_store 3 game_deps.tracker "AB12")
        game_deps)
unfolding Dict.get Dict.values new_connection_registry
question_loop_lem_example =
    question_loop_lem online online-up no_board no_store "AB12" 3 game_deps (at_question (negsuc 0))
      ab12-IsName ((refl, refl), omega arith) game_deps-IsValid refl

abbrev listener : RealTimeRabbit Bindings
listener = record {
  broker = [];
  session_started_q = "session_started";
  session_ended_q = "session_ended";
  question_started_qs_tags = [];
}

consume_session_start_lem_example :
    OpensUnless online no_board no_store none
      (consume_session_start online no_board no_store broker listener
        (some ("CD34", quiz_one) ∷ none ∷ [])
        game_deps)
      game_deps
      (some ("CD34", quiz_one) ∷ none ∷ [])
unfolding new_connection_registry
consume_session_start_lem_example =
    consume_session_start_lem online no_board no_store broker listener
      (some ("CD34", quiz_one) ∷ none ∷ []) game_deps game_deps-IsValid (refl, refl)
