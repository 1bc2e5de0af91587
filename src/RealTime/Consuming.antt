-- ===== src/RealTime/Consuming.antt =====
-- The loops of the consumers of backend-go/real_time/rabbit/question.go and session.go over the
-- deliveries of their queues, and the channel `ready` that the two of session.go close.
use try_it.Prelude.{
  String, Bool, true, false, Option, none, some, List, [], ◌∷◌, Run, done, panics, ◌>>=◌,
}
use try_it.Prelude.Dict.{Dict}
use try_it.Prelude.Split.{split}
use try_it.Shared.Errors.{ErrorOr}
use try_it.Shared.Quiz.{Quiz}
use try_it.Shared.Scores.{SessionAnswers}
use try_it.RealTime.Cache.{Cache}
use try_it.RealTime.Message.{ServerMessage}
use try_it.RealTime.Registry.{ConnectionContext, Attempt}
use try_it.RealTime.Leaderboard.{HttpReply}
use try_it.RealTime.Consumer.{HandlerDeps, question_started, session_started, session_ended}
use try_it.RealTime.Queues.{AmqpChannel, RealTimeRabbit}

-- `close(ready)`, where the argument says whether it is closed already.
abbrev pub close : Bool → Run Bool
close true = panics
close false = done true

-- `if err != nil { ...; close(ready) }`
abbrev pub close_on_error : ErrorOr → Run Bool
close_on_error none = done false
close_on_error (some e) = close false

module _ (writes : List Attempt → ConnectionContext → ServerMessage → Bool)
    (post : SessionAnswers → HttpReply) {C : Type 0} (cache : Cache C) where
  -- The loop of `ConsumeQuestionStart` for session `sid` over the routing keys of the deliveries.
  unfoldable pub question_loop : String → List String → HandlerDeps C → Run (HandlerDeps C)
  question_loop sid [] d = done d
  question_loop sid (key ∷ keys) d =
      question_started writes post cache sid (split b'.' key) d >>= question_loop sid keys

  -- The loop of `ConsumeSessionStart` over the bodies of the deliveries.
  unfoldable pub start_loop :
      List (Option (String × Quiz))
      → HandlerDeps C
      → Dict String
      → Run (HandlerDeps C × Dict String)
  start_loop [] d tags = done (d, tags)
  start_loop (body ∷ bodies) d tags =
      session_started writes post cache body d tags >>= λ (d', tags'). start_loop bodies d' tags'

  -- The loop of `ConsumeSessionEnd`, with the broker's answers to the cancellations.
  unfoldable pub end_loop :
      (String → ErrorOr)
      → List (Option String)
      → HandlerDeps C
      → Dict String
      → Run (HandlerDeps C × Dict String)
  end_loop cancel [] d tags = done (d, tags)
  end_loop cancel (body ∷ bodies) d tags =
      session_ended writes post cache cancel body d tags >>= λ (d', tags').
      end_loop cancel bodies d' tags'

  module _ {A : Type 0} (channel : AmqpChannel A) (rabbit : RealTimeRabbit A) where
    unfoldable pub consume_session_start :
        List (Option (String × Quiz)) → HandlerDeps C → Run (HandlerDeps C × Dict String)
    unfolding start_loop
    consume_session_start bodies d = do
      ready ← close_on_error (channel.consume rabbit.broker rabbit.session_started_q "").1
      _ready ← close ready
      start_loop bodies d rabbit.question_started_qs_tags

    unfoldable pub consume_session_end :
        (String → ErrorOr)
        → List (Option String)
        → HandlerDeps C
        → Run (HandlerDeps C × Dict String)
    unfolding end_loop
    consume_session_end cancel bodies d = do
      ready ← close_on_error (channel.consume rabbit.broker rabbit.session_ended_q "").1
      _ready ← close ready
      end_loop cancel bodies d rabbit.question_started_qs_tags
