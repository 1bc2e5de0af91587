-- ===== src/Session/Broker.antt =====
-- backend-go/SessionService/Rabbit: the three kinds of event that the service publishes to the topic
-- exchange, over the channel of the AMQP client with its state `B`.
use try_it.Prelude.{String, none, some}
use try_it.Prelude.Text.{join}
use try_it.Shared.Errors.{ErrorOr}
use try_it.Shared.Quiz.{Quiz}

-- `shared.QuizMessage`
pub record QuizMessage : Type 0 where
  pub session_id : String
  pub quiz : Quiz

-- The bodies, before they are encoded as JSON.
pub data Event : Type 0 where
  session_start : QuizMessage → Event
  session_end : String → Event
  question_start : String → Event

-- The client: one publishing under a routing key, and a channel that is opened and closed again.
pub record Channel (B : Type 0) : Type 0 where
  pub publish : B → String → Event → B × ErrorOr
  pub open_channel : B → ErrorOr

module _ {B : Type 0} (channel : Channel B) where
  open channel use {publish, open_channel}

  unfoldable pub publish_session_start : B → QuizMessage → B × ErrorOr
  publish_session_start b message = publish b "session.start" (session_start message)

  unfoldable pub publish_question_start : B → String → String → B × ErrorOr
  publish_question_start b code payload =
      publish b (join "question." (join code ".start")) (question_start payload)

  -- The payload is not sent, but the code is.
  unfoldable pub publish_session_end : B → String → String → B × ErrorOr
  publish_session_end b code payload = publish b "session.end" (session_end code)

  unfoldable pub check_rabbit_alive : B → ErrorOr
  check_rabbit_alive b = elim (open_channel b) [
    | none ↦ none
    | some e ↦ some (join "rabbit error channel " e)
  ]
