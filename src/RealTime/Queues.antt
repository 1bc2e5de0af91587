-- ===== src/RealTime/Queues.antt =====
-- The queues of backend-go/real_time/rabbit: rabbit.go, and the declarations and bindings of
-- question.go and session.go, over a channel of the AMQP client with the state `A` of the broker.
pub mod Routing
use Prim.Native.Char.{code}
use try_it.Prelude.{String, Bool, true, false, none, some, [], List}
use try_it.Prelude.Dict
use try_it.Prelude.Dict.{Dict}
use try_it.Prelude.Text.{join}
use try_it.Prelude.Split.{replace_first}
use try_it.Shared.Errors.{Result, ok, err, ErrorOr}
use try_it.RealTime.Consumer.{consumer_tag}

-- The flags of a declaration, in the order of its arguments.
pub record QueueFlags : Type 0 where
  pub durable : Bool
  pub auto_delete : Bool
  pub exclusive : Bool
  pub no_wait : Bool

-- The calls of the client: declaring a queue gives its name, binding takes the queue, the key and the
-- exchange, and consuming takes the queue and the tag of the consumer.
pub record AmqpChannel (A : Type 0) : Type 0 where
  pub queue_declare : A → String → QueueFlags → A × Result String
  pub queue_bind : A → String → String → String → A × ErrorOr
  pub consume : A → String → String → A × ErrorOr

-- `shared/rabbit.go`
abbrev pub session_exchange : String
session_exchange = "session.events"

abbrev pub session_start_routing_key : String
session_start_routing_key = "session.start"

abbrev pub session_end_routing_key : String
session_end_routing_key = "session.end"

abbrev pub question_start_routing_key : String
question_start_routing_key = "question.*.start"

abbrev pub question_queue : String → String
question_queue sid = join "question." (join sid ".start")

-- The broker after a call, with the queue or the error.
abbrev pub bound : {A : Type 0} → String → A × ErrorOr → A × Result String
bound queue (a, none) = (a, ok queue)
bound queue (a, some e) = (a, err e)

-- `queue, _ := ...`, where the queue of an error has no name.
abbrev pub name_or_empty : Result String → String
name_or_empty (ok name) = name
name_or_empty (err e) = ""

module _ {A : Type 0} (channel : AmqpChannel A) where
  open channel use {queue_declare, queue_bind, consume}

  -- The rest of a creation, once the queue is declared. `queue` is the name that it is bound under.
  abbrev pub bind_declared : (String → String) → String → A × Result String → A × Result String
  bind_declared queue key (a, err e) = (a, err e)
  bind_declared queue key (a, ok name) = bound name (queue_bind a (queue name) key session_exchange)

  unfoldable pub create_question_start_queue : A → String → A × Result String
  create_question_start_queue a sid =
      bind_declared (λ name. question_queue sid) (replace_first b'*' sid question_start_routing_key)
        (queue_declare a (question_queue sid)
          (record { durable = false; auto_delete = true; exclusive = true; no_wait = false }))

  unfoldable pub create_session_started_queue : A → A × Result String
  create_session_started_queue a =
      bind_declared (λ name. name) session_start_routing_key
        (queue_declare a "session_started"
          (record { durable = false; auto_delete = false; exclusive = true; no_wait = false }))

  unfoldable pub create_session_ended_queue : A → A × Result String
  create_session_ended_queue a =
      bind_declared (λ name. name) session_end_routing_key
        (queue_declare a "session_ended"
          (record { durable = false; auto_delete = false; exclusive = true; no_wait = false }))

  -- `ConsumeQuestionStart` up to its loop; an error of the consumption is printed and no more.
  unfoldable pub open_question_start : A → String → Dict String → A × Dict String
  open_question_start a sid tags =
      let (a1, queue) = create_question_start_queue a sid in
      (
        (consume a1 (name_or_empty queue) (consumer_tag sid)).0,
        Dict.put tags sid (consumer_tag sid),
      )

-- `RealTimeRabbit`, with the state of the broker in place of the connection and the channel.
pub record RealTimeRabbit (A : Type 0) : Type 0 where
  pub broker : A
  pub session_started_q : String
  pub session_ended_q : String
  pub question_started_qs_tags : Dict String

module _ {A : Type 0} (channel : AmqpChannel A) where
  -- The end of `NewRealTimeRabbit`, once the first queue is there.
  abbrev pub second_queue : String → A × Result String → A × Result (RealTimeRabbit A)
  second_queue started (a, err e) = (a, err e)
  second_queue started (a, ok ended) = (
    a,
    ok (record {
      broker = a;
      session_started_q = started;
      session_ended_q = ended;
      question_started_qs_tags = [];
    }),
  )

  abbrev pub first_queue : A × Result String → A × Result (RealTimeRabbit A)
  first_queue (a, err e) = (a, err e)
  first_queue (a, ok started) = second_queue started (create_session_ended_queue channel a)

  -- `NewRealTimeRabbit` on a connection, where `opened` is the error of its channel.
  unfoldable pub new_real_time_rabbit : ErrorOr → A → A × Result (RealTimeRabbit A)
  new_real_time_rabbit (some e) a = (a, err e)
  new_real_time_rabbit none a = first_queue (create_session_started_queue channel a)
