-- ===== src/RealTime/Queues/Routing.antt =====
-- Which events of backend-go/SessionService reach which queue of backend-go/real_time/rabbit.
use Prim.Native.Char.{Char, code}
use text.Mathlib.TextLemmas.{
  append_cancel_left, append_cancel_right, cons-append, head-eq_of_cons-eq,
}
use try_it.Prelude.{
  ℕ, ◌≡◌, ◌≢◌, refl, sym, ap, subst, ◌∙◌, String, Bool, true, false, ◌&&◌, ◌||◌, none, some, List,
  [], ◌∷◌, arith, ◌==◌, eq_iff, eq_refl, get_elem?,
}
use try_it.Prelude.Text.{join}
use try_it.Prelude.Split.{
  lacks, lacks-join, split, split_cons, split_ends, replace_first, replace_first_lem,
}
use try_it.Shared.Errors.{Result, ok, ErrorOr}
use try_it.Shared.Name.{is_wild, IsName, IsName-no_dot, IsName-no_wild}
use try_it.Session.Broker.{
  QuizMessage, Channel, session_start, session_end, question_start, publish_session_start,
  publish_session_end, publish_question_start,
}
use try_it.RealTime.Consumer.{consumer_tag}
use try_it.RealTime.Queues.{
  QueueFlags, AmqpChannel, RealTimeRabbit, question_queue, question_start_routing_key,
  session_exchange, create_question_start_queue, create_session_started_queue,
  create_session_ended_queue, open_question_start, new_real_time_rabbit, bind_declared, first_queue,
  second_queue, bound,
}

-- A topic exchange, on a broker that answers: `delivered a queue key` says whether a message with a
-- routing key reaches a queue. A binding key without a wildcard takes that routing key only.
pub record AmqpLaws {A : Type 0} (channel : AmqpChannel A) (delivered : A → String → String → Bool)
    : Type 0 where
  pub declare_works :
      (a : A) (queue : String) (flags : QueueFlags)
      → (channel.queue_declare a queue flags).1 ≡ ok queue
  pub declare_routes :
      (a : A) (queue : String) (flags : QueueFlags) (p k : String)
      → delivered (channel.queue_declare a queue flags).0 p k ≡ delivered a p k
  pub bind_works :
      (a : A) (queue key : String) → (channel.queue_bind a queue key session_exchange).1 ≡ none
  pub bind_routes :
      (a : A) (queue key p k : String)
      → lacks is_wild key ≡ true
      → delivered (channel.queue_bind a queue key session_exchange).0 p k
        ≡ ((queue == p && key == k) || delivered a p k)
  pub consume_routes :
      (a : A) (queue tag p k : String)
      → delivered (channel.consume a queue tag).0 p k ≡ delivered a p k

-- The key that `CreateQuestionStartQueue` binds is the one that the session service publishes under.
pub replace_first-key :
    (sid : String) → replace_first b'*' sid question_start_routing_key ≡ question_queue sid
unfolding lacks
replace_first-key sid = replace_first_lem "*" sid "question." ".start" refl

question_queue_inj : (a b : String) → question_queue a ≡ question_queue b → a ≡ b
question_queue_inj a b e = append_cancel_right a b _ (append_cancel_left _ _ _ e)

pub question_queue-eq : (a b : String) → (question_queue a == question_queue b) ≡ (a == b)
question_queue-eq a b = ground (
  arith,
  eq_iff a b,
  eq_iff (question_queue a) (question_queue b),
  question_queue_inj a b,
  ap question_queue {x = a} {y = b},
)

-- It starts with a letter that the other names do not start with.
q_not_s : ◌≢◌ {A = Char} "q" "s"
q_not_s e = let h : ◌≡◌ {A = ℕ} 113 115 = ap code e in omega arith

question_queue-ne : (sid s : String) → question_queue sid ≢ String.◌∷◌ "s" s
question_queue-ne sid s e =
    q_not_s (head-eq_of_cons-eq (sym (cons-append "q" "uestion." (join sid ".start")) ∙ e))

question_queue-ne' : (sid s : String) → String.◌∷◌ "s" s ≢ question_queue sid
question_queue-ne' sid s e = question_queue-ne sid s (sym e)

other_key : (sid s : String) → (question_queue sid == String.◌∷◌ "s" s) ≡ false
other_key sid s =
    ground (arith, eq_iff (question_queue sid) (String.◌∷◌ "s" s), question_queue-ne sid s)

key_other : (sid s : String) → (String.◌∷◌ "s" s == question_queue sid) ≡ false
key_other sid s =
    ground (arith, eq_iff (String.◌∷◌ "s" s) (question_queue sid), question_queue-ne' sid s)

-- The session of a routing key, as the consumer reads it.
pub split-question_queue :
    (sid : String) → IsName sid → split b'.' (question_queue sid) ≡ "question" ∷ sid ∷ "start" ∷ []
unfolding lacks split
split-question_queue sid h =
    split_ends "." "question" (join sid ".start") refl
    ∙ ap (◌∷◌ "question") (split_cons "." sid "start" (IsName-no_dot sid h))

or_false : (b : Bool) → (b || false) ≡ b
or_false true = refl
or_false false = refl

module _ {A : Type 0} (channel : AmqpChannel A) (delivered : A → String → String → Bool)
    (laws : AmqpLaws channel delivered) where
  -- A queue that is declared and bound under a key without a wildcard.
  abbrev Binds : A → A × Result String → String → String → Type 0
  Binds a made queue key =
      (made.1 ≡ ok queue)
      × ((p k : String) → delivered made.0 p k ≡ ((queue == p && key == k) || delivered a p k))

  bind_declared-Binds :
      (rename : String → String) (a : A) (queue key : String) (flags : QueueFlags)
      → rename queue ≡ queue
      → lacks is_wild key ≡ true
      → Binds a (bind_declared channel rename key (channel.queue_declare a queue flags)) queue key
  bind_declared-Binds rename a queue key flags same plain =
      let a1 = (channel.queue_declare a queue flags).0 in
      let a2 = (channel.queue_bind a1 queue key session_exchange).0 in
      subst
        (λ (made : A × Result String). Binds a (bind_declared channel rename key made) queue key)
        (ap (λ (r : Result String). (a1, r)) (sym (laws.declare_works a queue flags)))
        (subst
          (λ (name : String).
            Binds a (bound queue (channel.queue_bind a1 name key session_exchange)) queue key)
          (sym same)
          (subst (λ (e : ErrorOr). Binds a (bound queue (a2, e)) queue key)
            (sym (laws.bind_works a1 queue key))
            (
              refl,
              λ p k.
                  laws.bind_routes a1 queue key p k plain
                  ∙ ap (λ (b : Bool). (queue == p && key == k) || b)
                      (laws.declare_routes a queue flags p k),
            )))

  question_start-Binds :
      (a : A) (sid : String)
      → IsName sid
      → Binds a
          (create_question_start_queue channel a sid)
          (question_queue sid)
          (question_queue sid)
  unfolding create_question_start_queue lacks is_wild
  question_start-Binds a sid h = rw (replace_first-key sid) (
      bind_declared-Binds (λ name. question_queue sid) a (question_queue sid) (question_queue sid) _
        refl
        (lacks-join is_wild "question." (join sid ".start") refl
          (lacks-join is_wild sid ".start" (IsName-no_wild sid h) refl)))

  session_started-Binds :
      (a : A) → Binds a (create_session_started_queue channel a) "session_started" "session.start"
  unfolding create_session_started_queue lacks is_wild
  session_started-Binds a =
      bind_declared-Binds (λ name. name) a "session_started" "session.start" _ refl refl

  session_ended-Binds :
      (a : A) → Binds a (create_session_ended_queue channel a) "session_ended" "session.end"
  unfolding create_session_ended_queue lacks is_wild
  session_ended-Binds a =
      bind_declared-Binds (λ name. name) a "session_ended" "session.end" _ refl refl

  -- The broker once the service has started.
  abbrev started_broker : A → A
  started_broker a =
      (create_session_ended_queue channel (create_session_started_queue channel a).0).0

  new_real_time_rabbit-started :
      (a : A)
      → new_real_time_rabbit channel none a ≡ (
        started_broker a,
        ok (record {
          broker = started_broker a;
          session_started_q = "session_started";
          session_ended_q = "session_ended";
          question_started_qs_tags = [];
        }),
      )
  unfolding new_real_time_rabbit
  new_real_time_rabbit-started a =
      let a1 = (create_session_started_queue channel a).0 in
      ap (λ (r : Result String). first_queue channel (a1, r)) (session_started-Binds a).0
      ∙ ap (λ (r : Result String). second_queue channel "session_started" (started_broker a, r))
          (session_ended-Binds a1).0

  -- The broker once a consumer of the questions of a session listens too.
  abbrev pub listening : A → String → A
  listening a sid = (open_question_start channel (new_real_time_rabbit channel none a).0 sid []).0

  listening-routes :
      (a : A) (sid p k : String)
      → IsName sid
      → ((q j : String) → delivered a q j ≡ false)
      → delivered (listening a sid) p k ≡ (
          (question_queue sid == p && question_queue sid == k)
          || (("session_ended" == p && "session.end" == k)
              || (("session_started" == p && "session.start" == k) || false)))
  unfolding open_question_start
  listening-routes a sid p k h fresh =
      let a1 = (create_session_started_queue channel a).0 in
      ap
        (λ (made : A × Result (RealTimeRabbit A)).
          delivered (open_question_start channel made.0 sid []).0 p k)
        (new_real_time_rabbit-started a)
      ∙ laws.consume_routes (create_question_start_queue channel (started_broker a) sid).0 _
          (consumer_tag sid) p k
      ∙ (question_start-Binds (started_broker a) sid h).1 p k
      ∙ ap (λ (b : Bool). (question_queue sid == p && question_queue sid == k) || b)
          ((session_ended-Binds a1).1 p k
            ∙ ap (λ (b : Bool). ("session_ended" == p && "session.end" == k) || b)
                ((session_started-Binds a).1 p k
                  ∙ ap (λ (b : Bool). ("session_started" == p && "session.start" == k) || b)
                      (fresh p k)))

  -- On a broker that answers and has no bindings yet, once the service has made its two queues and
  -- listens for the questions of a session, and for ids and codes that are names, as the drawn codes
  -- are (of any other text that a path may hold nothing is said): a "next question" that the session
  -- service publishes for a code reaches the queue of that session if and only if the code is its id,
  -- and neither of the two other queues; and the second part of its routing key, which the consumer
  -- takes for the session, is the code.
  pub publish_question_start_lem :
      {B : Type 0} (ch : Channel B) (b : B) (a : A) (sid code payload : String)
      → IsName sid
      → IsName code
      → ((q j : String) → delivered a q j ≡ false)
      → (key : String) × (publish_question_start ch b code payload
          ≡ ch.publish b key (question_start payload))
        × (delivered (listening a sid) (question_queue sid) key ≡ (sid == code))
        × (delivered (listening a sid) "session_started" key ≡ false)
        × (delivered (listening a sid) "session_ended" key ≡ false)
        × (get_elem? (split b'.' key) 1 ≡ some code)
  unfolding publish_question_start
  publish_question_start_lem ch b a sid code payload h g fresh =
      let key = question_queue code in
      (
        key,
        refl,
        listening-routes a sid (question_queue sid) key h fresh
            ∙ rw
                (
                  eq_refl (question_queue sid),
                  question_queue-eq sid code,
                  key_other sid "ession_ended",
                  key_other sid "ession_started",
                )
                (or_false (sid == code)),
        listening-routes a sid "session_started" key h fresh
            ∙ rw (other_key sid "ession_started", key_other code "ession.start") refl,
        listening-routes a sid "session_ended" key h fresh
            ∙ rw (other_key sid "ession_ended", key_other code "ession.end") refl,
        ap (λ (parts : List String). get_elem? parts 1) (split-question_queue code g),
      )

  -- The same broker: the start of a session reaches the queue of starts and no other, and its end
  -- reaches the queue of ends and no other, whatever the code is.
  pub publish_session_lem :
      {B : Type 0} (ch : Channel B) (b : B) (a : A) (sid code payload : String) (m : QuizMessage)
      → IsName sid
      → ((q j : String) → delivered a q j ≡ false)
      → ((key : String) × (publish_session_start ch b m ≡ ch.publish b key (session_start m))
          × (delivered (listening a sid) "session_started" key ≡ true)
          × (delivered (listening a sid) "session_ended" key ≡ false)
          × (delivered (listening a sid) (question_queue sid) key ≡ false))
        × ((key : String) × (publish_session_end ch b code payload
              ≡ ch.publish b key (session_end code))
            × (delivered (listening a sid) "session_started" key ≡ false)
            × (delivered (listening a sid) "session_ended" key ≡ true)
            × (delivered (listening a sid) (question_queue sid) key ≡ false))
  unfolding publish_session_start publish_session_end
  publish_session_lem ch b a sid code payload m h fresh = (
    (
      "session.start",
      refl,
      listening-routes a sid "session_started" "session.start" h fresh
          ∙ rw (other_key sid "ession_started") refl,
      listening-routes a sid "session_ended" "session.start" h fresh
          ∙ rw (other_key sid "ession_ended") refl,
      listening-routes a sid (question_queue sid) "session.start" h fresh
          ∙ rw
              (
                other_key sid "ession.start",
                key_other sid "ession_ended",
                key_other sid "ession_started",
                eq_refl (question_queue sid),
              )
              refl,
    ),
    (
      "session.end",
      refl,
      listening-routes a sid "session_started" "session.end" h fresh
          ∙ rw (other_key sid "ession_started") refl,
      listening-routes a sid "session_ended" "session.end" h fresh
          ∙ rw (other_key sid "ession_ended") refl,
      listening-routes a sid (question_queue sid) "session.end" h fresh
          ∙ rw
              (
                other_key sid "ession.end",
                key_other sid "ession_ended",
                key_other sid "ession_started",
                eq_refl (question_queue sid),
              )
              refl,
    ),
  )
