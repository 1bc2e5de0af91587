-- ===== src/RealTime/Reading.antt =====
-- `handleRead` of backend-go/real_time/ws/message.go with the goroutines that it starts, from a
-- participant's first frame on, while one question is on.
pub mod Handled
use mathlib.Core.List.{append_assoc, append-nil, Perm}
use mathlib.Core.List.Perm
use try_it.Prelude.{
  ℕ, zero, suc, ◌≡◌, refl, sym, ap, subst, ◌∙◌, inl, inr, String, Bool, true, false, ◌&&◌, Option,
  none, some, List, [], ◌∷◌, ◌++◌, set, Run, ◌>>=◌, Returns, Returns-bind, Returns-mono, ◌==◌,
  eq_refl, eq_iff, arith, if◌then◌else◌, Bool-cases, Option-cases,
}
use try_it.Prelude.Int.{pos}
use try_it.Prelude.Dict
use try_it.Prelude.Dict.{Dict}
use try_it.Shared.Token.{role_participant}
use try_it.Shared.Quiz.{OngoingQuiz, UserAnswer, len}
use try_it.RealTime.Cache.{Cache}
use try_it.RealTime.Message.{ServerMessage, ClientMessage}
use try_it.RealTime.Registry.{ConnectionContext, Attempt, ConnectionRegistry, without_connection}
use try_it.RealTime.Registry.Delivery.{IsFree, unregister_free}
use try_it.RealTime.Registry.Online.{sent_to, logged, admins_of}
use try_it.RealTime.Tracker.Valid.{IsValid}
use try_it.RealTime.Tracker.Answers.{RowWritten, row_of, row_or_blank, or_blank}
use try_it.RealTime.Consumer.{HandlerDeps}
use try_it.RealTime.Handler.{
  Frame, message, garbage, hang_up, Turn, reads, runs, pick, handle_message, run_waiting,
  handle_read,
}
use try_it.RealTime.Answering.{graded_at, answer_notice, process_answer_lem}
use try_it.RealTime.Reading.Handled.{
  messages_of, hangs_up, last_of, last_written, notices, admins_left, IsRead, IsHandled, pick_lem,
  Answered, IsRead-cons,
}

module _ (writes : List Attempt → ConnectionContext → ServerMessage → Bool) {C : Type 0}
    (cache : Cache C) (ctx : ConnectionContext) (q : OngoingQuiz) (i : ℕ)
    (up : (log : List Attempt) (c : ConnectionContext) (m : ServerMessage) → writes log c m ≡ true)
    (player : (ctx.role == role_participant) ≡ true) (idx : q.curr_question_idx ≡ pos i) where
  rows_unchanged :
      (d : HandlerDeps C) (s v : String)
      → row_of d.tracker s v ≡ (
          if (ctx.session_id == s) && (ctx.user_id == v)
          then row_of d.tracker ctx.session_id ctx.user_id
          else row_of d.tracker s v)
  rows_unchanged d s v = ground (arith, eq_iff ctx.session_id s, eq_iff ctx.user_id v)

  handle_message-Answered :
      (m : ClientMessage) (d : HandlerDeps C)
      → IsFree d.registry
      → IsValid d.tracker
      → Dict.get d.tracker.tracker ctx.session_id ≡ some q
      → Returns (handle_message writes cache ctx m d) (Answered ctx q i d m)
  unfolding handle_message
  handle_message-Answered m d free v known =
      rw player (process_answer_lem writes cache ctx m d q i up free v known idx)

  -- Nothing was handled yet.
  IsRead-nil :
      (d : HandlerDeps C) → IsFree d.registry → IsValid d.tracker → IsRead d d ctx q i [] [] false
  unfolding notices last_of
  IsRead-nil d free v = record {
    valid = v;
    same_quizzes = refl;
    rows = rows_unchanged d;
    free = free;
    sent = sym (append-nil d.registry.attempts);
    connections = refl;
    none_after = refl;
  }

  -- What follows the goroutine of a message.
  handling :
      (m : ClientMessage) (d : HandlerDeps C)
      (rest : HandlerDeps C → Run (List ClientMessage × HandlerDeps C))
      (others arrived : List ClientMessage) (gone : Bool)
      → IsFree d.registry
      → IsValid d.tracker
      → Dict.get d.tracker.tracker ctx.session_id ≡ some q
      → Perm (m ∷ others) arrived
      → ((d1 : HandlerDeps C)
          → IsFree d1.registry
          → IsValid d1.tracker
          → Dict.get d1.tracker.tracker ctx.session_id ≡ some q
          → Returns (rest d1) (λ out. IsHandled d1 out.1 ctx q i others out.0 gone))
      → Returns
          (handle_message writes cache ctx m d >>= rest)
          (λ out. IsHandled d out.1 ctx q i arrived out.0 gone)
  handling m d rest others arrived gone free v known perm k =
      Returns-bind (handle_message writes cache ctx m d) rest (Answered ctx q i d m) _
        (handle_message-Answered m d free v known)
        (λ d1 (w, same).
          let known1 : Dict.get d1.tracker.tracker ctx.session_id ≡ some q =
            ap (λ (t : Dict OngoingQuiz). Dict.get t ctx.session_id) w.same_quizzes ∙ known in
          let free1 : IsFree d1.registry = subst IsFree (sym same) free in
          Returns-mono (rest d1) _ _ (k d1 free1 w.valid known1) (λ out h. record {
            before = m ∷ h.before;
            after = h.after;
            read = IsRead-cons ctx q i d d1 out.1 m h.before h.after gone known (w, same) h.read;
            all = Perm.trans (Perm.cons m h.all) perm;
          }))

  run_waiting_lem :
      (turns : List Turn) (waiting : List ClientMessage) (d : HandlerDeps C)
      → IsFree d.registry
      → IsValid d.tracker
      → Dict.get d.tracker.tracker ctx.session_id ≡ some q
      → Returns
          (run_waiting writes cache ctx turns waiting d)
          (λ out. IsHandled d out.1 ctx q i waiting out.0 false)
  unfolding run_waiting
  run_waiting_lem [] waiting d free v known = record {
    before = [];
    after = [];
    read = IsRead-nil d free v;
    all = Perm.refl waiting;
  }
  run_waiting_lem (reads frame ∷ turns) waiting d free v known =
      run_waiting_lem turns waiting d free v known
  run_waiting_lem (runs k ∷ turns) waiting d free v known = elim (Option-cases (pick k waiting)) [
    | inl e ↦ rw (e, run_waiting) (run_waiting_lem turns waiting d free v known)
    | inr ((m, others), e) ↦
        rw (e, run_waiting)
          (handling m d (run_waiting writes cache ctx turns others) others waiting false free v
            known (pick_lem k waiting m others e)
            (λ d1 free1 v1 known1. run_waiting_lem turns others d1 free1 v1 known1))
  ]

  -- The reader is over: its user is taken out, and what waits may run.
  hang_up-IsHandled :
      (d d' : HandlerDeps C) (waiting left : List ClientMessage)
      → IsHandled
          (record d {
            registry = record d.registry {
              connections = without_connection d.registry.connections ctx.session_id ctx.user_id;
              writer = false;
            };
          })
          d'
          ctx
          q
          i
          waiting
          left
          false
      → IsHandled d d' ctx q i (waiting ++ []) left true
  unfolding notices
  hang_up-IsHandled d d' waiting left h =
      let gone : ConnectionRegistry = record d.registry {
        connections = without_connection d.registry.connections ctx.session_id ctx.user_id;
        writer = false;
      } in
      let ran = h.before in
      let none_late : h.after ≡ [] = h.read.none_after in
      let all_ran : ran ++ h.after ≡ ran =
        ap (λ (ms : List ClientMessage). ran ++ ms) none_late ∙ append-nil ran in
      record {
        before = [];
        after = ran;
        read = record {
          valid = h.read.valid;
          same_quizzes = h.read.same_quizzes;
          rows = λ s v.
              h.read.rows s v
              ∙ ap
                  (λ (ms : List ClientMessage).
                    if (ctx.session_id == s) && (ctx.user_id == v)
                    then last_written q i (row_of d.tracker ctx.session_id ctx.user_id) (last_of ms)
                    else row_of d.tracker s v)
                  all_ran;
          free = h.read.free;
          sent =
              h.read.sent
              ∙ ap
                  (λ (ms : List ClientMessage).
                    d.registry.attempts
                    ++ (notices ctx.user_id (admins_left d.registry ctx) ran
                        ++ notices ctx.user_id (admins_left gone ctx) ms))
                  none_late
              ∙ ap (λ (xs : List Attempt). d.registry.attempts ++ xs)
                  (append-nil (notices ctx.user_id (admins_left d.registry ctx) ran));
          connections = h.read.connections;
          none_after = tt;
        };
        all = subst (Perm (ran ++ left)) (sym (append-nil waiting)) (
            subst (λ (ms : List ClientMessage). Perm (ran ++ (ms ++ left)) waiting) none_late
              h.all);
      }

  -- A participant sends any frames while question `i` is on and the tracker is valid, with a free lock
  -- and a network that takes every write. The reader starts a goroutine for each message, and reader
  -- and goroutines go on in any order of turns, each goroutine in one step, from any messages whose
  -- goroutines wait at first; those that the turns leave out still wait at the end. Nothing panics or
  -- waits for ever; every message that waited, or was read before the hang-up, was handled once or
  -- waits; the tracker is valid and the quizzes are as they were; the
  -- sender's row has the answer of the message that was handled last, which need not be the last that
  -- was sent, at place `i` and is otherwise as it was, as are all other rows; the lock is free; the
  -- admins who were registered then got one notice for each message that was handled; and the sender's connection is gone, from
  -- the hang-up on, if and only if there was one.
  pub handle_read_lem :
      (turns : List Turn) (waiting : List ClientMessage) (d : HandlerDeps C)
      → IsFree d.registry
      → IsValid d.tracker
      → Dict.get d.tracker.tracker ctx.session_id ≡ some q
      → Returns
          (handle_read writes cache ctx turns waiting d)
          (λ out. IsHandled d out.1 ctx q i (waiting ++ messages_of turns) out.0 (hangs_up turns))
  unfolding handle_read messages_of hangs_up
  handle_read_lem [] waiting d free v known = record {
    before = [];
    after = [];
    read = IsRead-nil d free v;
    all = subst (Perm waiting) (sym (append-nil waiting)) (Perm.refl waiting);
  }
  handle_read_lem (reads (message m) ∷ turns) waiting d free v known =
      subst
        (λ (ms : List ClientMessage).
          Returns (handle_read writes cache ctx turns (waiting ++ m ∷ []) d)
            (λ out. IsHandled d out.1 ctx q i ms out.0 (hangs_up turns)))
        (append_assoc waiting (m ∷ []) (messages_of turns))
        (handle_read_lem turns (waiting ++ m ∷ []) d free v known)
  handle_read_lem (reads garbage ∷ turns) waiting d free v known =
      handle_read_lem turns waiting d free v known
  handle_read_lem (reads hang_up ∷ turns) waiting d free v known =
      rw (unregister_free ctx.session_id ctx.user_id d.registry free) (
        Returns-mono (run_waiting writes cache ctx turns waiting _) _ _
          (run_waiting_lem turns waiting _ (free.0, refl) v known)
          (λ out h. hang_up-IsHandled d out.1 waiting out.0 h))
  handle_read_lem (runs k ∷ turns) waiting d free v known = elim (Option-cases (pick k waiting)) [
    | inl e ↦ rw (e, handle_read) (handle_read_lem turns waiting d free v known)
    | inr ((m, others), e) ↦
        rw (e, handle_read)
          (handling m d (handle_read writes cache ctx turns others) (others ++ messages_of turns)
            (waiting ++ messages_of turns) (hangs_up turns) free v known
            (Perm.append (pick_lem k waiting m others e) (Perm.refl (messages_of turns)))
            (λ d1 free1 v1 known1. handle_read_lem turns others d1 free1 v1 known1))
  ]
