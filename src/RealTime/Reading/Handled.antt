-- ===== src/RealTime/Reading/Handled.antt =====
-- What the goroutines of a reader of backend-go/real_time/ws/message.go did with its messages.
use mathlib.Core.List.{append_assoc, Perm}
use mathlib.Core.List.Perm
use try_it.Prelude.{
  ℕ, zero, suc, ◌≡◌, refl, sym, ap, subst, ◌∙◌, inl, inr, String, Bool, true, false, ◌&&◌, Option,
  none, some, List, [], ◌∷◌, ◌++◌, set, ◌==◌, eq_refl, if◌then◌else◌, Bool-cases, Option-cases,
}
use try_it.Prelude.Int.{pos}
use try_it.Prelude.Dict
use try_it.Prelude.Dict.{Dict}
use try_it.Shared.Quiz.{OngoingQuiz, UserAnswer, len}
use try_it.RealTime.Message.{ClientMessage}
use try_it.RealTime.Registry.{ConnectionContext, Attempt, ConnectionRegistry, without_connection}
use try_it.RealTime.Registry.Delivery.{IsFree}
use try_it.RealTime.Registry.Online.{sent_to, logged, admins_of}
use try_it.RealTime.Tracker.Valid.{IsValid}
use try_it.RealTime.Tracker.Answers.{RowWritten, row_of, row_or_blank, or_blank}
use try_it.RealTime.Consumer.{HandlerDeps}
use try_it.RealTime.Handler.{message, garbage, hang_up, Turn, reads, runs, pick}
use try_it.RealTime.Answering.{graded_at, answer_notice}

-- The messages that are read before the hang-up, and whether there is one.
unfoldable pub messages_of : List Turn → List ClientMessage
messages_of [] = []
messages_of (reads (message m) ∷ turns) = m ∷ messages_of turns
messages_of (reads garbage ∷ turns) = messages_of turns
messages_of (reads hang_up ∷ turns) = []
messages_of (runs k ∷ turns) = messages_of turns

unfoldable pub hangs_up : List Turn → Bool
hangs_up [] = false
hangs_up (reads (message m) ∷ turns) = hangs_up turns
hangs_up (reads garbage ∷ turns) = hangs_up turns
hangs_up (reads hang_up ∷ turns) = true
hangs_up (runs k ∷ turns) = hangs_up turns

unfoldable pub last_of : List ClientMessage → Option ClientMessage
last_of [] = none
last_of (m ∷ more) = elim (last_of more) [ none ↦ some m | some k ↦ some k ]

-- The row that has the last message's answer at the place of the question, if there is a message.
abbrev pub last_written :
    OngoingQuiz → ℕ → Option (List UserAnswer) → Option ClientMessage → Option (List UserAnswer)
last_written q i row none = row
last_written q i row (some m) =
    some (set (or_blank (len q.quiz_data) row) i (graded_at q (pos i) m))

-- One notice for each message.
unfoldable pub notices : String → List ConnectionContext → List ClientMessage → List Attempt
notices uid admins [] = []
notices uid admins (m ∷ more) = sent_to (answer_notice uid) admins ++ notices uid admins more

set-set : (xs : List UserAnswer) (i : ℕ) (a b : UserAnswer) → set (set xs i a) i b ≡ set xs i b
set-set [] i a b = refl
set-set (x ∷ xs) zero a b = refl
set-set (x ∷ xs) (suc i) a b = ap (◌∷◌ x) (set-set xs i a b)

last_written-cons :
    (q : OngoingQuiz) (i : ℕ) (row : Option (List UserAnswer)) (m : ClientMessage)
    (more : List ClientMessage)
    → last_written q i (last_written q i row (some m)) (last_of more)
      ≡ last_written q i row (last_of (m ∷ more))
unfolding last_of
last_written-cons q i row m more = elim (Option-cases (last_of more)) [
  | inl e ↦ rw e refl
  | inr (k, e) ↦ rw e (ap some (set-set (or_blank (len q.quiz_data) row) i _ _))
]

-- The admins once the sender's connection is gone.
abbrev pub admins_left : ConnectionRegistry → ConnectionContext → List ConnectionContext
admins_left r ctx =
    admins_of
      (record r { connections = without_connection r.connections ctx.session_id ctx.user_id })
      ctx.session_id

-- Nothing is handled after a hang-up that there is not.
abbrev pub NoneAfter : Bool → List ClientMessage → Type 0
NoneAfter true after = Unit
NoneAfter false after = after ≡ []

-- What the goroutines of a reader did with the messages `before` its end and those `after` it, each in
-- the order in which they ran.
pub record IsRead {C : Type 0} (d d' : HandlerDeps C) (ctx : ConnectionContext) (q : OngoingQuiz)
    (i : ℕ) (before after : List ClientMessage) (gone : Bool) : Type 0 where
  pub valid : IsValid d'.tracker
  pub same_quizzes : d'.tracker.tracker ≡ d.tracker.tracker
  pub rows :
      (s v : String)
      → row_of d'.tracker s v ≡ (
          if (ctx.session_id == s) && (ctx.user_id == v)
          then last_written q i
              (row_of d.tracker ctx.session_id ctx.user_id)
              (last_of (before ++ after))
          else row_of d.tracker s v)
  pub free : IsFree d'.registry
  pub sent :
      d'.registry.attempts
      ≡ d.registry.attempts
        ++ (notices ctx.user_id (admins_of d.registry ctx.session_id) before
            ++ notices ctx.user_id (admins_left d.registry ctx) after)
  pub connections : d'.registry.connections ≡ (
      if gone
      then without_connection d.registry.connections ctx.session_id ctx.user_id
      else d.registry.connections)
  pub none_after : NoneAfter gone after

-- Every message of `arrived` ran once or still waits.
pub record IsHandled {C : Type 0} (d d' : HandlerDeps C) (ctx : ConnectionContext) (q : OngoingQuiz)
    (i : ℕ) (arrived waiting : List ClientMessage) (gone : Bool) : Type 0 where
  pub before : List ClientMessage
  pub after : List ClientMessage
  pub read : IsRead d d' ctx q i before after gone
  pub all : Perm (before ++ (after ++ waiting)) arrived

-- The message that was picked, in front of the others.
abbrev picked :
    List ClientMessage → Option (ClientMessage × List ClientMessage) → List ClientMessage
picked ms none = ms
picked ms (some (m, others)) = m ∷ others

picked-Perm : (k : ℕ) (ms : List ClientMessage) → Perm (picked ms (pick k ms)) ms
unfolding pick
picked-Perm k [] = Perm.refl []
picked-Perm zero (n ∷ more) = Perm.refl (n ∷ more)
picked-Perm (suc k) (n ∷ more) = elim (Option-cases (pick k more)) [
  | inl e ↦ rw e (Perm.refl (n ∷ more))
  | inr ((m, others), e) ↦
      let found = picked-Perm k more in
      rw e (Perm.trans (Perm.swap n m others) (Perm.cons n (rw e at found)))
]

pub pick_lem :
    (k : ℕ) (ms : List ClientMessage) (m : ClientMessage) (others : List ClientMessage)
    → pick k ms ≡ some (m, others)
    → Perm (m ∷ others) ms
pick_lem k ms m others h =
    subst (λ (o : Option (ClientMessage × List ClientMessage)). Perm (picked ms o) ms) h
      (picked-Perm k ms)

module _ {C : Type 0} (ctx : ConnectionContext) (q : OngoingQuiz) (i : ℕ) where
  -- The state after one answer, as `process_answer_lem` gives it.
  abbrev pub Answered : HandlerDeps C → ClientMessage → HandlerDeps C → Type 0
  Answered d m d1 =
      RowWritten d.tracker d1.tracker ctx.session_id ctx.user_id
        (set (row_or_blank d.tracker ctx.session_id ctx.user_id) i (graded_at q (pos i) m))
      × (d1.registry
          ≡ logged d.registry
              (sent_to (answer_notice ctx.user_id) (admins_of d.registry ctx.session_id)))

  own_row :
      (d d1 : HandlerDeps C) (m : ClientMessage)
      → Dict.get d.tracker.tracker ctx.session_id ≡ some q
      → Answered d m d1
      → row_of d1.tracker ctx.session_id ctx.user_id
        ≡ last_written q i (row_of d.tracker ctx.session_id ctx.user_id) (some m)
  own_row d d1 m known (w, same) =
      w.rows ctx.session_id ctx.user_id
      ∙ (rw (eq_refl ctx.session_id, eq_refl ctx.user_id) (rw known refl))

  -- The rows after one answer and a reader.
  rows-cons :
      (d d1 d' : HandlerDeps C) (m : ClientMessage) (before after : List ClientMessage)
      (gone : Bool)
      → Dict.get d.tracker.tracker ctx.session_id ≡ some q
      → Answered d m d1
      → IsRead d1 d' ctx q i before after gone
      → (s v : String)
      → row_of d'.tracker s v ≡ (
          if (ctx.session_id == s) && (ctx.user_id == v)
          then last_written q i
              (row_of d.tracker ctx.session_id ctx.user_id)
              (last_of (m ∷ before ++ after))
          else row_of d.tracker s v)
  rows-cons d d1 d' m before after gone known (w, same) r s v =
      let other_rows = r.rows s v in
      let rows_before = w.rows s v in
      elim (Bool-cases ((ctx.session_id == s) && (ctx.user_id == v))) [
        | inl e ↦
            let theirs = (rw e at other_rows) in
            rw e (
              theirs
              ∙ ap
                  (λ (row : Option (List UserAnswer)).
                    last_written q i row (last_of (before ++ after)))
                  (own_row d d1 m known (w, same))
              ∙ last_written-cons q i (row_of d.tracker ctx.session_id ctx.user_id) m
                  (before ++ after))
        | inr e ↦
            let theirs = (rw e at other_rows) in
            let before = (rw e at rows_before) in rw e (theirs ∙ before)
      ]

  pub IsRead-cons :
      (d d1 d' : HandlerDeps C) (m : ClientMessage) (before after : List ClientMessage)
      (gone : Bool)
      → Dict.get d.tracker.tracker ctx.session_id ≡ some q
      → Answered d m d1
      → IsRead d1 d' ctx q i before after gone
      → IsRead d d' ctx q i (m ∷ before) after gone
  unfolding notices
  IsRead-cons d d1 d' m before after gone known (w, same) r =
      let admins = admins_of d.registry ctx.session_id in
      let own = sent_to (answer_notice ctx.user_id) admins in
      let more = notices ctx.user_id admins before in
      let late = notices ctx.user_id (admins_left d.registry ctx) after in
      record {
        valid = r.valid;
        same_quizzes = r.same_quizzes ∙ w.same_quizzes;
        rows = rows-cons d d1 d' m before after gone known (w, same) r;
        free = r.free;
        sent =
            r.sent
            ∙ ap
                (λ (g : ConnectionRegistry).
                  g.attempts
                  ++ (notices ctx.user_id (admins_of g ctx.session_id) before
                      ++ notices ctx.user_id (admins_left g ctx) after))
                same
            ∙ append_assoc d.registry.attempts own (more ++ late)
            ∙ ap (λ (xs : List Attempt). d.registry.attempts ++ xs)
                (sym (append_assoc own more late));
        connections =
            r.connections
            ∙ ap
                (λ (g : ConnectionRegistry).
                  if gone
                  then without_connection g.connections ctx.session_id ctx.user_id
                  else g.connections)
                same;
        none_after = r.none_after;
      }
