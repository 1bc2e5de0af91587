-- ===== src/RealTime/Opening.antt =====
-- `ConsumeSessionStart` of backend-go/real_time/rabbit/session.go over all its deliveries.
use try_it.Prelude.{
  ◌≡◌, refl, sym, ap, ◌∙◌, inl, inr, String, Bool, true, false, Option, none, some, List, [], ◌∷◌,
  ◌==◌, eq_iff, Run, panics, Returns, Returns-bind, Returns-mono, if◌then◌else◌, Bool-cases,
  Option-cases,
}
use try_it.Prelude.Int.{negsuc}
use try_it.Prelude.Dict
use try_it.Prelude.Dict.{Dict, get-put}
use try_it.Shared.Errors.{ErrorOr}
use try_it.Shared.Quiz.{Quiz, OngoingQuiz}
use try_it.Shared.Scores.{SessionAnswers}
use try_it.RealTime.Cache.{Cache}
use try_it.RealTime.Message.{ServerMessage}
use try_it.RealTime.Registry.{ConnectionContext, Attempt, ConnectionRegistry, register_session}
use try_it.RealTime.Registry.Delivery.{IsFree}
use try_it.RealTime.Registry.Sessions.{or_empty, register_session_lem}
use try_it.RealTime.Tracker.{QuizTracker, new_session}
use try_it.RealTime.Tracker.Valid.{IsValid, new_session-IsValid}
use try_it.RealTime.Leaderboard.{HttpReply}
use try_it.RealTime.Consumer.{HandlerDeps, session_started}
use try_it.RealTime.Queues.{AmqpChannel, RealTimeRabbit}
use try_it.RealTime.Consuming.{start_loop, consume_session_start}

-- The first quiz that the bodies bring for a session.
unfoldable pub first_quiz : String → List (Option (String × Quiz)) → Option Quiz
first_quiz j [] = none
first_quiz j (none ∷ bodies) = first_quiz j bodies
first_quiz j (some (sid, quiz) ∷ bodies) = if sid == j then some quiz else first_quiz j bodies

abbrev pub not_begun : Option Quiz → Option OngoingQuiz
not_begun none = none
not_begun (some quiz) = some (record { curr_question_idx = negsuc 0; quiz_data = quiz })

-- The quiz of a session after its start events: `there` says whether a user was connected to the
-- session before them, and `old` is the quiz that the tracker had.
abbrev pub quiz_after : Bool → Option OngoingQuiz → Option Quiz → Option OngoingQuiz
quiz_after true old first = old
quiz_after false (some q) first = some q
quiz_after false none first = not_begun first

abbrev pub has_or_begun : Bool → Option Quiz → Bool
has_or_begun there none = there
has_or_begun there (some quiz) = true

-- The first of two results.
abbrev or_else : Option Quiz → Option Quiz → Option Quiz
or_else none g = g
or_else (some quiz) g = some quiz

quiz_after_nil : (there : Bool) (old : Option OngoingQuiz) → quiz_after there old none ≡ old
quiz_after_nil true old = refl
quiz_after_nil false none = refl
quiz_after_nil false (some q) = refl

quiz_after-or_else :
    (there : Bool) (old : Option OngoingQuiz) (f g : Option Quiz)
    → quiz_after (has_or_begun there f) (quiz_after there old f) g
      ≡ quiz_after there old (or_else f g)
quiz_after-or_else there old none g =
    ap (λ (o : Option OngoingQuiz). quiz_after there o g) (quiz_after_nil there old)
quiz_after-or_else there old (some quiz) g = refl

has_or_begun-or_else :
    (there : Bool) (f g : Option Quiz)
    → has_or_begun (has_or_begun there f) g ≡ has_or_begun there (or_else f g)
has_or_begun-or_else there none g = refl
has_or_begun-or_else there (some quiz) none = refl
has_or_begun-or_else there (some quiz) (some other) = refl

first_quiz-cons :
    (j : String) (body : Option (String × Quiz)) (bodies : List (Option (String × Quiz)))
    → or_else (first_quiz j (body ∷ [])) (first_quiz j bodies) ≡ first_quiz j (body ∷ bodies)
unfolding first_quiz
first_quiz-cons j none bodies = refl
first_quiz-cons j (some (sid, quiz)) bodies = elim (Bool-cases (sid == j)) [
  | inl e ↦ rw e refl
  | inr e ↦ rw e refl
]

module _ (writes : List Attempt → ConnectionContext → ServerMessage → Bool)
    (post : SessionAnswers → HttpReply) {C : Type 0} (cache : Cache C) where
  new_session-get :
      (t : QuizTracker C) (sid : String) (quiz : Quiz) (j : String)
      → Dict.get (new_session cache t sid quiz).tracker j ≡ (
          if sid == j
          then quiz_after false (Dict.get t.tracker sid) (some quiz)
          else Dict.get t.tracker j)
  unfolding new_session
  new_session-get t sid quiz j = elim (Option-cases (Dict.get t.tracker sid)) [
    | inl e ↦ rw (e, new_session) (get-put t.tracker sid j _)
    | inr (q, e) ↦
        rw (e, new_session)
          (elim (Bool-cases (sid == j)) [
            | inl same ↦ rw same (ap (Dict.get t.tracker) (sym ((eq_iff sid j).0 same)) ∙ e)
            | inr other ↦ rw other refl
          ])
  ]

  -- The state after one body.
  pub record IsOpened (d d' : HandlerDeps C) (bodies : List (Option (String × Quiz))) : Type 0 where
    pub valid : IsValid d'.tracker
    pub free : IsFree d'.registry
    pub quizzes :
        (j : String)
        → Dict.get d'.tracker.tracker j
          ≡ quiz_after
              (Dict.has d.registry.connections j)
              (Dict.get d.tracker.tracker j)
              (first_quiz j bodies)
    pub there :
        (j : String)
        → Dict.has d'.registry.connections j
          ≡ has_or_begun (Dict.has d.registry.connections j) (first_quiz j bodies)

  -- What a run does where the broker refuses the consumption, and where it does not.
  abbrev pub OpensUnless :
      ErrorOr
      → Run (HandlerDeps C × Dict String)
      → HandlerDeps C
      → List (Option (String × Quiz))
      → Type 0
  OpensUnless (some e) run d bodies = run ≡ panics
  OpensUnless none run d bodies = Returns run (λ out. IsOpened d out.0 bodies)

  has_after :
      (r r' : ConnectionRegistry) (sid j : String)
      → ((s : String)
          → Dict.get r'.connections s ≡ (
              if sid == s
              then some (or_empty (Dict.get r.connections s))
              else Dict.get r.connections s))
      → Dict.has r'.connections j ≡ (if sid == j then true else Dict.has r.connections j)
  unfolding Dict.has
  has_after r r' sid j h =
      rw (h j, Dict.has) (elim (Bool-cases (sid == j)) [ inl e ↦ rw e refl | inr e ↦ rw e refl ])

  IsOpened-cons :
      (d d1 d2 : HandlerDeps C) (body : Option (String × Quiz))
      (bodies : List (Option (String × Quiz)))
      → IsOpened d d1 (body ∷ [])
      → IsOpened d1 d2 bodies
      → IsOpened d d2 (body ∷ bodies)
  IsOpened-cons d d1 d2 body bodies a b = record {
    valid = b.valid;
    free = b.free;
    quizzes = λ j.
        let there = Dict.has d.registry.connections j in
        let old = Dict.get d.tracker.tracker j in
        b.quizzes j
        ∙ ap (λ (t : Bool). quiz_after t (Dict.get d1.tracker.tracker j) (first_quiz j bodies))
            (a.there j)
        ∙ ap
            (λ (o : Option OngoingQuiz).
              quiz_after (has_or_begun there (first_quiz j (body ∷ []))) o (first_quiz j bodies))
            (a.quizzes j)
        ∙ quiz_after-or_else there old (first_quiz j (body ∷ [])) (first_quiz j bodies)
        ∙ ap (quiz_after there old) (first_quiz-cons j body bodies);
    there = λ j.
        let there = Dict.has d.registry.connections j in
        b.there j
        ∙ ap (λ (t : Bool). has_or_begun t (first_quiz j bodies)) (a.there j)
        ∙ has_or_begun-or_else there (first_quiz j (body ∷ [])) (first_quiz j bodies)
        ∙ ap (has_or_begun there) (first_quiz-cons j body bodies);
  }

  IsOpened-none :
      (d : HandlerDeps C) (bodies : List (Option (String × Quiz)))
      → ((j : String) → first_quiz j bodies ≡ none)
      → IsValid d.tracker
      → IsFree d.registry
      → IsOpened d d bodies
  IsOpened-none d bodies empty v free = record {
    valid = v;
    free = free;
    quizzes = λ j.
        rw (empty j)
          (sym (quiz_after_nil (Dict.has d.registry.connections j) (Dict.get d.tracker.tracker j)));
    there = λ j. rw (empty j) refl;
  }

  one_there :
      (r r' : ConnectionRegistry) (sid : String) (quiz : Quiz)
      → ((s : String)
          → Dict.get r'.connections s ≡ (
              if sid == s
              then some (or_empty (Dict.get r.connections s))
              else Dict.get r.connections s))
      → (j : String)
      → Dict.has r'.connections j
        ≡ has_or_begun (Dict.has r.connections j) (if sid == j then some quiz else none)
  one_there r r' sid quiz h j =
      has_after r r' sid j h
      ∙ (elim (Bool-cases (sid == j)) [ inl e ↦ rw e refl | inr e ↦ rw e refl ])

  -- The quizzes after the event of a session that was there, and of one that was not.
  one_known :
      (r : ConnectionRegistry) (sid : String) (quiz : Quiz) (t : QuizTracker C)
      → Dict.has r.connections sid ≡ true
      → (j : String)
      → Dict.get t.tracker j
        ≡ quiz_after
            (Dict.has r.connections j)
            (Dict.get t.tracker j)
            (if sid == j then some quiz else none)
  one_known r sid quiz t known j = elim (Bool-cases (sid == j)) [
    | inl e ↦
        let there : Dict.has r.connections j ≡ true =
          ap (Dict.has r.connections) (sym ((eq_iff sid j).0 e)) ∙ known in
        rw there refl
    | inr e ↦ rw e (sym (quiz_after_nil (Dict.has r.connections j) (Dict.get t.tracker j)))
  ]

  one_new :
      (r : ConnectionRegistry) (sid : String) (quiz : Quiz) (t : QuizTracker C)
      → Dict.has r.connections sid ≡ false
      → (j : String)
      → Dict.get (new_session cache t sid quiz).tracker j
        ≡ quiz_after
            (Dict.has r.connections j)
            (Dict.get t.tracker j)
            (if sid == j then some quiz else none)
  one_new r sid quiz t new j = new_session-get t sid quiz j ∙ (elim (Bool-cases (sid == j)) [
    | inl e ↦
        let same = (eq_iff sid j).0 e in
        let absent : Dict.has r.connections j ≡ false =
          ap (Dict.has r.connections) (sym same) ∙ new in
        rw (e, absent)
          (ap (λ (k : String). quiz_after false (Dict.get t.tracker k) (some quiz)) same)
    | inr e ↦ rw e (sym (quiz_after_nil (Dict.has r.connections j) (Dict.get t.tracker j)))
  ])

  session_started-IsOpened :
      (body : Option (String × Quiz)) (d : HandlerDeps C) (tags : Dict String)
      → IsValid d.tracker
      → IsFree d.registry
      → Returns
          (session_started writes post cache body d tags)
          (λ out. IsOpened d out.0 (body ∷ []))
  unfolding session_started first_quiz
  session_started-IsOpened none d tags v free = IsOpened-none d (none ∷ []) (λ j. refl) v free
  session_started-IsOpened (some (sid, quiz)) d tags v free =
      Returns-bind (register_session sid d.registry) _ _ _
        (register_session_lem sid d.registry free)
        (λ out (registered, sessions, free').
          elim (Bool-cases (Dict.has d.registry.connections sid)) [
            | inl known ↦
                rw (registered, known)
                  (record {
                    valid = v;
                    free = free';
                    quizzes = one_known d.registry sid quiz d.tracker known;
                    there = one_there d.registry out.1 sid quiz sessions;
                  })
            | inr new ↦
                rw (registered, new)
                  (record {
                    valid = new_session-IsValid cache d.tracker sid quiz v;
                    free = free';
                    quizzes = one_new d.registry sid quiz d.tracker new;
                    there = one_there d.registry out.1 sid quiz sessions;
                  })
          ])

  start_loop-IsOpened :
      (bodies : List (Option (String × Quiz))) (d : HandlerDeps C) (tags : Dict String)
      → IsValid d.tracker
      → IsFree d.registry
      → Returns (start_loop writes post cache bodies d tags) (λ out. IsOpened d out.0 bodies)
  unfolding start_loop first_quiz
  start_loop-IsOpened [] d tags v free = IsOpened-none d [] (λ j. refl) v free
  start_loop-IsOpened (body ∷ bodies) d tags v free =
      Returns-bind (session_started writes post cache body d tags) _
        (λ out. IsOpened d out.0 (body ∷ [])) (λ out. IsOpened d out.0 (body ∷ bodies))
        (session_started-IsOpened body d tags v free)
        (λ (d1, tags1) a.
          Returns-mono (start_loop writes post cache bodies d1 tags1)
            (λ out. IsOpened d1 out.0 bodies) _ (start_loop-IsOpened bodies d1 tags1 a.valid a.free)
            (λ out b. IsOpened-cons d d1 out.0 body bodies a b))

  -- The consumer of session starts, over any deliveries. Where the broker refuses the consumption the
  -- service panics, since `ready` is closed twice. Else, from a valid tracker and a free lock, all
  -- deliveries are gone through without a panic: a session that a user was connected to before has
  -- the quiz that it had, which may be none; one that still has a quiz from an earlier start keeps
  -- that; and every other one has the first quiz that the deliveries bring for it, before its first
  -- question. The tracker is valid and the lock free.
  pub consume_session_start_lem :
      {A : Type 0} (channel : AmqpChannel A) (rabbit : RealTimeRabbit A)
      (bodies : List (Option (String × Quiz))) (d : HandlerDeps C)
      → IsValid d.tracker
      → IsFree d.registry
      → OpensUnless
          (channel.consume rabbit.broker rabbit.session_started_q "").1
          (consume_session_start writes post cache channel rabbit bodies d)
          d
          bodies
  unfolding consume_session_start
  consume_session_start_lem channel rabbit bodies d v free =
      elim (Option-cases (channel.consume rabbit.broker rabbit.session_started_q "").1) [
        | inl taken ↦ rw taken (start_loop-IsOpened bodies d rabbit.question_started_qs_tags v free)
        | inr (e, refused) ↦ rw refused refl
      ]
