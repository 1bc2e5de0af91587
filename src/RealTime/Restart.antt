-- ===== src/RealTime/Restart.antt =====
-- A restart of the service of backend-go/real_time: `SetCache` on a new tracker reads the quizzes that
-- the old one wrote to the store. The parameter `IsSound` says in which states the store keeps its
-- promises.
use try_it.Prelude.{
  ◌≡◌, refl, sym, ap, subst, ◌∙◌, inl, inr, String, Option, none, some, ◌==◌, if◌then◌else◌,
  Bool-cases, Option-cases, done, IfReturns-done,
}
use try_it.Prelude.Int.{ℤ, pos, negsuc, ◌+ℤ◌, leb_ℤ}
use try_it.Prelude.Dict
use try_it.Prelude.Dict.{Dict, get-put, get-remove}
use try_it.Shared.Errors.{Result-cases}
use try_it.Shared.Name.{IsName}
use try_it.Shared.Quiz.{OngoingQuiz, Quiz, UserAnswer, len}
use try_it.RealTime.Cache.{Cache, CacheLaws, stored, moved}
use try_it.RealTime.Tracker.{
  QuizTracker, inc_from, inc_question_idx, set_curr_question_idx, new_session, delete_session,
  add_participant, record_answer, new_quiz_tracker, set_cache, restore_data,
}
use try_it.RealTime.Tracker.Kept.{Kept, add_participant-Kept, Noted, record_answer-Noted}

module _ {C : Type 0} (cache : Cache C) (IsSound : C → Type 0)
    (laws : CacheLaws cache IsSound) where
  -- The store is sound, and it has for every session the quiz that the tracker has.
  pub record IsMirrored (t : QuizTracker C) : Type 0 where
    pub sound : IsSound t.cache
    pub same : (j : String) → Dict.get t.tracker j ≡ stored cache t.cache j

  -- The trackers of the service while it runs: it starts on a sound store, its methods are called for
  -- sessions that are names, and it starts anew on the store that it leaves.
  pub data Lived : QuizTracker C → Type 0 where
    started : (c c' : C) → IsSound c → Lived (set_cache cache (new_quiz_tracker c') c)
    session :
        (t : QuizTracker C) (sid : String) (z : Quiz)
        → IsName sid
        → Lived t
        → Lived (new_session cache t sid z)
    advanced :
        (t : QuizTracker C) (sid : String)
        → IsName sid
        → Lived t
        → Lived (inc_question_idx cache t sid).1
    placed :
        (t : QuizTracker C) (sid : String) (idx : ℤ) (q : OngoingQuiz)
        → IsName sid
        → Lived t
        → Dict.get t.tracker sid ≡ some q
        → Lived (set_curr_question_idx cache t sid idx)
    deleted :
        (t : QuizTracker C) (sid : String)
        → IsName sid
        → Lived t
        → Lived (delete_session cache t sid)
    joined :
        (t t' : QuizTracker C) (sid uid : String)
        → Lived t
        → add_participant t sid uid ≡ done t'
        → Lived t'
    answered :
        (t t' : QuizTracker C) (sid uid : String) (a : UserAnswer)
        → Lived t
        → record_answer cache t sid uid a ≡ done t'
        → Lived t'
    restarted :
        (t : QuizTracker C) (c' : C)
        → Lived t
        → Lived (set_cache cache (new_quiz_tracker c') t.cache)

  set_cache-IsMirrored : (t : QuizTracker C) (c : C) → IsSound c → IsMirrored (set_cache cache t c)
  unfolding set_cache restore_data
  set_cache-IsMirrored t c s =
      let (m, listed, same) = laws.lists_all c s in
      rw (listed, restore_data) (record { sound = s; same = same })

  pub set_cache-store : (t : QuizTracker C) (c : C) → (set_cache cache t c).cache ≡ c
  unfolding set_cache restore_data
  set_cache-store t c = elim (Result-cases (cache.get_all_sessions c)) [
    | inl (m, e) ↦ rw (e, restore_data) refl
    | inr (text, e) ↦ rw (e, restore_data) refl
  ]

  -- `SetCache` reads the quizzes of the store and leaves the answers.
  pub set_cache_lem :
      (t : QuizTracker C) (c : C)
      → IsSound c
      → ((set_cache cache t c).answers ≡ t.answers)
        × ((j : String) → Dict.get (set_cache cache t c).tracker j ≡ stored cache c j)
  unfolding set_cache restore_data
  set_cache_lem t c s =
      let (m, listed, same) = laws.lists_all c s in rw (listed, restore_data) (refl, same)

  new_session-IsMirrored :
      (t : QuizTracker C) (sid : String) (z : Quiz)
      → IsName sid
      → IsMirrored t
      → IsMirrored (new_session cache t sid z)
  unfolding new_session
  new_session-IsMirrored t sid z h m = elim (Option-cases (Dict.get t.tracker sid)) [
    | inl e ↦
        let q : OngoingQuiz = record { curr_question_idx = negsuc 0; quiz_data = z } in
        rw (e, new_session)
          (record {
            sound = laws.set_keeps t.cache sid q h m.sound;
            same = λ j.
                get-put t.tracker sid j q
                ∙ ap (λ (o : Option OngoingQuiz). if sid == j then some q else o) (m.same j)
                ∙ sym (laws.set_stores t.cache sid q j);
          })
    | inr (q, e) ↦ rw (e, new_session) m
  ]

  delete_session-IsMirrored :
      (t : QuizTracker C) (sid : String)
      → IsName sid
      → IsMirrored t
      → IsMirrored (delete_session cache t sid)
  unfolding delete_session
  delete_session-IsMirrored t sid h m = elim (Option-cases (Dict.get t.tracker sid)) [
    | inl e ↦ rw (e, delete_session) m
    | inr (q, e) ↦
        rw (e, delete_session)
          (record {
            sound = laws.delete_keeps t.cache sid h m.sound;
            same = λ j.
                get-remove t.tracker sid j
                ∙ ap (λ (o : Option OngoingQuiz). if sid == j then none else o) (m.same j)
                ∙ sym (laws.delete_stores t.cache sid j h);
          })
  ]

  -- The store takes an index for the quiz of a session that the tracker knows.
  index-IsMirrored :
      (t : QuizTracker C) (sid : String) (q : OngoingQuiz) (next : ℤ)
      → IsName sid
      → Dict.get t.tracker sid ≡ some q
      → IsMirrored t
      → IsMirrored (record t {
        tracker = Dict.put t.tracker sid (record q { curr_question_idx = next });
        cache = (cache.set_question_index t.cache sid next).0;
      })
  index-IsMirrored t sid q next h known m = record {
    sound = laws.index_keeps t.cache sid next h m.sound;
    same = λ j.
        get-put t.tracker sid j (record q { curr_question_idx = next })
        ∙ ap (λ (o : Option OngoingQuiz). if sid == j then moved next (some q) else o) (m.same j)
        ∙ ap (λ (o : Option OngoingQuiz). if sid == j then moved next o else stored cache t.cache j)
            (sym known ∙ m.same sid)
        ∙ sym (laws.index_stores t.cache sid next j);
  }

  set_curr_question_idx-IsMirrored :
      (t : QuizTracker C) (sid : String) (idx : ℤ) (q : OngoingQuiz)
      → IsName sid
      → Dict.get t.tracker sid ≡ some q
      → IsMirrored t
      → IsMirrored (set_curr_question_idx cache t sid idx)
  unfolding set_curr_question_idx
  set_curr_question_idx-IsMirrored t sid idx q h known m =
      rw (known, set_curr_question_idx) (index-IsMirrored t sid q idx h known m)

  inc_from-IsMirrored :
      (t : QuizTracker C) (sid : String) (q : OngoingQuiz)
      → IsName sid
      → Dict.get t.tracker sid ≡ some q
      → IsMirrored t
      → IsMirrored (inc_from cache t sid q).1
  unfolding inc_from
  inc_from-IsMirrored t sid q h known m =
      let next : ℤ = q.curr_question_idx +ℤ pos 1 in
      elim (Bool-cases (leb_ℤ (pos (len q.quiz_data)) next)) [
        | inl e ↦ rw (e, inc_from) m
        | inr e ↦ rw (e, inc_from) (index-IsMirrored t sid q next h known m)
      ]

  inc_question_idx-IsMirrored :
      (t : QuizTracker C) (sid : String)
      → IsName sid
      → IsMirrored t
      → IsMirrored (inc_question_idx cache t sid).1
  unfolding inc_question_idx
  inc_question_idx-IsMirrored t sid h m = elim (Option-cases (Dict.get t.tracker sid)) [
    | inl e ↦ rw (e, inc_question_idx) m
    | inr (q, e) ↦ rw (e, inc_question_idx) (inc_from-IsMirrored t sid q h e m)
  ]

  add_participant-IsMirrored :
      (t t' : QuizTracker C) (sid uid : String)
      → add_participant t sid uid ≡ done t'
      → IsMirrored t
      → IsMirrored t'
  add_participant-IsMirrored t t' sid uid e m =
      let (tracker, store) = IfReturns-done _ (Kept t) t' e (add_participant-Kept t sid uid) in
      record {
        sound = subst IsSound (sym store) m.sound;
        same = λ j.
            ap (λ (d : Dict OngoingQuiz). Dict.get d j) tracker
            ∙ m.same j
            ∙ ap (λ (c : C). stored cache c j) (sym store);
      }

  record_answer-IsMirrored :
      (t t' : QuizTracker C) (sid uid : String) (a : UserAnswer)
      → record_answer cache t sid uid a ≡ done t'
      → IsMirrored t
      → IsMirrored t'
  unfolding Noted
  record_answer-IsMirrored t t' sid uid a e m =
      let (tracker, (n, store)) =
        IfReturns-done _ (Noted cache t sid uid a) t' e (record_answer-Noted cache t sid uid a) in
      record {
        sound = subst IsSound (sym store) (laws.record_keeps t.cache sid uid n a m.sound);
        same = λ j.
            ap (λ (d : Dict OngoingQuiz). Dict.get d j) tracker
            ∙ m.same j
            ∙ sym (laws.record_stores t.cache sid uid n a j)
            ∙ ap (λ (c : C). stored cache c j) (sym store);
      }

  Lived-IsMirrored : (t : QuizTracker C) → Lived t → IsMirrored t
  Lived-IsMirrored _ (started c c' s) = set_cache-IsMirrored (new_quiz_tracker c') c s
  Lived-IsMirrored _ (session t sid z h l) = new_session-IsMirrored t sid z h (Lived-IsMirrored t l)
  Lived-IsMirrored _ (advanced t sid h l) =
      inc_question_idx-IsMirrored t sid h (Lived-IsMirrored t l)
  Lived-IsMirrored _ (placed t sid idx q h l known) =
      set_curr_question_idx-IsMirrored t sid idx q h known (Lived-IsMirrored t l)
  Lived-IsMirrored _ (deleted t sid h l) = delete_session-IsMirrored t sid h (Lived-IsMirrored t l)
  Lived-IsMirrored _ (joined t t' sid uid l e) =
      add_participant-IsMirrored t t' sid uid e (Lived-IsMirrored t l)
  Lived-IsMirrored _ (answered t t' sid uid a l e) =
      record_answer-IsMirrored t t' sid uid a e (Lived-IsMirrored t l)
  Lived-IsMirrored _ (restarted t c' l) =
      set_cache-IsMirrored (new_quiz_tracker c') t.cache (Lived-IsMirrored t l).sound

  -- However the service has lived, on a store that keeps the promises of its interface all that time, so
  -- that it takes every write and no quiz expires (the client writes each with 24 hours to live): with
  -- calls of NewSession, DeleteSession and IncQuestionIdx for sessions that are names, of
  -- SetCurrQuestionIdx for such sessions that have a quiz, and of AddParticipant and RecordAnswer, in
  -- any order, and with restarts among them, a new tracker that is set on the store has for every
  -- session the same quiz, and the same index of its current question, as the tracker that stopped.
  pub restart_lem :
      (t : QuizTracker C) (c' : C) (j : String)
      → Lived t
      → Dict.get (set_cache cache (new_quiz_tracker c') t.cache).tracker j ≡ Dict.get t.tracker j
  restart_lem t c' j l =
      let old = Lived-IsMirrored t l in
      let new = set_cache-IsMirrored (new_quiz_tracker c') t.cache old.sound in
      new.same j
      ∙ ap (λ (c : C). stored cache c j) (set_cache-store (new_quiz_tracker c') t.cache)
      ∙ sym (old.same j)
