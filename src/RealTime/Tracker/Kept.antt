-- ===== src/RealTime/Tracker/Kept.antt =====
-- What `AddParticipant` and `RecordAnswer` leave as it is, in any state of the tracker.
use try_it.Prelude.{
  ◌≡◌, refl, ap, ◌∙◌, inl, inr, String, Option-cases, or_panic, IfReturns, IfReturns-bind,
  IfReturns-any,
}
use try_it.Prelude.Int.{ℤ}
use try_it.Prelude.Dict
use try_it.Prelude.Dict.{Dict, get-put, get-remove}
use try_it.Shared.Quiz.{UserAnswer}
use try_it.RealTime.Cache.{Cache}
use try_it.RealTime.Tracker.{
  QuizTracker, quiz_of, set_index, ensure_user, write_answer, add_participant, record_answer,
}

module _ {C : Type 0} (t : QuizTracker C) where
  -- The quizzes and the store are as they were.
  abbrev pub Kept : QuizTracker C → Type 0
  Kept t' = (t'.tracker ≡ t.tracker) × (t'.cache ≡ t.cache)

  ensure_user-Kept : (sid uid : String) → IfReturns (ensure_user t sid uid) Kept
  unfolding ensure_user
  ensure_user-Kept sid uid = elim (Option-cases (Dict.get t.answers sid)) [
    | inl e ↦ rw (e, ensure_user) tt
    | inr (users, e) ↦ elim (Option-cases (Dict.get users uid)) [
      | inl f ↦ rw (e, ensure_user) (rw f (refl, refl))
      | inr (row, f) ↦ rw (e, ensure_user) (rw f (refl, refl))
    ]
  ]

  write_answer-Kept :
      (sid uid : String) (qid : ℤ) (a : UserAnswer) → IfReturns (write_answer t sid uid qid a) Kept
  unfolding write_answer
  write_answer-Kept sid uid qid a =
      IfReturns-bind _ _ (λ users. Unit) Kept (IfReturns-any (or_panic (Dict.get t.answers sid)))
        (λ users hu.
          IfReturns-bind _ _ (λ given. Unit) Kept (IfReturns-any (or_panic (Dict.get users uid)))
            (λ given hg.
              IfReturns-bind _ _ (λ given'. Unit) Kept (IfReturns-any (set_index given qid a))
                (λ given' hs. (refl, refl))))

  pub add_participant-Kept : (sid uid : String) → IfReturns (add_participant t sid uid) Kept
  unfolding add_participant
  add_participant-Kept sid uid = ensure_user-Kept sid uid

module _ {C : Type 0} (cache : Cache C) where
  -- An answer: the quizzes are as they were, and the store has had one `RecordAnswer`.
  unfoldable pub Noted : QuizTracker C → String → String → UserAnswer → QuizTracker C → Type 0
  Noted t sid uid a t' =
      (t'.tracker ≡ t.tracker)
      × ((n : ℤ) × (t'.cache ≡ (cache.record_answer t.cache sid uid n a).0))

  pub record_answer-Noted :
      (t : QuizTracker C) (sid uid : String) (a : UserAnswer)
      → IfReturns (record_answer cache t sid uid a) (Noted t sid uid a)
  unfolding record_answer Noted
  record_answer-Noted t sid uid a =
      IfReturns-bind (ensure_user t sid uid) _ (Kept t) (Noted t sid uid a)
        (ensure_user-Kept t sid uid)
        (λ t1 (same1, store1).
          let qid = (quiz_of t1 sid).curr_question_idx in
          IfReturns-bind (write_answer t1 sid uid qid a) _ (Kept t1) (Noted t sid uid a)
            (write_answer-Kept t1 sid uid qid a)
            (λ t2 (same2, store2). (
              same2 ∙ same1,
              (qid, ap (λ (c : C). (cache.record_answer c sid uid qid a).0) (store2 ∙ store1)),
            )))
