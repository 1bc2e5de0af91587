-- ===== src/RealTime/Tracker/Valid.antt =====
-- The tracker's invariant: a session has a quiz exactly when it has an answer table, its question
-- index is -1 or names a question, and every row of the table has a place for every question.
use try_it.Prelude.{
  ℕ, ◌<◌, String, ◌≡◌, refl, subst, inl, inr, Bool, true, false, Option, none, some, List, [], ◌∷◌,
  arith, All, length, eq_iff, Bool-cases, Option-cases, if◌then◌else◌, ◌==◌,
}
use try_it.Prelude.Int.{ℤ, pos, negsuc, ◌+ℤ◌, leb_ℤ}
use try_it.Prelude.Dict
use try_it.Prelude.Dict.{Dict, get-put, get-remove}
use try_it.Shared.Quiz.{OngoingQuiz, UserAnswer, Quiz, len}
use try_it.RealTime.Cache.{Cache}
use try_it.RealTime.Tracker.{
  QuizTracker, inc_from, inc_question_idx, new_session, delete_session, set_curr_question_idx,
  new_quiz_tracker,
}

abbrev pub InRange : ℤ → ℕ → Type 0
InRange (pos i) n = i < n
InRange (negsuc k) n = k ≡ 0

abbrev pub RowsFit : ℕ → Dict (List UserAnswer) → Type 0
RowsFit n users = All (λ entry. length entry.1 ≡ n) users

abbrev pub Agree : Option OngoingQuiz → Option (Dict (List UserAnswer)) → Type 0
Agree none none = Unit
Agree none (some users) = ⊥
Agree (some q) none = ⊥
Agree (some q) (some users) =
    InRange q.curr_question_idx (len q.quiz_data) × RowsFit (len q.quiz_data) users

pub record IsValid {C : Type 0} (t : QuizTracker C) : Type 0 where
  pub agree : (sid : String) → Agree (Dict.get t.tracker sid) (Dict.get t.answers sid)

pub IsValid-new : {C : Type 0} (c : C) → IsValid (new_quiz_tracker c)
unfolding new_quiz_tracker Dict.get
IsValid-new c = record { agree = λ sid. tt }

-- An update of both maps at one session keeps the invariant if the new entries agree.
put-Agree :
    (trk : Dict OngoingQuiz) (ans : Dict (Dict (List UserAnswer))) (sid : String) (q : OngoingQuiz)
    (users : Dict (List UserAnswer))
    → ((s : String) → Agree (Dict.get trk s) (Dict.get ans s))
    → Agree (some q) (some users)
    → (s : String) → Agree (Dict.get (Dict.put trk sid q) s) (Dict.get (Dict.put ans sid users) s)
put-Agree trk ans sid q users h new s = simp (get-put) (branch (sid == s))
  where
    branch :
        (b : Bool)
        → Agree (if b then some q else Dict.get trk s) (if b then some users else Dict.get ans s)
    branch true = new
    branch false = h s

remove-Agree :
    (trk : Dict OngoingQuiz) (ans : Dict (Dict (List UserAnswer))) (sid : String)
    → ((s : String) → Agree (Dict.get trk s) (Dict.get ans s))
    → (s : String) → Agree (Dict.get (Dict.remove trk sid) s) (Dict.get (Dict.remove ans sid) s)
remove-Agree trk ans sid h s = simp (get-remove) (branch (sid == s))
  where
    branch :
        (b : Bool) → Agree (if b then none else Dict.get trk s) (if b then none else Dict.get ans s)
    branch true = tt
    branch false = h s

-- An update of one of the two maps, if the entry agrees with the other map's.
pub put_answers-Agree :
    (trk : Dict OngoingQuiz) (ans : Dict (Dict (List UserAnswer))) (sid : String)
    (users : Dict (List UserAnswer))
    → ((s : String) → Agree (Dict.get trk s) (Dict.get ans s))
    → Agree (Dict.get trk sid) (some users)
    → (s : String) → Agree (Dict.get trk s) (Dict.get (Dict.put ans sid users) s)
put_answers-Agree trk ans sid users h new s = simp (get-put) (elim (Bool-cases (sid == s)) [
  | inl e ↦ rw e (subst (λ k. Agree (Dict.get trk k) (some users)) ((eq_iff sid s).0 e) new)
  | inr e ↦ rw e (h s)
])

put_tracker-Agree :
    (trk : Dict OngoingQuiz) (ans : Dict (Dict (List UserAnswer))) (sid : String) (q : OngoingQuiz)
    → ((s : String) → Agree (Dict.get trk s) (Dict.get ans s))
    → Agree (some q) (Dict.get ans sid)
    → (s : String) → Agree (Dict.get (Dict.put trk sid q) s) (Dict.get ans s)
put_tracker-Agree trk ans sid q h new s = simp (get-put) (elim (Bool-cases (sid == s)) [
  | inl e ↦ rw e (subst (λ k. Agree (some q) (Dict.get ans k)) ((eq_iff sid s).0 e) new)
  | inr e ↦ rw e (h s)
])

-- The rows of a table after one row is put.
pub put-RowsFit :
    (n : ℕ) (users : Dict (List UserAnswer)) (u : String) (row : List UserAnswer)
    → RowsFit n users
    → length row ≡ n
    → RowsFit n (Dict.put users u row)
unfolding Dict.put
put-RowsFit n [] u row h e = (e, tt)
put-RowsFit n ((v, old) ∷ users) u row h e = elim (Bool-cases (v == u)) [
  | inl same ↦ rw same (e, h.1)
  | inr other ↦ rw other (h.0, put-RowsFit n users u row h.1 e)
]

-- A row that is found has the full length.
pub get-RowsFit :
    (n : ℕ) (users : Dict (List UserAnswer)) (u : String) (row : List UserAnswer)
    → RowsFit n users
    → Dict.get users u ≡ some row
    → length row ≡ n
unfolding Dict.get
get-RowsFit n [] u row h e = cc
get-RowsFit n ((v, old) ∷ users) u row h e = elim (Bool-cases (v == u)) [
  | inl same ↦ ground (arith, h.0)
  | inr other ↦ get-RowsFit n users u row h.1 (rw other at e)
]

-- One step forward from a valid index, not past the last question, is a valid index.
next-InRange :
    (i : ℤ) (n : ℕ) → InRange i n → leb_ℤ (pos n) (i +ℤ pos 1) ≡ false → InRange (i +ℤ pos 1) n
next-InRange i n r h = ground arith

-- A new index for a session of a valid tracker.
index-Agree :
    (q : OngoingQuiz) (o : Option (Dict (List UserAnswer))) (i : ℤ)
    → Agree (some q) o
    → InRange i (len q.quiz_data)
    → Agree (some (record q { curr_question_idx = i })) o
index-Agree q none i a r = a
index-Agree q (some users) i a r = (r, a.1)

Agree-InRange :
    (q : OngoingQuiz) (o : Option (Dict (List UserAnswer)))
    → Agree (some q) o
    → InRange q.curr_question_idx (len q.quiz_data)
Agree-InRange q none a = absurd a
Agree-InRange q (some users) a = a.0

module _ {C : Type 0} (cache : Cache C) where
  pub new_session-IsValid :
      (t : QuizTracker C) (sid : String) (z : Quiz)
      → IsValid t
      → IsValid (new_session cache t sid z)
  unfolding new_session
  new_session-IsValid t sid z v = elim (Option-cases (Dict.get t.tracker sid)) [
    | inl e ↦
        rw (e, new_session)
          (record { agree = put-Agree t.tracker t.answers sid _ [] v.agree (refl, tt) })
    | inr (q, e) ↦ rw (e, new_session) v
  ]

  pub delete_session-IsValid :
      (t : QuizTracker C) (sid : String) → IsValid t → IsValid (delete_session cache t sid)
  unfolding delete_session
  delete_session-IsValid t sid v = elim (Option-cases (Dict.get t.tracker sid)) [
    | inl e ↦ rw (e, delete_session) v
    | inr (q, e) ↦
        rw (e, delete_session) (record { agree = remove-Agree t.tracker t.answers sid v.agree })
  ]

  pub set_curr_question_idx-IsValid :
      (t : QuizTracker C) (sid : String) (i : ℤ) (q : OngoingQuiz)
      → IsValid t
      → Dict.get t.tracker sid ≡ some q
      → InRange i (len q.quiz_data)
      → IsValid (set_curr_question_idx cache t sid i)
  unfolding set_curr_question_idx
  set_curr_question_idx-IsValid t sid i q v e r =
      rw (e, set_curr_question_idx)
        (record {
          agree =
              put_tracker-Agree t.tracker t.answers sid _ v.agree
                (index-Agree q (Dict.get t.answers sid) i (rw e at (v.agree sid)) r);
        })

  inc_from-IsValid :
      (t : QuizTracker C) (sid : String) (q : OngoingQuiz)
      → IsValid t
      → Agree (some q) (Dict.get t.answers sid)
      → IsValid (inc_from cache t sid q).1
  unfolding inc_from
  inc_from-IsValid t sid q v a =
      let next : ℤ = q.curr_question_idx +ℤ pos 1 in
      elim (Bool-cases (leb_ℤ (pos (len q.quiz_data)) next)) [
        | inl stop ↦ rw stop v
        | inr go ↦ rw go (record {
          agree = put_tracker-Agree t.tracker t.answers sid _ v.agree (
              index-Agree q (Dict.get t.answers sid) next a (
                next-InRange q.curr_question_idx (len q.quiz_data)
                  (Agree-InRange q (Dict.get t.answers sid) a) go));
        })
      ]

  pub inc_question_idx-IsValid :
      (t : QuizTracker C) (sid : String) → IsValid t → IsValid (inc_question_idx cache t sid).1
  unfolding inc_question_idx
  inc_question_idx-IsValid t sid v = elim (Option-cases (Dict.get t.tracker sid)) [
    | inl e ↦ rw (e, inc_question_idx) v
    | inr (q, e) ↦ rw (e, inc_question_idx) (inc_from-IsValid t sid q v (rw e at (v.agree sid)))
  ]
