-- ===== src/Examples/Quiz.antt =====
-- A session "s" with a quiz of two questions, a host and one participant, and a network that takes
-- every write.
use try_it.Prelude.{
  ◌≡◌, refl, Bool, true, false, none, some, List, [], ◌∷◌, arith, Bool-cases, inl, inr, ◌==◌,
}
use try_it.Prelude.Int.{ℤ, pos, negsuc}
use try_it.Prelude.Dict
use try_it.Prelude.Dict.{Dict}
use try_it.Shared.Errors.{ok}
use try_it.Shared.Token.{role_admin, role_participant}
use try_it.Shared.Scores.{SessionAnswers}
use try_it.Shared.Quiz.{Quiz, OngoingQuiz, empty_answer, len}
use try_it.RealTime.Cache.{Cache}
use try_it.RealTime.Message.{ServerMessage, ClientMessage}
use try_it.RealTime.Registry.{ConnectionContext, Attempt, ConnectionRegistry}
use try_it.RealTime.Registry.Online.{OneAdmin}
use try_it.RealTime.Tracker.{QuizTracker}
use try_it.RealTime.Tracker.Valid.{IsValid, InRange}
use try_it.RealTime.Leaderboard.{HttpReply, failed}
use try_it.RealTime.Consumer.{HandlerDeps}

abbrev pub quiz_one : Quiz
quiz_one = record {
  questions =
      record {
        kind = "single_choice";
        text = "1 + 1?";
        image_url = "";
        options =
            record { text = "3"; is_correct = false }
            ∷ record { text = "2"; is_correct = true }
            ∷ [];
      }
      ∷ record {
        kind = "single_choice";
        text = "2 * 2?";
        image_url = "";
        options =
            record { text = "4"; is_correct = true }
            ∷ record { text = "5"; is_correct = false }
            ∷ [];
      }
      ∷ [];
}

abbrev pub at_question : ℤ → OngoingQuiz
at_question i = record { curr_question_idx = i; quiz_data = quiz_one }

-- A store that answers everything without an error and keeps nothing.
abbrev pub no_store : Cache (Unit {0})
no_store = record {
  set_session_quiz = λ c sid q. (c, none);
  get_session_quiz = λ c sid. ok (at_question (negsuc 0));
  delete_session = λ c sid. (c, none);
  get_all_sessions = λ c. ok [];
  set_question_index = λ c sid i. (c, none);
  get_question_index = λ c sid. ok (pos 0);
  record_answer = λ c sid uid i a. (c, none);
  get_all_answers = λ c sid. ok [];
}

abbrev pub host : ConnectionContext
host = record { conn = some 1; user_id = "host"; session_id = "s"; role = role_admin }

abbrev pub alice : ConnectionContext
alice = record { conn = some 2; user_id = "alice"; session_id = "s"; role = role_participant }

abbrev pub members : Dict ConnectionContext
members = ("host", host) ∷ ("alice", alice) ∷ []

abbrev pub registry_one : ConnectionRegistry
registry_one = record {
  connections = ("s", members) ∷ [];
  readers = 0;
  writer = false;
  attempts = [];
}

abbrev pub tracker_at : ℤ → QuizTracker (Unit {0})
tracker_at i = record {
  answers = ("s", ("alice", empty_answer ∷ empty_answer ∷ []) ∷ []) ∷ [];
  tracker = ("s", at_question i) ∷ [];
  cache = tt;
}

abbrev pub deps_at : ℤ → HandlerDeps (Unit {0})
deps_at i = record { tracker = tracker_at i; registry = registry_one }

abbrev pub online : List Attempt → ConnectionContext → ServerMessage → Bool
online log c m = true

pub online-up :
    (log : List Attempt) (c : ConnectionContext) (m : ServerMessage) → online log c m ≡ true
online-up log c m = refl

-- A leaderboard service that cannot be reached.
abbrev pub no_board : SessionAnswers → HttpReply
no_board answers = failed "unreachable"

abbrev pub second_option : ClientMessage
second_option = record { kind = "answer"; option = pos 1; timestamp = pos 5 }

pub known_at : (i : ℤ) → Dict.get (tracker_at i).tracker "s" ≡ some (at_question i)
unfolding Dict.get
known_at i = refl

pub tracker_at-IsValid : (i : ℤ) → InRange i 2 → IsValid (tracker_at i)
unfolding Dict.get len
tracker_at-IsValid i h = record {
  agree = λ sid. elim (Bool-cases ("s" == sid)) [ inl e ↦ rw e (h, (refl, tt)) | inr e ↦ rw e tt ];
}

pub one_host : OneAdmin registry_one "s"
unfolding Dict.get Dict.values
one_host = omega arith
