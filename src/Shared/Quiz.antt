-- ===== src/Shared/Quiz.antt =====
-- backend-go/shared/quiz.go and backend-go/real_time/models/quiz.go.
pub mod Correct
use try_it.Prelude.{
  ℕ, suc, ◌<◌, ◌≡◌, String, Bool, false, Option, none, some, List, [], ◌∷◌, length, get_elem?,
  if◌then◌else◌,
}
use try_it.Prelude.Int.{ℤ, pos, negsuc}

-- `shared.Option`
pub record AnswerOption : Type 0 where
  pub text : String
  pub is_correct : Bool

pub record Question : Type 0 where
  pub kind : String
  pub text : String
  pub image_url : String
  pub options : List AnswerOption

pub record Quiz : Type 0 where
  pub questions : List Question

-- `Option{}` and `Question{}`
abbrev pub empty_option : AnswerOption
empty_option = record { text = ""; is_correct = false }

abbrev pub empty_question : Question
empty_question = record { kind = ""; text = ""; image_url = ""; options = [] }

-- The loop of `GetCorrectOption`, from index `i` on.
first_correct : ℕ → List AnswerOption → ℕ × AnswerOption
first_correct i [] = (0, empty_option)
first_correct i (o ∷ os) = if o.is_correct then (i, o) else first_correct (suc i) os

unfoldable pub get_correct_option : Question → ℕ × AnswerOption
unfolding first_correct
get_correct_option q = first_correct 0 q.options

unfoldable pub len : Quiz → ℕ
len z = length z.questions

abbrev or_empty : Option Question → Question
or_empty none = empty_question
or_empty (some q) = q

-- `idx < 0 || idx >= len(q.Questions)` gives the empty question.
unfoldable pub get_question : Quiz → ℤ → Question
get_question z (pos i) = or_empty (get_elem? z.questions i)
get_question z (negsuc n) = empty_question

pub record OngoingQuiz : Type 0 where
  pub curr_question_idx : ℤ
  pub quiz_data : Quiz

-- `OngoingQuiz{}`, what Go reads for a missing key.
abbrev pub empty_ongoing : OngoingQuiz
empty_ongoing = record { curr_question_idx = pos 0; quiz_data = record { questions = [] } }

pub record UserAnswer : Type 0 where
  pub answered : Bool
  pub option : ℤ
  pub correct : Bool
  pub timestamp : ℤ

-- `UserAnswer{}`; a time is its distance in nanoseconds from Go's zero time.
abbrev pub empty_answer : UserAnswer
empty_answer = record { answered = false; option = pos 0; correct = false; timestamp = pos 0 }
