-- ===== src/Shared/Scores.antt =====
-- backend-go/shared/answers.go and ScoreTable.go. A time is its distance in nanoseconds from Go's
-- zero time.
use try_it.Prelude.{ℕ, String, Bool, List}
use try_it.Prelude.Int.{ℤ}
use try_it.Prelude.Dict.{Dict}

pub record Answer : Type 0 where
  pub user_id : String
  pub correct : Bool
  pub answered : Bool
  pub option : String
  pub timestamp : ℤ

pub record SessionAnswers : Type 0 where
  pub session_code : String
  pub options_amount : ℤ
  pub answers : List Answer

pub record UserScore : Type 0 where
  pub user_id : String
  pub total_score : ℤ

pub record UserCurrentPoint : Type 0 where
  pub user_id : String
  pub score : ℤ

pub record ScoreTable : Type 0 where
  pub session_code : String
  pub users : List UserScore

pub record PopularAns : Type 0 where
  pub session_code : String
  pub answers : Dict ℕ

pub record BoardResponse : Type 0 where
  pub session_code : String
  pub table : ScoreTable
  pub popular : PopularAns
