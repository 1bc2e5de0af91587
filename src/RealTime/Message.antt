-- ===== src/RealTime/Message.antt =====
-- The messages of backend-go/real_time/ws/message.go. A message stands for its JSON encoding.
use try_it.Prelude.{String, Bool, false, List, []}
use try_it.Prelude.Int.{ℤ, pos}
use try_it.Shared.Quiz.{AnswerOption}
use try_it.Shared.Scores.{ScoreTable, PopularAns}

pub data MessageType : Type 0 where
  answer question leaderboard question_stat end next_question user_answered error : MessageType

-- What the `interface{}` field `Payload` holds.
pub data Payload : Type 0 where
  nothing : Payload
  table : ScoreTable → Payload
  stat : PopularAns → Payload
  user : String → Payload
  image : String → Payload

pub record ServerMessage : Type 0 where
  pub kind : MessageType
  pub question_idx : ℤ
  pub questions_amount : ℤ
  pub text : String
  pub options : List AnswerOption
  pub correct : Bool
  pub payload : Payload

-- `ServerMessage{Type: kind}`
abbrev pub bare : MessageType → ServerMessage
bare k = record {
  kind = k;
  question_idx = pos 0;
  questions_amount = pos 0;
  text = "";
  options = [];
  correct = false;
  payload = nothing;
}

pub record ClientMessage : Type 0 where
  pub kind : String
  pub option : ℤ
  pub timestamp : ℤ
