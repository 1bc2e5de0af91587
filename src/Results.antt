-- ===== src/Results.antt =====
-- A table over both services: `GetResults` of backend-go/real_time/leaderboard/leaderboard.go asks
-- `ComputeBoardHandler` of backend-go/LeaderBoardService.
use try_it.Prelude.{ℕ, String, true, Option, some, none, List, [], ◌∷◌, Run, done, panics, blocks}
use try_it.Shared.Errors.{Result, ok, err}
use try_it.Shared.Scores.{SessionAnswers, ScoreTable, BoardResponse}
use try_it.Http.{post, Response}
use try_it.LeaderBoard.{
  Float64, SortedSets, BoardBody, board, message, popular_ans, compute_board_handler,
}
use try_it.RealTime.Leaderboard.{HttpReply, failed, reply}

-- The first document of a body, where it is a board.
abbrev board_of : List BoardBody → Option BoardResponse
board_of [] = none
board_of (message text ∷ more) = none
board_of (board b ∷ more) = some b

abbrev status_of : Option ℕ → ℕ
status_of none = 200
status_of (some code) = code

-- What the client gets of a call; a handler that panics closes the connection, which is the error
-- `closed` of the client.
abbrev pub reply_of : {S : Type 0} → String → Run (S × Response BoardBody) → HttpReply
reply_of closed (done (s, w)) = reply (status_of w.status) (board_of w.body)
reply_of closed panics = failed closed
reply_of closed blocks = failed closed

-- What the asking service makes of a table that was computed, or not.
abbrev pub received : SessionAnswers → Result ScoreTable → Result BoardResponse
received ans (err e) = err "leaderboard error"
received ans (ok table) =
    ok (record { session_code = ""; table = table; popular = popular_ans ans })

module _ {F : Type 0} (float : Float64 F) {S : Type 0} (sets : SortedSets S F) (closed : String)
    (s : S) where
  -- The call of the client, with its body decoded and the reply taken by the connection.
  abbrev pub ask : SessionAnswers → HttpReply
  ask ans = reply_of closed (compute_board_handler float sets true post (some ans) s)
