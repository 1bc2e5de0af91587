-- ===== src/LeaderBoard.antt =====
-- backend-go/LeaderBoardService: the points of one question, the table of a session and how often
-- each option was chosen. A time is its distance in nanoseconds from Go's zero time. The sorted
-- sets of Redis are a parameter, and so is the arithmetic of `float64`.
pub mod Ieee
pub mod Scale
pub mod Earliest
pub mod Points
pub mod Sorting
pub mod Popular
pub mod Compute
use try_it.Prelude.{
  ℕ, zero, suc, ◌+◌, ◌-◌, String, Bool, true, false, Option, none, some, List, [], ◌∷◌, map, Run,
  done, panics, ◌>>=◌, if◌then◌else◌,
}
use try_it.Prelude.Int.{ℤ, pos, negsuc, pos_part, neg_part, sub_ℕ, succ_int, leb_ℤ, ltb_ℤ}
use try_it.Prelude.Dict
use try_it.Prelude.Dict.{Dict}
use try_it.Prelude.Text.{join, decimal}
use try_it.Shared.Errors.{Result, ok, err, ErrorOr}
use try_it.Shared.Scores.{
  Answer, SessionAnswers, UserScore, UserCurrentPoint, ScoreTable, PopularAns, BoardResponse,
}
use try_it.Http.{Method, is_post, Response, no_response, write_header, encode, try_encode}

-- Go's `float64` as far as the service uses it.
pub record Float64 (F : Type 0) : Type 0 where
  pub of_int : ℤ → F
  pub sub : F → F → F
  pub mul : F → F → F
  pub div : F → F → F
  pub lt : F → F → Bool
  pub leb : F → F → Bool
  pub to_int : F → ℤ
  -- `Duration.Seconds`, of a number of nanoseconds
  pub seconds : ℤ → F

-- The sorted sets of Redis: a batch of `ZINCRBY` under one key, and `ZREVRANGE` with the scores.
pub record SortedSets (S F : Type 0) : Type 0 where
  pub incr_batch : S → String → List (String × F) → S × ErrorOr
  pub rev_range : S → String → Result (List (String × F))

-- Utils/minTimestamp.go
earliest_from : ℤ → List Answer → ℤ
earliest_from t [] = t
earliest_from t (a ∷ rest) = earliest_from (if ltb_ℤ a.timestamp t then a.timestamp else t) rest

unfoldable pub get_earliest_timestamp : List Answer → Run ℤ
unfolding earliest_from
get_earliest_timestamp [] = panics
get_earliest_timestamp (a ∷ rest) = done (earliest_from a.timestamp rest)

latest_from : ℤ → List Answer → ℤ
latest_from t [] = t
latest_from t (a ∷ rest) = latest_from (if ltb_ℤ t a.timestamp then a.timestamp else t) rest

unfoldable pub get_latest_timestamp : List Answer → Run ℤ
unfolding latest_from
get_latest_timestamp [] = panics
get_latest_timestamp (a ∷ rest) = done (latest_from a.timestamp rest)

-- `t.Sub(u)`: a duration is an int64, and a difference that does not fit is cut off.
unfoldable pub time_sub : ℤ → ℤ → ℤ
time_sub t u =
    let d = sub_ℕ (pos_part t + neg_part u) (neg_part t + pos_part u) in
    if ltb_ℤ (pos 9223372036854775807) d
    then pos 9223372036854775807
    else if ltb_ℤ d (negsuc 9223372036854775807)
    then negsuc 9223372036854775807
    else d

-- Utils/SortUsers.go: `sort.Slice` by descending score. Up to 12 elements it inserts; of more it
-- promises a sorted permutation, and no order among equal scores.
unfoldable pub insert_desc : UserScore → List UserScore → List UserScore
insert_desc u [] = u ∷ []
insert_desc u (v ∷ vs) =
    let rest = insert_desc u vs in
    if ltb_ℤ v.total_score u.total_score then u ∷ v ∷ vs else v ∷ rest

unfoldable pub insert_all : List UserScore → List UserScore → List UserScore
unfolding insert_desc
insert_all sorted [] = sorted
insert_all sorted (u ∷ us) = insert_all (insert_desc u sorted) us

unfoldable pub sort_user_scores_by_score_desc : List UserScore → List UserScore
unfolding insert_all
sort_user_scores_by_score_desc scores = insert_all [] scores

-- `PopularAns`: the entries "1" to "n", each at 0, in the order in which they are made.
unfoldable pub zero_options : ℕ → ℕ → Dict ℕ → Dict ℕ
zero_options i zero m = m
zero_options i (suc n) m = zero_options (suc i) n (Dict.put m (decimal i) 0)

abbrev pub or_none : Option ℕ → ℕ
or_none none = 0
or_none (some n) = n

-- The loop over the answers; `m[k] += 1` makes the entry that is missing.
unfoldable pub count_answers : List Answer → Dict ℕ → Dict ℕ
count_answers [] m = m
count_answers (a ∷ rest) m =
    count_answers rest
      (if a.answered then Dict.put m a.option (or_none (Dict.get m a.option) + 1) else m)

-- How often the loop `for i := 1; i < amount+1` runs, where the sum is an `int`.
abbrev pub rounds_of : ℤ → ℕ
rounds_of amount = pos_part (succ_int amount) - 1

unfoldable pub popular_ans : SessionAnswers → PopularAns
unfolding zero_options count_answers
popular_ans ans = record {
  session_code = ans.session_code;
  answers = count_answers ans.answers (zero_options 1 (rounds_of ans.options_amount) []);
}

-- What `ComputeBoardHandler` encodes: an error message or a board.
pub data BoardBody : Type 0 where
  message : String → BoardBody
  board : BoardResponse → BoardBody

module _ {F : Type 0} (float : Float64 F) where
  open float use {of_int, sub, mul, div, lt, leb, to_int, seconds}

  -- The points of a correct answer that came this many nanoseconds after the first answer.
  unfoldable pub points_after : ℤ → ℤ
  points_after d =
      let elapsed = (if leb (seconds d) (of_int (pos 0)) then of_int (pos 0) else seconds d) in
      let penalty = div elapsed (of_int (pos 20)) in
      let capped = (if lt (of_int (pos 1)) penalty then of_int (pos 1) else penalty) in
      let point = to_int (mul (of_int (pos 1000)) (sub (of_int (pos 1)) capped)) in
      let floored = (if leb_ℤ point (pos 0) then pos 0 else point) in
      if leb_ℤ (pos 1000) floored then pos 1000 else floored

  -- One round of the loop of `ComputeLeaderBoard`.
  unfoldable pub user_point : ℤ → Answer → UserCurrentPoint
  unfolding points_after
  user_point best u = record {
    user_id = u.user_id;
    score = if u.correct then points_after (time_sub u.timestamp best) else pos 0;
  }

  -- Storage/LoadScore.go
  abbrev pub user_score : String × F → UserScore
  user_score (member, score) = record { user_id = member; total_score = to_int score }

  module _ {S : Type 0} (sets : SortedSets S F) where
    open sets use {incr_batch, rev_range}

    unfoldable pub add_scores_batch : S → String → List UserCurrentPoint → S × ErrorOr
    add_scores_batch s quiz_id updates =
        incr_batch s (join "leaderboard:" quiz_id)
          (map (λ (u : UserCurrentPoint). (u.user_id, of_int u.score)) updates)

    unfoldable pub load_leaderboard : S → String → Result (List UserScore)
    load_leaderboard s quiz_id = elim (rev_range s (join "leaderboard:" quiz_id)) [
      | err e ↦ err e
      | ok zs ↦ ok (map user_score zs)
    ]

    -- The table of what is loaded, where it is loaded.
    abbrev pub table_of_loaded : String → Result (List UserScore) → Result ScoreTable
    table_of_loaded code (err e) = err e
    table_of_loaded code (ok scores) =
        ok (record { session_code = code; users = sort_user_scores_by_score_desc scores })

    unfoldable pub compute_leader_board : S → SessionAnswers → Run (S × Result ScoreTable)
    unfolding add_scores_batch load_leaderboard
    compute_leader_board s ans = do
      best ← get_earliest_timestamp ans.answers
      let (s1, failed) = add_scores_batch s ans.session_code (map (user_point best) ans.answers)
      elim failed [
        | some e ↦ done (s1, err e)
        | none ↦ done (s1, table_of_loaded ans.session_code (load_leaderboard s1 ans.session_code))
      ]

    -- The rest of the handler once the table is computed; a table that failed is the empty one,
    -- and the handler goes on after its 400.
    abbrev pub board_reply : Bool → SessionAnswers → Result ScoreTable → Response BoardBody
    board_reply sent req computed =
        let start : Response BoardBody = (elim computed [
          | err e ↦ write_header 400 no_response
          | ok t ↦ no_response
        ]) in
        let table : ScoreTable = (elim computed [
          | err e ↦ record { session_code = ""; users = [] }
          | ok t ↦ t
        ]) in
        let resp : BoardResponse = record {
          session_code = "";
          table = table;
          popular = popular_ans req;
        } in
        let (fine, w) = try_encode sent (board resp) start in
        if fine then w else encode (message "StatusInternalServerError") (write_header 500 w)

    unfoldable pub compute_board_handler :
        Bool → Method → Option SessionAnswers → S → Run (S × Response BoardBody)
    unfolding compute_leader_board
    compute_board_handler sent verb decoded s =
        if is_post verb
        then elim decoded [
          | none ↦ done (s, encode (message "Bad Request") (write_header 400 no_response))
          | some req ↦ do
            (s1, computed) ← compute_leader_board s req
            done (s1, board_reply sent req computed)
        ]
        else done (s, write_header 405 no_response)
