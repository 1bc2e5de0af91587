-- ===== src/Hosting/First.antt =====
-- The first question of a session that has just opened in backend-go/real_time.
use try_it.Prelude.{
  ◌≤◌, ◌<◌, ltb, ◌++◌, not, select, count_of, ◌≡◌, refl, ap, sym, subst, ◌∙◌, String, Bool, true,
  false, Option, none, some, List, [], ◌∷◌, Returns, arith,
}
use try_it.Prelude.Dict
use try_it.Prelude.Dict.{Dict, get-put, get-nil}
use try_it.Shared.Quiz.{Quiz, len}
use try_it.Shared.Scores.{SessionAnswers}
use try_it.RealTime.Cache.{Cache}
use try_it.RealTime.Message.{ServerMessage}
use try_it.RealTime.Leaderboard.{HttpReply}
use try_it.RealTime.Registry.{ConnectionContext, Attempt}
use try_it.RealTime.Tracker.{inc_question_idx}
use try_it.RealTime.Consumer.{HandlerDeps}
use try_it.RealTime.Message.{bare, next_question}
use try_it.RealTime.Registry.{is_admin, has_conn}
use try_it.RealTime.Registry.Online.{sent_to, admins_of, players_of, OneAdmin}
use try_it.RealTime.Registry.Broadcast.{receivers_of}
use try_it.RealTime.Responder.{question_message}
use try_it.RealTime.Consumer.{question_started}
use try_it.RealTime.Tracker.Progress.{inc_question_idx_lem}
use try_it.RealTime.Rounds.{first_question_lem}
use try_it.Shared.Quiz.{get_question}
use try_it.Prelude.Int.{pos}
use try_it.Hosting.Opening.{begun, IsHosted}

-- A write that the network took.
abbrev pub got : ConnectionContext → ServerMessage → Attempt
got c m = record { to = c; message = m; delivered = true }

-- The host has the first question of the quiz, with its number and how many there are, the participant
-- the signal to go on, and nobody anything else; the quiz stands at that question.
abbrev pub IsAsked :
    {C : Type 0}
    → HandlerDeps C
    → Quiz
    → ConnectionContext
    → ConnectionContext
    → HandlerDeps C
    → Type 0
IsAsked d quiz host player d' =
    (d'.registry.attempts
      ≡ d.registry.attempts
        ++ got host (question_message (pos 1) (pos (len quiz)) (get_question quiz (pos 0)))
          ∷ got player (bare next_question)
          ∷ [])
    × (Dict.get d'.tracker.tracker player.session_id
        ≡ some (record { curr_question_idx = pos 0; quiz_data = quiz }))

module _ (writes : List Attempt → ConnectionContext → ServerMessage → Bool)
    (up : (log : List Attempt) (c : ConnectionContext) (m : ServerMessage) → writes log c m ≡ true)
    (post_answers : SessionAnswers → HttpReply) {C : Type 0} (cache : Cache C)
    (host player : ConnectionContext) (quiz : Quiz) (same : host.session_id ≡ player.session_id)
    (leads : is_admin host ≡ true) (plays : is_admin player ≡ false)
    (host_socket : has_conn host ≡ true) (player_socket : has_conn player ≡ true)
    (some_question : 0 < len quiz) (d : HandlerDeps C) (hosted : IsHosted d quiz host player) where
  abbrev code : String
  code = player.session_id

  abbrev pair : List ConnectionContext
  pair = host ∷ player ∷ []

  receivers : receivers_of d.registry code ≡ pair
  unfolding Dict.values
  receivers =
      ap
        (λ (o : Option (Dict ConnectionContext)).
          Dict.values (elim o [ none ↦ [] | some users ↦ users ]))
        hosted.users_online

  one : OneAdmin d.registry code
  one =
      subst (λ (cs : List ConnectionContext). count_of is_admin cs ≤ 1) (sym receivers)
        (rw (leads, plays) (omega arith))

  to_host : (m : ServerMessage) → sent_to m (admins_of d.registry code) ≡ got host m ∷ []
  to_host m =
      ap (λ (cs : List ConnectionContext). sent_to m (select is_admin cs)) receivers
      ∙ (rw (leads, plays) (rw host_socket refl))

  to_player : (m : ServerMessage) → sent_to m (players_of d.registry code) ≡ got player m ∷ []
  to_player m =
      ap (λ (cs : List ConnectionContext). sent_to m (select (λ c. not (is_admin c)) cs)) receivers
      ∙ (rw (leads, plays) (rw player_socket refl))

  first_index :
      Dict.get (inc_question_idx cache d.tracker player.session_id).1.tracker player.session_id
      ≡ some (record { curr_question_idx = pos 0; quiz_data = quiz })
  first_index =
      let moved : ltb 0 (len quiz) ≡ true = ground (arith, some_question) in
      (inc_question_idx_lem cache d.tracker player.session_id (begun quiz) 0 hosted.quiz_begun
        refl).1
      ∙ (rw moved refl)

  pub hosted_first :
      Returns
        (question_started writes post_answers cache player.session_id
          ("question" ∷ player.session_id ∷ "start" ∷ [])
          d)
        (IsAsked d quiz host player)
  hosted_first =
      rw
        (first_question_lem writes up post_answers cache d code (begun quiz) 0 hosted.free one
          hosted.quiz_begun refl some_question refl)
        (rw (to_host, to_player) refl, first_index)
