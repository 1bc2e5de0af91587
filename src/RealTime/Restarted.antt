-- ===== src/RealTime/Restarted.antt =====
-- What a restart of the service of backend-go/real_time loses: `SetCache` of ws/quiz_tracker.go restores
-- the quizzes and not the answers.
use try_it.Prelude.{ℕ, ◌≡◌, ap, ◌∙◌, String, Bool, some, none, List, panics}
use try_it.Prelude.Dict
use try_it.Prelude.Dict.{Dict, get-nil}
use try_it.Shared.Quiz.{OngoingQuiz, UserAnswer}
use try_it.Shared.Token.{UserToken, role_participant}
use try_it.RealTime.Cache.{Cache, CacheLaws, stored}
use try_it.RealTime.Message.{ServerMessage, ClientMessage}
use try_it.RealTime.Registry.{ConnectionContext, Attempt, ConnectionRegistry}
use try_it.RealTime.Registry.Delivery.{IsFree}
use try_it.RealTime.Tracker.{new_quiz_tracker, set_cache}
use try_it.RealTime.Restart.{set_cache_lem}
use try_it.RealTime.Consumer.{HandlerDeps}
use try_it.RealTime.Handler.{join_session, process_answer}
use try_it.RealTime.Answering.{process_answer_no_table}
use try_it.RealTime.Joining.{join_session_no_table}

-- The service after a restart on the store `c`.
abbrev pub restarted_on : {C : Type 0} → Cache C → C → C → ConnectionRegistry → HandlerDeps C
restarted_on cache c' c r = record {
  tracker = set_cache cache (new_quiz_tracker c') c;
  registry = r;
}

module _ (writes : List Attempt → ConnectionContext → ServerMessage → Bool) {C : Type 0}
    (cache : Cache C) (IsSound : C → Type 0) (laws : CacheLaws cache IsSound) where
  no_table :
      (c' c : C) (sid : String)
      → IsSound c
      → Dict.get (set_cache cache (new_quiz_tracker c') c).answers sid ≡ none
  unfolding new_quiz_tracker
  no_table c' c sid s =
      ap (λ (m : Dict (Dict (List UserAnswer))). Dict.get m sid)
        (set_cache_lem cache IsSound laws (new_quiz_tracker c') c s).0
      ∙ get-nil sid

  -- A service that restarts on a store which keeps the promises of its interface has every session
  -- whose quiz is in the store back, at the same question, and cannot go on with it: any message that a
  -- participant of the session sends panics, whatever the question is, and from a free lock so does
  -- any participant who connects to it.
  pub lost_after_restart :
      (c' c : C) (r : ConnectionRegistry) (ctx : ConnectionContext) (msg : ClientMessage)
      (token : UserToken) (socket : ℕ) (q : OngoingQuiz)
      → IsSound c
      → IsFree r
      → stored cache c ctx.session_id ≡ some q
      → token.session_id ≡ ctx.session_id
      → token.user_type ≡ role_participant
      → (Dict.get (restarted_on cache c' c r).tracker.tracker ctx.session_id ≡ some q)
        × (process_answer writes cache ctx msg (restarted_on cache c' c r) ≡ panics)
        × (join_session token socket (restarted_on cache c' c r) ≡ panics)
  lost_after_restart c' c r ctx msg token socket q s free held same plays =
      let back : Dict.get (restarted_on cache c' c r).tracker.tracker ctx.session_id ≡ some q =
        (set_cache_lem cache IsSound laws (new_quiz_tracker c') c s).1 ctx.session_id ∙ held in
      (
        back,
        process_answer_no_table writes cache ctx msg (restarted_on cache c' c r) q back
            (no_table c' c ctx.session_id s),
        join_session_no_table token socket (restarted_on cache c' c r) free
            (no_table c' c token.session_id s) plays,
      )
