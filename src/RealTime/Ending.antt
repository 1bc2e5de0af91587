-- ===== src/RealTime/Ending.antt =====
-- A session ends in the real-time service.
use try_it.Prelude.{
  ◌≡◌, refl, String, Bool, true, none, some, List, ◌++◌, Returns, Returns-bind, if◌then◌else◌, ◌==◌,
}
use try_it.Prelude.Dict
use try_it.Prelude.Dict.{Dict}
use try_it.Shared.Errors.{ErrorOr}
use try_it.Shared.Scores.{SessionAnswers}
use try_it.RealTime.Cache.{Cache}
use try_it.RealTime.Leaderboard.{HttpReply}
use try_it.RealTime.Message.{ServerMessage, bare, end}
use try_it.RealTime.Registry.{ConnectionContext, Attempt, unregister_session}
use try_it.RealTime.Registry.Delivery.{IsFree}
use try_it.RealTime.Registry.Online.{
  logged, sent_to, players_of, OneAdmin, broadcast_to_session-online,
}
use try_it.RealTime.Registry.Sessions.{unregister_session_lem}
use try_it.RealTime.Consumer.{HandlerDeps, cleanup_question_consumer, session_ended}

module _ (writes : List Attempt → ConnectionContext → ServerMessage → Bool)
    (up : (log : List Attempt) (c : ConnectionContext) (m : ServerMessage) → writes log c m ≡ true)
    (post : SessionAnswers → HttpReply) {C : Type 0} (cache : Cache C) where
  -- One round of the consumer of session ends, from a free lock, with a network that takes every write
  -- and one admin at most: the session's participants get the end message and the admin, to whom the
  -- comment on the message says that it is sent, does not; in the registry this session is gone and
  -- every other one is as it was, and the lock is free. The tracker stays as it was, with the quiz and
  -- the answers of the session.
  pub session_ended_lem :
      (cancel : String → ErrorOr) (sid : String) (d : HandlerDeps C) (tags : Dict String)
      → IsFree d.registry
      → OneAdmin d.registry sid
      → Returns (session_ended writes post cache cancel (some sid) d tags) (λ out.
        ((s : String)
          → Dict.get out.0.registry.connections s
            ≡ (if sid == s then none else Dict.get d.registry.connections s))
        × IsFree out.0.registry
        × (out.0.registry.attempts
            ≡ d.registry.attempts ++ sent_to (bare end) (players_of d.registry sid))
        × (out.0.tracker ≡ d.tracker)
        × (out.1 ≡ (cleanup_question_consumer cancel sid tags).1))
  unfolding session_ended
  session_ended_lem cancel sid d tags free one =
      rw (broadcast_to_session-online writes up sid (bare end) d.registry free one) (
        Returns-bind
          (unregister_session sid
            (logged d.registry (sent_to (bare end) (players_of d.registry sid))))
          _ _ _
          (unregister_session_lem sid
            (logged d.registry (sent_to (bare end) (players_of d.registry sid))) free)
          (λ r (gone, free', quiet). (gone, free', quiet, refl, refl)))
