-- ===== src/RealTime/Joining.antt =====
-- A user connects, and a session begins or ends, in the real-time service.
use try_it.Prelude.{
  ℕ, ◌≡◌, refl, ap, ◌∙◌, String, Bool, true, Option, none, some, List, done, panics, ◌>>=◌, Returns,
  Returns-bind, Bool-cases, inl, inr, Returns-mono, panics-bind, if◌then◌else◌, ◌==◌, eq_refl,
}
use try_it.Prelude.Dict
use try_it.Prelude.Dict.{Dict}
use try_it.Shared.Errors.{ErrorOr}
use try_it.Shared.Token.{UserToken, role_participant}
use try_it.Shared.Quiz.{Quiz, OngoingQuiz, UserAnswer}
use try_it.RealTime.Cache.{Cache}
use try_it.Shared.Scores.{SessionAnswers}
use try_it.RealTime.Leaderboard.{HttpReply}
use try_it.RealTime.Message.{ServerMessage}
use try_it.RealTime.Registry.{
  ConnectionContext, Attempt, ConnectionRegistry, register_session, register_connection,
}
use try_it.RealTime.Registry.Delivery.{conn_of, IsFree}
use try_it.RealTime.Registry.Sessions.{or_empty, register_session_lem, register_connection_lem}
use try_it.RealTime.Tracker.{add_participant, ensure_user, new_session}
use try_it.RealTime.Tracker.Valid.{IsValid, Agree}
use try_it.RealTime.Tracker.Answers.{RowWritten, row_or_blank, add_participant_lem}
use try_it.RealTime.Consumer.{HandlerDeps, consumer_tag, session_started}
use try_it.RealTime.Handler.{ConnectReply, welcome, admitted, join_session}

-- The connection of a user with this token and this socket.
abbrev pub context_of : UserToken → ℕ → ConnectionContext
context_of token socket = record {
  conn = some socket;
  user_id = token.user_id;
  session_id = token.session_id;
  role = token.user_type;
}

-- A session without a quiz has no table in a valid tracker.
Agree-none : (o : Option (Dict (List UserAnswer))) → Agree none o → o ≡ none
Agree-none none a = refl
Agree-none (some users) a = absurd a

-- What the registration of a connection gives: no error, and the user has the new connection.
abbrev IsRegistered : ConnectionContext → ErrorOr × ConnectionRegistry → Type 0
IsRegistered ctx out =
    (out.0 ≡ none) × (conn_of out.1 ctx.session_id ctx.user_id ≡ some ctx) × IsFree out.1

-- A session is there once it is registered.
pub has_session :
    (r r1 : ConnectionRegistry) (sid : String)
    → ((s : String)
        → Dict.get r1.connections s ≡ (
            if sid == s
            then some (or_empty (Dict.get r.connections s))
            else Dict.get r.connections s))
    → Dict.has r1.connections sid ≡ true
unfolding Dict.has
has_session r r1 sid h = rw (h sid, Dict.has) (rw eq_refl refl)

register_connection-there :
    (ctx : ConnectionContext) (r : ConnectionRegistry)
    → IsFree r
    → Dict.has r.connections ctx.session_id ≡ true
    → Returns (register_connection ctx r) (IsRegistered ctx)
register_connection-there ctx r free there =
    Returns-mono (register_connection ctx r) _ (IsRegistered ctx)
      (register_connection_lem ctx r free)
      (λ out (conns, error, free'). (
        error ∙ (rw there refl),
        conns ctx.session_id ctx.user_id ∙ (rw (there, eq_refl, eq_refl) refl),
        free',
      ))

module _ {C : Type 0} (token : UserToken) (socket : ℕ) (d : HandlerDeps C)
    (free : IsFree d.registry) where
  -- What follows the two registrations decides what the handler does.
  join_session-Returns :
      (Q : ConnectReply × HandlerDeps C → Type 0)
      → ((out : ErrorOr × ConnectionRegistry)
          → IsRegistered (context_of token socket) out
          → Returns (admitted token d out) Q)
      → Returns (join_session token socket d) Q
  unfolding join_session
  join_session-Returns Q k =
      Returns-bind (register_session token.session_id d.registry) _ _ Q
        (register_session_lem token.session_id d.registry free)
        (λ r1 h.
          Returns-bind (register_connection (context_of token socket) r1.1) _
            (IsRegistered (context_of token socket)) Q
            (register_connection-there (context_of token socket) r1.1 h.2
              (has_session d.registry r1.1 token.session_id h.1))
            k)

  join_session-panics :
      ((out : ErrorOr × ConnectionRegistry)
        → IsRegistered (context_of token socket) out
        → admitted token d out ≡ panics)
      → join_session token socket d ≡ panics
  unfolding join_session
  join_session-panics k =
      panics-bind (register_session token.session_id d.registry) _ _
        (register_session_lem token.session_id d.registry free)
        (λ r1 h.
          panics-bind (register_connection (context_of token socket) r1.1) _
            (IsRegistered (context_of token socket))
            (register_connection-there (context_of token socket) r1.1 h.2
              (has_session d.registry r1.1 token.session_id h.1))
            k)

  admitted-plays :
      (out : ErrorOr × ConnectionRegistry)
      → out.0 ≡ none
      → token.user_type ≡ role_participant
      → admitted token d out ≡ (
          add_participant d.tracker token.session_id token.user_id >>= λ t.
          done (welcome token.session_id token.user_id, record { tracker = t; registry = out.1 }))
  unfolding admitted
  admitted-plays out e plays =
      ap (λ (o : ErrorOr). admitted token d (o, out.1)) e ∙ (rw (plays, admitted) refl)

  -- A participant connects to a session that has a quiz, with a valid tracker and a free lock: the
  -- user is welcomed and registered with the new socket, in place of an older one, keeps the row of
  -- answers or gets a blank one, nothing else in the tracker changes, and the lock is free.
  pub join_session_lem :
      (q : OngoingQuiz)
      → IsValid d.tracker
      → Dict.get d.tracker.tracker token.session_id ≡ some q
      → token.user_type ≡ role_participant
      → Returns (join_session token socket d) (λ out.
        (out.0 ≡ welcome token.session_id token.user_id)
        × (conn_of out.1.registry token.session_id token.user_id ≡ some (context_of token socket))
        × IsFree out.1.registry
        × RowWritten d.tracker out.1.tracker token.session_id token.user_id
            (row_or_blank d.tracker token.session_id token.user_id))
  join_session_lem q v known plays = join_session-Returns Q (λ out (e, conn, free').
      rw (admitted-plays out e plays) (
        Returns-bind (add_participant d.tracker token.session_id token.user_id) _ _ Q
          (add_participant_lem d.tracker token.session_id token.user_id q v known)
          (λ t w. (refl, conn, free', w.0))))
    where
      Q : ConnectReply × HandlerDeps C → Type 0
      Q out =
          (out.0 ≡ welcome token.session_id token.user_id)
          × (conn_of out.1.registry token.session_id token.user_id ≡ some (context_of token socket))
          × IsFree out.1.registry
          × RowWritten d.tracker out.1.tracker token.session_id token.user_id
              (row_or_blank d.tracker token.session_id token.user_id)

  -- A participant of a session without a table of answers panics.
  pub join_session_no_table :
      Dict.get d.tracker.answers token.session_id ≡ none
      → token.user_type ≡ role_participant
      → join_session token socket d ≡ panics
  unfolding add_participant ensure_user
  join_session_no_table no_table plays =
      join_session-panics
        (λ out (e, conn, free'). rw (admitted-plays out e plays) (rw (no_table, ensure_user) refl))

  -- A participant who connects, with a free lock, before the session's start has arrived, in a valid
  -- tracker, panics: the map of answers of the session is nil.
  pub join_session_early :
      IsValid d.tracker
      → Dict.get d.tracker.tracker token.session_id ≡ none
      → token.user_type ≡ role_participant
      → join_session token socket d ≡ panics
  join_session_early v unknown plays =
      join_session_no_table
        (Agree-none (Dict.get d.tracker.answers token.session_id)
          (rw unknown at (v.agree token.session_id)))
        plays

module _ (writes : List Attempt → ConnectionContext → ServerMessage → Bool)
    (post : SessionAnswers → HttpReply) {C : Type 0} (cache : Cache C) where
  -- One round of the consumer of session starts, from a free lock: where the registry did not have
  -- the session the tracker gets its quiz and the tag of its consumer is noted; where a user was
  -- already connected to it, tracker and tags stay as they were, so that the session gets no quiz.
  -- Either way the registry has the session, with the users that it had, every other session is as it
  -- was, and the lock is free.
  pub session_started_lem :
      (sid : String) (quiz : Quiz) (d : HandlerDeps C) (tags : Dict String)
      → IsFree d.registry
      → Returns (session_started writes post cache (some (sid, quiz)) d tags) (λ out.
        (out.0.tracker ≡ (
          if Dict.has d.registry.connections sid
          then d.tracker
          else new_session cache d.tracker sid quiz))
        × (out.1 ≡ (
            if Dict.has d.registry.connections sid
            then tags
            else Dict.put tags sid (consumer_tag sid)))
        × ((s : String)
            → Dict.get out.0.registry.connections s ≡ (
                if sid == s
                then some (or_empty (Dict.get d.registry.connections s))
                else Dict.get d.registry.connections s))
        × IsFree out.0.registry)
  unfolding session_started
  session_started_lem sid quiz d tags free =
      Returns-bind (register_session sid d.registry) _ _ _
        (register_session_lem sid d.registry free)
        (λ out (registered, sessions, free').
          elim (Bool-cases (Dict.has d.registry.connections sid)) [
            | inl known ↦ rw (registered, known) (refl, refl, sessions, free')
            | inr new ↦ rw (registered, new) (refl, refl, sessions, free')
          ])
