-- ===== src/RealTime/Entering.antt =====
-- A user connects in the real-time service: what becomes of every connection and of the tracker.
use try_it.Prelude.{
  ℕ, ◌≡◌, refl, ap, ◌∙◌, inl, inr, String, true, false, ◌&&◌, Option, none, some, [], Returns,
  Returns-bind, Returns-mono, Returns-both, Bool-cases, Option-cases, if◌then◌else◌, ◌==◌, eq_refl,
}
use try_it.Prelude.Dict
use try_it.Prelude.Dict.{Dict, get-nil}
use try_it.Shared.Errors.{Result, ok, ErrorOr}
use try_it.Shared.Token.{UserToken, role_participant}
use try_it.Shared.Quiz.{OngoingQuiz}
use try_it.RealTime.Registry.{
  ConnectionContext, ConnectionRegistry, users_of, register_session, register_connection,
}
use try_it.RealTime.Registry.Delivery.{conn_of, IsFree}
use try_it.RealTime.Registry.Sessions.{
  or_empty, register_session_lem, register_connection_lem, register_connection-users,
}
use try_it.RealTime.Tracker.{add_participant}
use try_it.RealTime.Tracker.Valid.{IsValid}
use try_it.RealTime.Tracker.Answers.{RowWritten, row_or_blank, add_participant_lem}
use try_it.RealTime.Consumer.{HandlerDeps}
use try_it.RealTime.Handler.{ConnectReply, welcome, admitted, join_session, web_socket_handler}
use try_it.RealTime.Joining.{context_of, has_session}

-- This user of this session has the connection, every other one is as it was.
abbrev pub Connects : ConnectionContext → ConnectionRegistry → ConnectionRegistry → Type 0
Connects ctx r r' =
    (s u : String)
    → conn_of r' s u
      ≡ (if (ctx.session_id == s) && (ctx.user_id == u) then some ctx else conn_of r s u)

-- The users of its session, with this connection.
abbrev pub Enlists : ConnectionContext → Dict ConnectionContext → ConnectionRegistry → Type 0
Enlists ctx users r' =
    Dict.get r'.connections ctx.session_id ≡ some (Dict.put users ctx.user_id ctx)

-- Registering a session connects nobody.
register_session-conn_of :
    (r r1 : ConnectionRegistry) (sid s u : String)
    → ((s : String)
        → Dict.get r1.connections s ≡ (
            if sid == s
            then some (or_empty (Dict.get r.connections s))
            else Dict.get r.connections s))
    → conn_of r1 s u ≡ conn_of r s u
register_session-conn_of r r1 sid s u h =
    ap
      (λ (o : Option (Dict ConnectionContext)).
        Dict.get (elim o [ none ↦ [] | some users ↦ users ]) u)
      (h s)
    ∙ (elim (Bool-cases (sid == s)) [
      | inr e ↦ rw e refl
      | inl e ↦ rw e (elim (Option-cases (Dict.get r.connections s)) [
        | inl f ↦ rw (f, users_of) refl
        | inr (users, f) ↦ rw (f, users_of) refl
      ])
    ])

abbrev Admits :
    ConnectionContext
    → Dict ConnectionContext
    → ConnectionRegistry
    → ErrorOr × ConnectionRegistry
    → Type 0
Admits ctx users r out =
    (out.0 ≡ none) × (Connects ctx r out.1 × Enlists ctx users out.1) × IsFree out.1

module _ {C : Type 0} (token : UserToken) (socket : ℕ) (d : HandlerDeps C)
    (free : IsFree d.registry) (users : Dict ConnectionContext)
    (listed : Dict.get d.registry.connections token.session_id ≡ some users) where
  -- The session is known, so that registering it changes nothing.
  admitting :
      (r1 : ConnectionRegistry)
      → ((s : String)
          → Dict.get r1.connections s ≡ (
              if token.session_id == s
              then some (or_empty (Dict.get d.registry.connections s))
              else Dict.get d.registry.connections s))
      → IsFree r1
      → Returns
          (register_connection (context_of token socket) r1)
          (Admits (context_of token socket) users d.registry)
  admitting r1 sessions free1 =
      let ctx = context_of token socket in
      let sid = token.session_id in
      let there = has_session d.registry r1 sid sessions in
      let listed1 : Dict.get r1.connections sid ≡ some users =
        sessions sid ∙ (rw eq_refl (rw listed refl)) in
      Returns-mono (register_connection ctx r1) _ (Admits ctx users d.registry)
        (Returns-both (register_connection ctx r1) _ _ (register_connection_lem ctx r1 free1)
          (register_connection-users ctx r1 users free1 listed1))
        (λ out ((conns, error, free2), enlisted). (
          error ∙ (rw there refl),
          (
            λ s u.
                conns s u
                ∙ (rw (there, register_session-conn_of d.registry r1 sid s u sessions) refl),
            enlisted,
          ),
          free2,
        ))

  -- What follows the two registrations decides what the handler does.
  entering :
      (Q : ConnectReply × HandlerDeps C → Type 0)
      → ((r : ConnectionRegistry)
          → Connects (context_of token socket) d.registry r
            × Enlists (context_of token socket) users r
          → IsFree r
          → Returns (admitted token d (none, r)) Q)
      → Returns (join_session token socket d) Q
  unfolding join_session
  entering Q k =
      let ctx = context_of token socket in
      Returns-bind (register_session token.session_id d.registry) _ _ Q
        (register_session_lem token.session_id d.registry free)
        (λ (fresh, r1) (registered, sessions, free1).
          Returns-bind (register_connection ctx r1) (admitted token d) (Admits ctx users d.registry)
            Q (admitting r1 sessions free1)
            (λ (error, r2) (no_error, conns, free2). rw no_error (k r2 conns free2)))

  -- A host connects: nothing in the tracker changes.
  pub join_session-host :
      (token.user_type == role_participant) ≡ false
      → Returns (join_session token socket d) (λ out.
        (out.0 ≡ welcome token.session_id token.user_id)
        × (Connects (context_of token socket) d.registry out.1.registry
            × Enlists (context_of token socket) users out.1.registry)
        × IsFree out.1.registry
        × (out.1.tracker ≡ d.tracker))
  unfolding admitted
  join_session-host host = entering _ (λ r conns free'. rw host (refl, conns, free', refl))

  -- A participant connects to a session that has a quiz.
  pub join_session-player :
      (q : OngoingQuiz)
      → IsValid d.tracker
      → Dict.get d.tracker.tracker token.session_id ≡ some q
      → (token.user_type == role_participant) ≡ true
      → Returns (join_session token socket d) (λ out.
        (out.0 ≡ welcome token.session_id token.user_id)
        × (Connects (context_of token socket) d.registry out.1.registry
            × Enlists (context_of token socket) users out.1.registry)
        × IsFree out.1.registry
        × RowWritten d.tracker out.1.tracker token.session_id token.user_id
            (row_or_blank d.tracker token.session_id token.user_id))
  unfolding admitted
  join_session-player q v known plays = entering _ (λ r conns free'. rw plays (
      Returns-bind (add_participant d.tracker token.session_id token.user_id) _ _ _
        (add_participant_lem d.tracker token.session_id token.user_id q v known)
        (λ t w. (refl, conns, free', w.0))))

-- A token that is checked, and a connection that is upgraded.
pub web_socket_handler-joins :
    {C : Type 0} (parse : String → Result UserToken) (jwt : String) (token : UserToken) (socket : ℕ)
    (d : HandlerDeps C)
    → (jwt == "") ≡ false
    → parse jwt ≡ ok token
    → web_socket_handler parse (some socket) jwt d ≡ join_session token socket d
unfolding web_socket_handler
web_socket_handler-joins parse jwt token socket d given parsed =
    rw (given, web_socket_handler) (rw parsed refl)
