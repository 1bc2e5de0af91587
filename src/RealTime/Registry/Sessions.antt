-- ===== src/RealTime/Registry/Sessions.antt =====
-- How sessions and connections come and go in the registry.
use try_it.Prelude.{
  ◌≡◌, refl, ◌∙◌, String, true, false, not, ◌&&◌, Option, none, some, List, [], ◌∷◌, arith, Returns,
  done, Option-cases, inl, inr, eq_iff, eq_refl, ◌==◌, if◌then◌else◌,
}
use try_it.Prelude.Dict
use try_it.Prelude.Dict.{Dict, get-nil, get-put, get-remove}
use try_it.RealTime.Registry.{
  ConnectionContext, ConnectionRegistry, lock, users_of, without_connection, without_users,
  register_session, unregister_session, register_connection,
}
use try_it.RealTime.Registry.Delivery.{IsFree, conn_of}

abbrev pub or_empty : Option (Dict ConnectionContext) → Dict ConnectionContext
or_empty none = []
or_empty (some users) = users

lock-free : (r : ConnectionRegistry) → IsFree r → lock r ≡ done (record r { writer = true })
lock-free r h = ground arith

-- From a free lock `RegisterSession` returns true exactly if the session was not there. Afterwards
-- it is there with the users that it had, no other session changed, and the lock is free.
pub register_session_lem :
    (sid : String) (r : ConnectionRegistry)
    → IsFree r
    → Returns (register_session sid r) (λ out.
      (out.0 ≡ not (Dict.has r.connections sid))
      × ((s : String)
          → Dict.get out.1.connections s ≡ (
              if sid == s
              then some (or_empty (Dict.get r.connections s))
              else Dict.get r.connections s))
      × IsFree out.1)
unfolding register_session Dict.has
register_session_lem sid r h =
    rw (lock-free r h) (elim (Option-cases (Dict.get r.connections sid)) [
      | inl e ↦
          rw (e, Returns)
            (
              ground (arith, e),
              λ s. ground (arith, e, eq_iff sid s, get-put r.connections sid s []),
              (h.0, refl),
            )
      | inr (users, e) ↦
          rw (e, Returns) (ground (arith, e), λ s. ground (arith, e, eq_iff sid s), (h.0, refl))
    ])

-- From a free lock `RegisterConnection` fails, and changes nothing, exactly if the session is not
-- there. Otherwise the user has this connection, in place of any that it had, and no other user of
-- any session is touched. The lock is free again.
pub register_connection_lem :
    (ctx : ConnectionContext) (r : ConnectionRegistry)
    → IsFree r
    → Returns (register_connection ctx r) (λ out.
      ((s u : String)
        → conn_of out.1 s u ≡ (
            if Dict.has r.connections ctx.session_id
              && ((ctx.session_id == s) && (ctx.user_id == u))
            then some ctx
            else conn_of r s u))
      × (out.0 ≡ (if Dict.has r.connections ctx.session_id then none else some "session not found"))
      × IsFree out.1)
unfolding register_connection Dict.has
register_connection_lem ctx r h =
    let sid = ctx.session_id in
    let uid = ctx.user_id in
    rw (lock-free r h) (elim (Option-cases (Dict.get r.connections sid)) [
      | inl e ↦ rw (e, Returns) (λ s u. ground (arith, e), ground (arith, e), (h.0, refl))
      | inr (users, e) ↦
          rw (e, Returns)
            (
              λ s u. ground (
                arith,
                e,
                eq_iff sid s,
                eq_iff uid u,
                get-put r.connections sid s (Dict.put users uid ctx),
                get-put users uid u ctx,
              ),
              ground (arith, e),
              (h.0, refl),
            )
    ])

-- The users of a session after one of them got a connection.
pub register_connection-users :
    (ctx : ConnectionContext) (r : ConnectionRegistry) (users : Dict ConnectionContext)
    → IsFree r
    → Dict.get r.connections ctx.session_id ≡ some users
    → Returns
        (register_connection ctx r)
        (λ out. Dict.get out.1.connections ctx.session_id ≡ some (Dict.put users ctx.user_id ctx))
unfolding register_connection
register_connection-users ctx r users h e = rw (lock-free r h) (
    rw (e, Returns)
      (get-put r.connections ctx.session_id ctx.session_id (Dict.put users ctx.user_id ctx)
        ∙ (rw eq_refl refl)))

without_connection-other :
    (m : Dict (Dict ConnectionContext)) (sid u s : String)
    → (sid == s) ≡ false
    → Dict.get (without_connection m sid u) s ≡ Dict.get m s
unfolding without_connection
without_connection-other m sid u s h = elim (Option-cases (Dict.get m sid)) [
  | inl e ↦ rw (e, without_connection)
  | inr (users, e) ↦ rw (e, without_connection) (rw (get-put m sid s (Dict.remove users u), h))
]

-- Taking a session's users out touches no other session.
without_users-other :
    (us : List String) (m : Dict (Dict ConnectionContext)) (sid s : String)
    → (sid == s) ≡ false
    → Dict.get (without_users m sid us) s ≡ Dict.get m s
unfolding without_users
without_users-other [] m sid s h = refl
without_users-other (u ∷ us) m sid s h =
    without_users-other us (without_connection m sid u) sid s h
    ∙ without_connection-other m sid u s h

-- From a free lock `UnregisterSession` takes out this session and no other, and sends nothing; the
-- lock is free again.
pub unregister_session_lem :
    (sid : String) (r : ConnectionRegistry)
    → IsFree r
    → Returns (unregister_session sid r) (λ r'.
      ((s : String)
        → Dict.get r'.connections s ≡ (if sid == s then none else Dict.get r.connections s))
      × IsFree r'
      × (r'.attempts ≡ r.attempts))
unfolding unregister_session
unregister_session_lem sid r h = rw (lock-free r h) (
  λ s. ground (
    arith,
    get-remove (without_users r.connections sid (Dict.keys (users_of r.connections sid))) sid s,
    without_users-other (Dict.keys (users_of r.connections sid)) r.connections sid s,
  ),
  (h.0, refl),
  refl,
)
