-- ===== src/Session/Rooms/Steps.antt =====
-- What each change of the registry of the waiting rooms does, where the session is there and where
-- it is not.
use try_it.Prelude.{ℕ, ◌≡◌, refl, ap, ◌∙◌, String, Bool, true, false, none, some, [], ◌++◌}
use try_it.Prelude.Dict
use try_it.Prelude.Text.{join}
use try_it.Prelude.Dict.{Dict, get-put, get-remove, get-nil}
use try_it.Session.Rooms.{
  ConnectionContext, ConnectionRegistry, register_session, register_name, register_connection,
  send_names, handle_delete, drop_socket, drop_name, after_drop, unregister_connection,
  after_register, enter_room, closing,
}

module _ (r : ConnectionRegistry) (sid : String) where
  pub register_session-known :
      (users : Dict ℕ) → Dict.get r.connections sid ≡ some users → register_session sid r ≡ r
  unfolding register_session
  register_session-known users e = rw (e, register_session) refl

  pub register_session-new :
      Dict.get r.connections sid ≡ none
      → register_session sid r
        ≡ record r { connections = Dict.put r.connections sid []; rooms = Dict.put r.rooms sid [] }
  unfolding register_session
  register_session-new e = rw (e, register_session) refl

-- The registry after a user entered or left a session with these users and this room.
module _ (r : ConnectionRegistry) (sid : String) (users : Dict ℕ) (room : Dict String)
    (there : Dict.get r.connections sid ≡ some users)
    (named : Dict.get r.rooms sid ≡ some room) where
  abbrev pub replaced : Dict ℕ → Dict String → ConnectionRegistry
  replaced users' room' = record r {
    connections = Dict.put r.connections sid users';
    rooms = Dict.put r.rooms sid room';
  }

  pub register_connection-known :
      (uid name : String) (conn : ℕ)
      → register_connection sid uid name conn r
        ≡ (none, replaced (Dict.put users uid conn) (Dict.put room uid name))
  unfolding register_connection register_name
  register_connection-known uid name conn =
      rw (there, register_connection) (rw (named, register_name) refl)

  -- The registry once the socket and the name are gone, before the names are sent.
  abbrev pub without : String → ConnectionRegistry
  without uid = record (replaced (Dict.remove users uid) (Dict.remove room uid)) {
    sent = r.sent ++ closing (Dict.get users uid);
  }

  drop_socket-known :
      (uid : String)
      → drop_socket sid uid r ≡ (
        true,
        record r {
          connections = Dict.put r.connections sid (Dict.remove users uid);
          sent = r.sent ++ closing (Dict.get users uid);
        },
      )
  unfolding drop_socket
  drop_socket-known uid = rw (there, drop_socket) refl

  drop_name-known :
      (uid : String)
      → drop_name sid uid (record r {
        connections = Dict.put r.connections sid (Dict.remove users uid);
        sent = r.sent ++ closing (Dict.get users uid);
      })
        ≡ (true, without uid)
  unfolding drop_name
  drop_name-known uid = rw (named, drop_name) refl

  pub unregister_connection-known :
      (uid : String) → unregister_connection sid uid r ≡ (true, send_names sid (without uid))
  unfolding unregister_connection after_drop handle_delete
  unregister_connection-known uid =
      ap (λ (p : Bool × ConnectionRegistry). after_drop p.0 sid uid (drop_name sid uid p.1))
        (drop_socket-known uid)
      ∙ ap (after_drop true sid uid) (drop_name-known uid)

-- Without the session nothing happens.
module _ (r : ConnectionRegistry) (sid : String) (none_there : Dict.get r.connections sid ≡ none)
    (none_named : Dict.get r.rooms sid ≡ none) where
  drop_socket-unknown : (uid : String) → drop_socket sid uid r ≡ (false, r)
  unfolding drop_socket
  drop_socket-unknown uid = rw (none_there, drop_socket) refl

  drop_name-unknown : (uid : String) → drop_name sid uid r ≡ (false, r)
  unfolding drop_name
  drop_name-unknown uid = rw (none_named, drop_name) refl

  pub unregister_connection-unknown : (uid : String) → unregister_connection sid uid r ≡ (false, r)
  unfolding unregister_connection after_drop
  unregister_connection-unknown uid =
      ap (λ (p : Bool × ConnectionRegistry). after_drop p.0 sid uid (drop_name sid uid p.1))
        (drop_socket-unknown uid)
      ∙ ap (after_drop false sid uid) (drop_name-unknown uid)

  pub register_connection-unknown :
      (uid name : String) (conn : ℕ)
      → register_connection sid uid name conn r
        ≡ (some (join "session " (join sid " not found")), r)
  unfolding register_connection
  register_connection-unknown uid name conn = rw (none_there, register_connection) refl

pub enter_room-unknown :
    (ctx : ConnectionContext) (r : ConnectionRegistry)
    → Dict.get r.connections ctx.session_id ≡ none
    → Dict.get r.rooms ctx.session_id ≡ none
    → enter_room ctx r ≡ (false, r)
unfolding enter_room after_register
enter_room-unknown ctx r e e' =
    ap (after_register ctx.session_id)
      (register_connection-unknown r ctx.session_id e e' ctx.user_id ctx.user_name ctx.conn)

pub enter_room-known :
    (ctx : ConnectionContext) (r : ConnectionRegistry) (users : Dict ℕ) (room : Dict String)
    (there : Dict.get r.connections ctx.session_id ≡ some users)
    (named : Dict.get r.rooms ctx.session_id ≡ some room)
    → enter_room ctx r ≡ (
      true,
      send_names ctx.session_id (
          replaced r ctx.session_id users room there named
            (Dict.put users ctx.user_id ctx.conn)
            (Dict.put room ctx.user_id ctx.user_name)),
    )
unfolding enter_room after_register
enter_room-known ctx r users room there named = ap (after_register ctx.session_id) (
    register_connection-known r ctx.session_id users room there named ctx.user_id ctx.user_name
      ctx.conn)
