-- ===== src/Session/Rooms.antt =====
-- backend-go/SessionService/Handlers/ws_list_handler.go and DeleteUserFromSessionHandler.go: who is
-- connected to the waiting room of a session, and the lists of names that are sent when that changes.
-- A method holds the mutex of the registry from its first line to its last; `unregister_connection`
-- gives it back before it sends. Each is one step here. A socket is a number; `sent` is the trace
-- of what is written to sockets. A write that fails is logged and no more, so that its result is not
-- modelled. Checking a token is the JWT library's: `parse`. The pings of a connection are left out.
pub mod Steps
pub mod Aligned
pub mod Lists
use try_it.Prelude.{
  ℕ, String, Bool, true, false, Option, none, some, List, [], ◌∷◌, ◌++◌, map, if◌then◌else◌, ◌==◌,
}
use try_it.Prelude.Dict
use try_it.Prelude.Dict.{Dict}
use try_it.Prelude.Text.{join}
use try_it.Shared.Errors.{Result, ok, err, ErrorOr}
use try_it.Shared.Token.{UserToken}
use try_it.Http.{write_header, no_response}
use try_it.Session.Handlers.{Reply, refuse}

-- What is written to a socket: the names in the room by user, or the message that closes it.
pub data Packet : Type 0 where
  names : Dict String → Packet
  close : String → Packet

pub record ConnectionContext : Type 0 where
  pub conn : ℕ
  pub user_id : String
  pub user_name : String
  pub session_id : String
  pub role : String

pub record ConnectionRegistry : Type 0 where
  pub connections : Dict (Dict ℕ)
  pub rooms : Dict (Dict String)
  pub sent : List (ℕ × Packet)

unfoldable pub new_connection_registry : ConnectionRegistry
new_connection_registry = record { connections = []; rooms = []; sent = [] }

unfoldable pub register_session : String → ConnectionRegistry → ConnectionRegistry
register_session sid r = elim (Dict.get r.connections sid) [
  | some users ↦ r
  | none ↦ record r { connections = Dict.put r.connections sid []; rooms = Dict.put r.rooms sid [] }
]

unfoldable pub unregister_session : String → ConnectionRegistry → ConnectionRegistry
unregister_session sid r = record r {
  connections = Dict.remove r.connections sid;
  rooms = Dict.remove r.rooms sid;
}

-- The second half of `RegisterConnection`.
unfoldable pub register_name :
    String → String → String → ConnectionRegistry → ErrorOr × ConnectionRegistry
register_name sid uid name r = elim (Dict.get r.rooms sid) [
  | none ↦ (some (join "session " (join sid " not found")), r)
  | some room ↦ (none, record r { rooms = Dict.put r.rooms sid (Dict.put room uid name) })
]

unfoldable pub register_connection :
    String → String → String → ℕ → ConnectionRegistry → ErrorOr × ConnectionRegistry
unfolding register_name
register_connection sid uid name conn r = elim (Dict.get r.connections sid) [
  | none ↦ (some (join "session " (join sid " not found")), r)
  | some users ↦
      register_name sid uid name
        (record r { connections = Dict.put r.connections sid (Dict.put users uid conn) })
]

-- The sockets of a session, in the order in which the loop meets them.
unfoldable pub get_connections : String → ConnectionRegistry → List ℕ
get_connections sid r = elim (Dict.get r.connections sid) [
  | none ↦ []
  | some users ↦ Dict.values users
]

unfoldable pub get_connection_by_id : String → String → ConnectionRegistry → Option ℕ
get_connection_by_id sid uid r = elim (Dict.get r.connections sid) [
  | none ↦ none
  | some users ↦ Dict.get users uid
]

-- A copy of the room; a session without one has the empty room.
unfoldable pub get_rooms : String → ConnectionRegistry → Dict String
get_rooms sid r = elim (Dict.get r.rooms sid) [ none ↦ [] | some room ↦ room ]

-- The loop that writes the names to every socket of a session, in `handleRead` and `handleDelete`.
unfoldable pub send_names : String → ConnectionRegistry → ConnectionRegistry
unfolding get_rooms get_connections
send_names sid r = record r {
  sent = r.sent ++ map (λ (c : ℕ). (c, names (get_rooms sid r))) (get_connections sid r);
}

unfoldable pub handle_delete : String → String → ConnectionRegistry → ConnectionRegistry
unfolding send_names
handle_delete sid uid r = send_names sid r

-- The close message for a socket that is there.
abbrev pub closing : Option ℕ → List (ℕ × Packet)
closing none = []
closing (some c) = (c, close "user left") ∷ []

-- The half of `UnregisterConnection` on the sockets, and whether the session was there.
unfoldable pub drop_socket : String → String → ConnectionRegistry → Bool × ConnectionRegistry
drop_socket sid uid r = elim (Dict.get r.connections sid) [
  | none ↦ (false, r)
  | some users ↦ (
    true,
    record r {
      connections = Dict.put r.connections sid (Dict.remove users uid);
      sent = r.sent ++ closing (Dict.get users uid);
    },
  )
]

-- The half on the names.
unfoldable pub drop_name : String → String → ConnectionRegistry → Bool × ConnectionRegistry
drop_name sid uid r = elim (Dict.get r.rooms sid) [
  | none ↦ (false, r)
  | some room ↦ (true, record r { rooms = Dict.put r.rooms sid (Dict.remove room uid) })
]

-- The end of `UnregisterConnection`, on whether both halves found the session.
unfoldable pub after_drop :
    Bool → String → String → Bool × ConnectionRegistry → Bool × ConnectionRegistry
unfolding handle_delete
after_drop e1 sid uid (e2, r) =
    if e1 then (if e2 then (true, handle_delete sid uid r) else (false, r)) else (false, r)

unfoldable pub unregister_connection :
    String → String → ConnectionRegistry → Bool × ConnectionRegistry
unfolding drop_socket drop_name after_drop
unregister_connection sid uid r =
    let (e1, r1) = drop_socket sid uid r in after_drop e1 sid uid (drop_name sid uid r1)

-- `handleRead` after the registration, up to its loop.
unfoldable pub after_register : String → ErrorOr × ConnectionRegistry → Bool × ConnectionRegistry
unfolding send_names
after_register sid (some e, r) = (false, r)
after_register sid (none, r) = (true, send_names sid r)

-- `handleRead` up to its loop: false where the connection is refused.
unfoldable pub enter_room : ConnectionContext → ConnectionRegistry → Bool × ConnectionRegistry
unfolding register_connection after_register
enter_room ctx r =
    after_register ctx.session_id
      (register_connection ctx.session_id ctx.user_id ctx.user_name ctx.conn r)

-- `handleRead` from the read that fails on.
unfoldable pub leave_room : ConnectionContext → ConnectionRegistry → ConnectionRegistry
unfolding unregister_connection
leave_room ctx r = (unregister_connection ctx.session_id ctx.user_id r).1

pub data ConnectReply : Type 0 where
  missing_token invalid_token no_upgrade : ConnectReply
  reading : ConnectionContext → ConnectReply

-- The handler of `/ws`: the goroutine that it starts is `enter_room` on the context in its answer.
unfoldable pub web_socket_handler :
    (String → Result UserToken)
    → Option ℕ
    → String
    → ConnectionRegistry
    → ConnectReply × ConnectionRegistry
unfolding register_session
web_socket_handler parse upgrade token_string r =
    if token_string == "" then (missing_token, r) else elim (parse token_string) [
      | err e ↦ (invalid_token, r)
      | ok token ↦ elim upgrade [
        | none ↦ (no_upgrade, r)
        | some socket ↦ (
          reading (record {
            conn = socket;
            user_id = token.user_id;
            user_name = token.user_name;
            session_id = token.session_id;
            role = token.user_type;
          }),
          register_session token.session_id r,
        )
      ]
    ]

-- The handler of `/delete-user`, on the code and the user of its query.
unfoldable pub delete_user_handler :
    String → String → ConnectionRegistry → Reply × ConnectionRegistry
unfolding unregister_connection
delete_user_handler code uid r =
    let (found, r1) = unregister_connection code uid r in
    if found
    then (write_header 200 no_response, r1)
    else (refuse 400 "err to unregister connection", r1)
