-- ===== src/Session/Rooms/Lists.antt =====
-- What is sent when a user enters or leaves a waiting room.
use try_it.Prelude.{
  ℕ, ◌≡◌, refl, ap, sym, subst, inl, inr, Option-cases, ◌∙◌, String, true, false, Option, none,
  some, List, ◌++◌, map, eq_refl,
}
use try_it.Prelude.Dict
use try_it.Prelude.Dict.{Dict, get-put, get-remove}
use try_it.Session.Rooms.{
  Packet, names, ConnectionContext, ConnectionRegistry, get_connections, get_rooms, send_names,
  unregister_connection, enter_room, closing,
}
use try_it.Session.Rooms.Aligned.{IsAligned, room_of, no_room}
use try_it.Session.Rooms.Steps.{
  replaced, without, enter_room-known, enter_room-unknown, unregister_connection-known,
  unregister_connection-unknown,
}

-- The list of names for every socket.
abbrev pub lists : Dict String → Dict ℕ → List (ℕ × Packet)
lists room users = map (λ (c : ℕ). (c, names room)) (Dict.values users)

-- A registry with these users and this room in the session.
send_names-known :
    (sid : String) (r : ConnectionRegistry) (users : Dict ℕ) (room : Dict String)
    → Dict.get r.connections sid ≡ some users
    → Dict.get r.rooms sid ≡ some room
    → send_names sid r ≡ record r { sent = r.sent ++ lists room users }
unfolding send_names get_rooms get_connections
send_names-known sid r users room there named =
    rw (there, get_connections) (rw (named, get_rooms) refl)

get-put_self : {V : Type 0} (m : Dict V) (k : String) (v : V) → Dict.get (Dict.put m k v) k ≡ some v
get-put_self m k v = rw (get-put, eq_refl) refl

-- A user enters a session that has these sockets, or none.
abbrev pub Enters : ConnectionContext → ConnectionRegistry → Option (Dict ℕ) → Type 0
Enters ctx r none = enter_room ctx r ≡ (false, r)
Enters ctx r (some users) =
    (room : Dict String) × (Dict.get r.rooms ctx.session_id ≡ some room)
    × (enter_room ctx r ≡ (
      true,
      record {
        connections = Dict.put r.connections ctx.session_id (Dict.put users ctx.user_id ctx.conn);
        rooms = Dict.put r.rooms ctx.session_id (Dict.put room ctx.user_id ctx.user_name);
        sent =
            r.sent
            ++ lists (Dict.put room ctx.user_id ctx.user_name)
                (Dict.put users ctx.user_id ctx.conn);
      },
    ))

-- A user leaves a session that has these sockets, or none.
abbrev pub Leaves : String → String → ConnectionRegistry → Option (Dict ℕ) → Type 0
Leaves sid uid r none = unregister_connection sid uid r ≡ (false, r)
Leaves sid uid r (some users) =
    (room : Dict String) × (Dict.get r.rooms sid ≡ some room)
    × (unregister_connection sid uid r ≡ (
      true,
      record {
        connections = Dict.put r.connections sid (Dict.remove users uid);
        rooms = Dict.put r.rooms sid (Dict.remove room uid);
        sent =
            (r.sent ++ closing (Dict.get users uid))
            ++ lists (Dict.remove room uid) (Dict.remove users uid);
      },
    ))

-- In an aligned registry: a user who enters a session that it knows is in the map with the new socket
-- and in the room with the name, and every socket of the session, the new one too, is sent the names
-- of the whole room; a session that it does not know refuses the user, and nothing changes.
pub enter_room_lem :
    (ctx : ConnectionContext) (r : ConnectionRegistry)
    → IsAligned r
    → Enters ctx r (Dict.get r.connections ctx.session_id)
enter_room_lem ctx r a = elim (Option-cases (Dict.get r.connections ctx.session_id)) [
  | inl e ↦ subst (Enters ctx r) (sym e) (enter_room-unknown ctx r e (no_room r ctx.session_id a e))
  | inr (users, e) ↦ subst (Enters ctx r) (sym e) (known users e)
]
  where
    known :
        (users : Dict ℕ)
        → Dict.get r.connections ctx.session_id ≡ some users
        → Enters ctx r (some users)
    known users e =
        let (room, named, same) = room_of r ctx.session_id users a e in
        let users' = Dict.put users ctx.user_id ctx.conn in
        let room' = Dict.put room ctx.user_id ctx.user_name in
        (
          room,
          named,
          enter_room-known ctx r users room e named
              ∙ ap (λ (q : ConnectionRegistry). (true, q))
                  (send_names-known ctx.session_id
                    (replaced r ctx.session_id users room e named users' room') users' room'
                    (get-put_self r.connections ctx.session_id users')
                    (get-put_self r.rooms ctx.session_id room')),
        )

-- In an aligned registry: a user who leaves or is deleted is in neither map any more, a socket that
-- was there is sent the close message, and every socket that is left is then sent the names that are
-- left; a session that the registry does not know changes nothing.
pub unregister_connection_lem :
    (sid uid : String) (r : ConnectionRegistry)
    → IsAligned r
    → Leaves sid uid r (Dict.get r.connections sid)
unregister_connection_lem sid uid r a = elim (Option-cases (Dict.get r.connections sid)) [
  | inl e ↦
      subst (Leaves sid uid r) (sym e)
        (unregister_connection-unknown r sid e (no_room r sid a e) uid)
  | inr (users, e) ↦ subst (Leaves sid uid r) (sym e) (known users e)
]
  where
    known :
        (users : Dict ℕ) → Dict.get r.connections sid ≡ some users → Leaves sid uid r (some users)
    known users e =
        let (room, named, same) = room_of r sid users a e in
        (
          room,
          named,
          unregister_connection-known r sid users room e named uid
              ∙ ap (λ (q : ConnectionRegistry). (true, q))
                  (send_names-known sid (without r sid users room e named uid)
                    (Dict.remove users uid) (Dict.remove room uid)
                    (get-put_self r.connections sid (Dict.remove users uid))
                    (get-put_self r.rooms sid (Dict.remove room uid))),
        )
