-- ===== src/Session/Rooms/Aligned.antt =====
-- The two maps of the registry of the waiting rooms stay in step.
use try_it.Prelude.{
  ℕ, ◌≡◌, refl, sym, subst, inl, inr, String, Bool, true, false, Option, none, some, [],
  Option-cases, Bool-cases, ◌==◌,
}
use try_it.Prelude.Dict
use try_it.Prelude.Dict.{Dict, get-put, get-remove, get-nil}
use try_it.Session.Rooms.{
  ConnectionContext, ConnectionRegistry, new_connection_registry, register_session,
  unregister_session, send_names, unregister_connection, enter_room, leave_room,
  delete_user_handler,
}
use try_it.Session.Rooms.Steps.{
  register_session-known, register_session-new, replaced, unregister_connection-known,
  unregister_connection-unknown, enter_room-known, enter_room-unknown,
}

abbrev pub is_some {ℓ} : {A : Type ℓ} → Option A → Bool
is_some none = false
is_some (some a) = true

-- The same users.
abbrev pub Same : Dict ℕ → Dict String → Type 0
Same users room = (uid : String) → is_some (Dict.get users uid) ≡ is_some (Dict.get room uid)

-- What the two maps have for one session: nothing, or sockets and names of the same users.
abbrev pub Match : Option (Dict ℕ) → Option (Dict String) → Type 0
Match none none = Unit
Match none (some room) = ⊥
Match (some users) none = ⊥
Match (some users) (some room) = Same users room

abbrev pub MapsMatch : Dict (Dict ℕ) → Dict (Dict String) → Type 0
MapsMatch cs ns = (sid : String) → Match (Dict.get cs sid) (Dict.get ns sid)

pub record IsAligned (r : ConnectionRegistry) : Type 0 where
  pub aligned : MapsMatch r.connections r.rooms

-- The registries that the service can have, with what a request or a connection does to them.
pub data Reachable : ConnectionRegistry → Type 0 where
  start : Reachable new_connection_registry
  session :
      (sid : String) (r : ConnectionRegistry) → Reachable r → Reachable (register_session sid r)
  ended :
      (sid : String) (r : ConnectionRegistry) → Reachable r → Reachable (unregister_session sid r)
  entered :
      (ctx : ConnectionContext) (r : ConnectionRegistry)
      → Reachable r
      → Reachable (enter_room ctx r).1
  left :
      (ctx : ConnectionContext) (r : ConnectionRegistry)
      → Reachable r
      → Reachable (leave_room ctx r)
  deleted :
      (code uid : String) (r : ConnectionRegistry)
      → Reachable r
      → Reachable (delete_user_handler code uid r).1

Same-put :
    (users : Dict ℕ) (room : Dict String) (uid name : String) (conn : ℕ)
    → Same users room
    → Same (Dict.put users uid conn) (Dict.put room uid name)
Same-put users room uid name conn h v =
    rw (get-put, get-put) (elim (Bool-cases (uid == v)) [ inl e ↦ rw e refl | inr e ↦ rw e (h v) ])

Same-remove :
    (users : Dict ℕ) (room : Dict String) (uid : String)
    → Same users room
    → Same (Dict.remove users uid) (Dict.remove room uid)
Same-remove users room uid h v =
    rw (get-remove, get-remove)
      (elim (Bool-cases (uid == v)) [ inl e ↦ rw e refl | inr e ↦ rw e (h v) ])

MapsMatch-put :
    (cs : Dict (Dict ℕ)) (ns : Dict (Dict String)) (sid : String) (users : Dict ℕ)
    (room : Dict String)
    → MapsMatch cs ns
    → Same users room
    → MapsMatch (Dict.put cs sid users) (Dict.put ns sid room)
MapsMatch-put cs ns sid users room h same s =
    rw (get-put, get-put) (elim (Bool-cases (sid == s)) [ inl e ↦ rw e same | inr e ↦ rw e (h s) ])

MapsMatch-remove :
    (cs : Dict (Dict ℕ)) (ns : Dict (Dict String)) (sid : String)
    → MapsMatch cs ns
    → MapsMatch (Dict.remove cs sid) (Dict.remove ns sid)
MapsMatch-remove cs ns sid h s =
    rw (get-remove, get-remove)
      (elim (Bool-cases (sid == s)) [ inl e ↦ rw e tt | inr e ↦ rw e (h s) ])

-- A session that one map has, the other has too.
Match-some :
    (users : Dict ℕ) (o : Option (Dict String))
    → Match (some users) o
    → (room : Dict String) × (o ≡ some room) × Same users room
Match-some users none h = absurd h
Match-some users (some room) h = (room, refl, h)

Match-none : (o : Option (Dict String)) → Match none o → o ≡ none
Match-none none h = refl
Match-none (some room) h = absurd h

-- The room of a session in an aligned registry.
pub room_of :
    (r : ConnectionRegistry) (sid : String) (users : Dict ℕ)
    → IsAligned r
    → Dict.get r.connections sid ≡ some users
    → (room : Dict String) × (Dict.get r.rooms sid ≡ some room) × Same users room
room_of r sid users a e = Match-some users (Dict.get r.rooms sid) (rw e at (a.aligned sid))

pub no_room :
    (r : ConnectionRegistry) (sid : String)
    → IsAligned r
    → Dict.get r.connections sid ≡ none
    → Dict.get r.rooms sid ≡ none
no_room r sid a e = Match-none (Dict.get r.rooms sid) (rw e at (a.aligned sid))

module _ (r : ConnectionRegistry) (sid : String) where
  register_session-IsAligned : IsAligned r → IsAligned (register_session sid r)
  register_session-IsAligned a = elim (Option-cases (Dict.get r.connections sid)) [
    | inr (users, e) ↦ subst IsAligned (sym (register_session-known r sid users e)) a
    | inl e ↦ subst IsAligned (sym (register_session-new r sid e)) (record {
      aligned =
          MapsMatch-put r.connections r.rooms sid [] [] a.aligned
            (λ uid. rw (get-nil, get-nil) refl);
    })
  ]

  unregister_session-IsAligned : IsAligned r → IsAligned (unregister_session sid r)
  unfolding unregister_session
  unregister_session-IsAligned a = record {
    aligned = MapsMatch-remove r.connections r.rooms sid a.aligned;
  }

module _ (r : ConnectionRegistry) (sid : String) (users : Dict ℕ) (room : Dict String)
    (there : Dict.get r.connections sid ≡ some users)
    (named : Dict.get r.rooms sid ≡ some room) where
  replaced-IsAligned :
      (users' : Dict ℕ) (room' : Dict String)
      → IsAligned r
      → Same users' room'
      → IsAligned (replaced r sid users room there named users' room')
  replaced-IsAligned users' room' a same = record {
    aligned = MapsMatch-put r.connections r.rooms sid users' room' a.aligned same;
  }

enter_room-IsAligned :
    (ctx : ConnectionContext) (r : ConnectionRegistry)
    → IsAligned r
    → IsAligned (enter_room ctx r).1
unfolding send_names
enter_room-IsAligned ctx r a = elim (Option-cases (Dict.get r.connections ctx.session_id)) [
  | inl e ↦ rw (enter_room-unknown ctx r e (no_room r ctx.session_id a e)) a
  | inr (users, e) ↦
      let (room, named, same) = room_of r ctx.session_id users a e in
      rw (enter_room-known ctx r users room e named) (record {
        aligned =
            (replaced-IsAligned r ctx.session_id users room e named
              (Dict.put users ctx.user_id ctx.conn) (Dict.put room ctx.user_id ctx.user_name) a
              (Same-put users room ctx.user_id ctx.user_name ctx.conn same)).aligned;
      })
]

unregister_connection-IsAligned :
    (sid uid : String) (r : ConnectionRegistry)
    → IsAligned r
    → IsAligned (unregister_connection sid uid r).1
unfolding send_names
unregister_connection-IsAligned sid uid r a = elim (Option-cases (Dict.get r.connections sid)) [
  | inl e ↦ rw (unregister_connection-unknown r sid e (no_room r sid a e) uid) a
  | inr (users, e) ↦
      let (room, named, same) = room_of r sid users a e in
      rw (unregister_connection-known r sid users room e named uid) (record {
        aligned =
            (replaced-IsAligned r sid users room e named (Dict.remove users uid)
              (Dict.remove room uid) a (Same-remove users room uid same)).aligned;
      })
]

delete_user_handler-IsAligned :
    (code uid : String) (r : ConnectionRegistry)
    → IsAligned r
    → IsAligned (delete_user_handler code uid r).1
unfolding delete_user_handler
delete_user_handler-IsAligned code uid r a =
    elim (Bool-cases (unregister_connection code uid r).0) [
      | inl e ↦ rw e (unregister_connection-IsAligned code uid r a)
      | inr e ↦ rw e (unregister_connection-IsAligned code uid r a)
    ]

-- Whatever users connect, leave and are deleted and whatever sessions begin and end, in any order, a
-- session has sockets if and only if it has a room, and a user of it has a socket there if and only
-- if the room has the user's name.
pub Reachable-IsAligned : (r : ConnectionRegistry) → Reachable r → IsAligned r
unfolding new_connection_registry leave_room
Reachable-IsAligned _ start = record { aligned = λ sid. rw (get-nil, get-nil) tt }
Reachable-IsAligned _ (session sid r h) = register_session-IsAligned r sid (Reachable-IsAligned r h)
Reachable-IsAligned _ (ended sid r h) = unregister_session-IsAligned r sid (Reachable-IsAligned r h)
Reachable-IsAligned _ (entered ctx r h) = enter_room-IsAligned ctx r (Reachable-IsAligned r h)
Reachable-IsAligned _ (left ctx r h) =
    unregister_connection-IsAligned ctx.session_id ctx.user_id r (Reachable-IsAligned r h)
Reachable-IsAligned _ (deleted code uid r h) =
    delete_user_handler-IsAligned code uid r (Reachable-IsAligned r h)
