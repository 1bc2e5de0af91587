-- ===== src/RealTime/Registry/Broadcast.antt =====
-- Whom `BroadcastToSession` and `SendToAdmin` reach, and when they do not come back.
use try_it.Prelude.{
  ◌+◌, ◌-◌, ◌≤◌, ◌<◌, ltb, ◌≡◌, refl, ap, sym, ◌∙◌, String, Bool, true, false, not, ◌||◌, List, [],
  ◌∷◌, ◌++◌, arith, All, select, count_of, done, blocks, Returns, Returns-bind, Returns-mono, inl,
  inr, Bool-cases, if◌then◌else◌,
}
use try_it.Prelude.Dict
use try_it.Prelude.Dict.{Dict}
use try_it.RealTime.Message.{ServerMessage}
use try_it.RealTime.Registry.{
  ConnectionContext, Attempt, ConnectionRegistry, is_admin, has_conn, users_of, get_connections,
  unregister_connection, rlock, runlock, without_admins, send_one, send_message,
  broadcast_to_session, send_to_admins, send_to_admin,
}
use try_it.RealTime.Registry.Admins.{without_admins_lem}
use try_it.RealTime.Registry.Delivery.{
  IsFree, SentTo, SentTo-nil, SentTo-trans, send_one_lem, send_message_lem,
}

select-all : (cs : List ConnectionContext) → select (λ c. true) cs ≡ cs
select-all [] = refl
select-all (c ∷ cs) = ap (◌∷◌ c) (select-all cs)

abbrev pub receivers_of : ConnectionRegistry → String → List ConnectionContext
receivers_of r sid = Dict.values (users_of r.connections sid)

-- The registry after a read under the lock.
abbrev pub reread : ConnectionRegistry → ConnectionRegistry
reread r = record r { readers = r.readers + 1 - 1 }

pub get_connections_lem :
    (sid : String) (r : ConnectionRegistry)
    → IsFree r
    → get_connections sid r ≡ done (receivers_of r sid, reread r)
unfolding get_connections
get_connections_lem sid r h = ground arith

chosen :
    (to_admin : Bool) (cs : List ConnectionContext)
    → count_of is_admin cs ≤ 1
    → (if to_admin then done cs else without_admins cs)
      ≡ done (select (λ c. to_admin || not (is_admin c)) cs)
chosen true cs h = ap done (sym (select-all cs))
chosen false cs h = without_admins_lem cs h

module _ (writes : List Attempt → ConnectionContext → ServerMessage → Bool) where
  -- A change of the lock counter that ends where it began.
  SentTo-reread :
      (r r' : ConnectionRegistry) (m : ServerMessage) (cs : List ConnectionContext)
      → SentTo writes (reread r) r' m cs
      → SentTo writes r r' m cs
  SentTo-reread r r' m cs s = record {
    fresh = s.fresh;
    trace = s.trace;
    receivers = s.receivers;
    messages = s.messages;
    outcomes = s.outcomes;
    registered = s.registered;
    same_readers = omega (arith, s.same_readers);
    same_writer = s.same_writer;
  }

  -- From a free lock a broadcast returns: the message went once to everybody in the session who has
  -- a socket, if `send_to_admin` is set, and otherwise to everybody but the admin, who is one at
  -- most. Exactly the users with a failed write are no longer registered. The lock is free again.
  pub broadcast_to_session_lem :
      (sid : String) (m : ServerMessage) (to_admin : Bool) (r : ConnectionRegistry)
      → IsFree r
      → count_of is_admin (Dict.values (users_of r.connections sid)) ≤ 1
      → Returns (broadcast_to_session writes sid m to_admin r) (λ r'.
        SentTo writes r r' m
          (select (λ c. to_admin || not (is_admin c)) (Dict.values (users_of r.connections sid)))
        × IsFree r')
  unfolding broadcast_to_session
  broadcast_to_session_lem sid m to_admin r h one =
      rw (get_connections_lem sid r h, chosen to_admin (receivers_of r sid) one)
        (Returns-mono (send_message writes m _ (reread r)) (λ r'. SentTo writes (reread r) r' m _) _
          (send_message_lem writes m _ (reread r) (omega (arith, h.0), h.1))
          λ r' s.
            (SentTo-reread r r' m _ s, (omega (arith, h.0, s.same_readers), s.same_writer ∙ h.1)))

  send_to_admins_lem :
      (m : ServerMessage) (cs : List ConnectionContext) (r : ConnectionRegistry)
      → ((log : List Attempt) (c : ConnectionContext) → writes log c m ≡ true)
      → Returns (send_to_admins writes m cs r) (λ r'. SentTo writes r r' m (select is_admin cs))
  unfolding send_to_admins send_message
  send_to_admins_lem m [] r up = SentTo-nil writes r m
  send_to_admins_lem m (c ∷ cs) r up = elim (Bool-cases (is_admin c)) [
    | inr e ↦ rw e (send_to_admins_lem m cs r up)
    | inl e ↦ rw e (
        Returns-bind (send_message writes m (c ∷ []) r) (send_to_admins writes m cs)
          (λ r1. SentTo writes r r1 m (c ∷ [])) _
          (Returns-bind (send_one writes m c r) done (λ r1. SentTo writes r r1 m (c ∷ []))
            (λ r1. SentTo writes r r1 m (c ∷ []))
            (send_one_lem writes m c r (inr (up r.attempts c))) λ r1 p. p)
          λ r1 first.
            Returns-mono (send_to_admins writes m cs r1)
              (λ r2. SentTo writes r1 r2 m (select is_admin cs)) _ (send_to_admins_lem m cs r1 up)
              λ r2 rest. SentTo-trans writes r r1 r2 m c (select is_admin cs) first rest)
  ]

  -- The read lock taken before and given back after.
  SentTo-reading :
      (r r' : ConnectionRegistry) (m : ServerMessage) (cs : List ConnectionContext)
      → SentTo writes (record r { readers = r.readers + 1 }) r' m cs
      → SentTo writes r (runlock r') m cs
  SentTo-reading r r' m cs s = record {
    fresh = s.fresh;
    trace = s.trace;
    receivers = s.receivers;
    messages = s.messages;
    outcomes = s.outcomes;
    registered = s.registered;
    same_readers = omega (arith, s.same_readers);
    same_writer = s.same_writer;
  }

  -- If the network takes every write, the admins of the session get the message, nobody loses its
  -- registration for it, and the read lock is given back.
  pub send_to_admin_lem :
      (sid : String) (m : ServerMessage) (r : ConnectionRegistry)
      → ((log : List Attempt) (c : ConnectionContext) → writes log c m ≡ true)
      → r.writer ≡ false
      → Returns
          (send_to_admin writes sid m r)
          (λ r'. SentTo writes r r' m (select is_admin (Dict.values (users_of r.connections sid))))
  unfolding send_to_admin
  send_to_admin_lem sid m r up h =
      let entered : rlock r ≡ done (record r { readers = r.readers + 1 }) = ground arith in
      rw entered (
        Returns-bind
          (send_to_admins writes m (receivers_of r sid) (record r { readers = r.readers + 1 }))
          (λ r2. done (runlock r2))
          (λ r2.
            SentTo writes (record r { readers = r.readers + 1 }) r2 m
              (select is_admin (receivers_of r sid)))
          _ (send_to_admins_lem m _ _ up) λ r2 s. SentTo-reading r r2 m _ s)

  stuck_at_admin :
      (m : ServerMessage) (xs ys : List ConnectionContext) (a : ConnectionContext)
      (r : ConnectionRegistry)
      → All (λ c. is_admin c ≡ false) xs
      → is_admin a ≡ true
      → has_conn a ≡ true
      → writes r.attempts a m ≡ false
      → 0 < r.readers
      → send_to_admins writes m (xs ++ a ∷ ys) r ≡ blocks
  unfolding send_to_admins send_message send_one unregister_connection
  stuck_at_admin m [] ys a r hx ha socket lost h =
      let stop : (r.writer || ltb 0 r.readers) ≡ true = ground arith in rw (ha, socket, lost, stop)
  stuck_at_admin m (x ∷ xs) ys a r hx ha socket lost h =
      rw (hx.0) (stuck_at_admin m xs ys a r hx.1 ha socket lost h)

  -- A failed write to the admin under `SendToAdmin` blocks for ever: the read lock is held, and
  -- `UnregisterConnection` asks for the write lock.
  pub send_to_admin_deadlock :
      (sid : String) (m : ServerMessage) (r : ConnectionRegistry) (xs ys : List ConnectionContext)
      (a : ConnectionContext)
      → Dict.values (users_of r.connections sid) ≡ xs ++ a ∷ ys
      → All (λ c. is_admin c ≡ false) xs
      → is_admin a ≡ true
      → has_conn a ≡ true
      → writes r.attempts a m ≡ false
      → send_to_admin writes sid m r ≡ blocks
  unfolding send_to_admin
  send_to_admin_deadlock sid m r xs ys a e hx ha socket lost =
      let stuck =
        stuck_at_admin m xs ys a (record r { readers = r.readers + 1 }) hx ha socket lost
          (omega arith) in
      elim (Bool-cases r.writer) [
        | inl taken ↦ let no_entry : rlock r ≡ blocks = ground arith in rw no_entry
        | inr free ↦
            let entered : rlock r ≡ done (record r { readers = r.readers + 1 }) = ground arith in
            rw entered (rw e (rw stuck))
      ]
