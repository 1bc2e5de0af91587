-- ===== src/RealTime/Registry/Online.antt =====
-- The registry while the network takes every write: each way to send only adds to the trace.
use mathlib.Core.List.{append_assoc, append-nil}
use try_it.Prelude.{
  ℕ, ◌+◌, ◌-◌, ◌≤◌, ◌≡◌, ap, sym, String, Bool, true, false, not, List, [], ◌∷◌, ◌++◌, map, arith,
  select, count_of, done, inl, inr, Bool-cases,
}
use try_it.RealTime.Message.{ServerMessage}
use try_it.RealTime.Registry.{
  ConnectionContext, Attempt, ConnectionRegistry, is_admin, has_conn, rlock, send_one, send_message,
  broadcast_to_session, send_to_admins, send_to_admin,
}
use try_it.RealTime.Registry.Admins.{without_admins_lem}
use try_it.RealTime.Registry.Delivery.{IsFree}
use try_it.RealTime.Registry.Broadcast.{receivers_of, reread, get_connections_lem}

-- The trace of one message to those of these people who have a socket.
abbrev pub sent_to : ServerMessage → List ConnectionContext → List Attempt
sent_to m cs = map (λ c. record { to = c; message = m; delivered = true }) (select has_conn cs)

abbrev pub logged : ConnectionRegistry → List Attempt → ConnectionRegistry
logged r new = record r { attempts = r.attempts ++ new }

abbrev pub admins_of : ConnectionRegistry → String → List ConnectionContext
admins_of r sid = select is_admin (receivers_of r sid)

abbrev pub players_of : ConnectionRegistry → String → List ConnectionContext
players_of r sid = select (λ c. not (is_admin c)) (receivers_of r sid)

-- A session has one admin connection at most.
abbrev pub OneAdmin : ConnectionRegistry → String → Type 0
OneAdmin r sid = count_of is_admin (receivers_of r sid) ≤ 1

pub logged-logged :
    (r : ConnectionRegistry) (xs ys : List Attempt) → logged (logged r xs) ys ≡ logged r (xs ++ ys)
logged-logged r xs ys = rw append_assoc

pub logged-nil : (r : ConnectionRegistry) → logged r [] ≡ r
logged-nil r = ap (λ (xs : List Attempt). record r { attempts = xs }) (append-nil r.attempts)

pub reread-eq : (r : ConnectionRegistry) → reread r ≡ r
reread-eq r =
    let e : r.readers + 1 - 1 ≡ r.readers = omega arith in
    ap (λ (n : ℕ). record r { readers = n }) e

module _ (writes : List Attempt → ConnectionContext → ServerMessage → Bool)
    (up : (log : List Attempt) (c : ConnectionContext) (m : ServerMessage)
      → writes log c m ≡ true) where
  send_one-online :
      (m : ServerMessage) (c : ConnectionContext) (r : ConnectionRegistry)
      → send_one writes m c r ≡ done (logged r (sent_to m (c ∷ [])))
  unfolding send_one
  send_one-online m c r = elim (Bool-cases (has_conn c)) [
    | inl socket ↦ rw (socket, up r.attempts c m)
    | inr skip ↦ rw skip (ap done (sym (logged-nil r)))
  ]

  sent_to-cons :
      (m : ServerMessage) (c : ConnectionContext) (cs : List ConnectionContext)
      → sent_to m (c ∷ []) ++ sent_to m cs ≡ sent_to m (c ∷ cs)
  sent_to-cons m c cs = elim (Bool-cases (has_conn c)) [
    | inl socket ↦ rw socket
    | inr skip ↦ rw skip
  ]

  pub send_message-online :
      (m : ServerMessage) (cs : List ConnectionContext) (r : ConnectionRegistry)
      → send_message writes m cs r ≡ done (logged r (sent_to m cs))
  unfolding send_message
  send_message-online m [] r = ap done (sym (logged-nil r))
  send_message-online m (c ∷ cs) r =
      rw (send_one-online m c r, send_message-online m cs (logged r (sent_to m (c ∷ []))))
        (rw (logged-logged r (sent_to m (c ∷ [])) (sent_to m cs), sent_to-cons m c cs))

  pub broadcast_to_session-online :
      (sid : String) (m : ServerMessage) (r : ConnectionRegistry)
      → IsFree r
      → OneAdmin r sid
      → broadcast_to_session writes sid m false r ≡ done (logged r (sent_to m (players_of r sid)))
  unfolding broadcast_to_session
  broadcast_to_session-online sid m r h one =
      rw
        (
          get_connections_lem sid r h,
          without_admins_lem (receivers_of r sid) one,
          send_message-online m (players_of r sid) (reread r),
        )
        (ap (λ (q : ConnectionRegistry). done (logged q (sent_to m (players_of r sid))))
          (reread-eq r))

  send_to_admins-online :
      (m : ServerMessage) (cs : List ConnectionContext) (r : ConnectionRegistry)
      → send_to_admins writes m cs r ≡ done (logged r (sent_to m (select is_admin cs)))
  unfolding send_to_admins
  send_to_admins-online m [] r = ap done (sym (logged-nil r))
  send_to_admins-online m (c ∷ cs) r = elim (Bool-cases (is_admin c)) [
    | inr e ↦ rw e (send_to_admins-online m cs r)
    | inl e ↦
        rw
          (
            e,
            send_message-online m (c ∷ []) r,
            send_to_admins-online m cs (logged r (sent_to m (c ∷ []))),
          )
          (rw (
            logged-logged r (sent_to m (c ∷ [])) (sent_to m (select is_admin cs)),
            sent_to-cons m c (select is_admin cs),
          ))
  ]

  pub send_to_admin-online :
      (sid : String) (m : ServerMessage) (r : ConnectionRegistry)
      → IsFree r
      → send_to_admin writes sid m r ≡ done (logged r (sent_to m (admins_of r sid)))
  unfolding send_to_admin
  send_to_admin-online sid m r h =
      let entered : rlock r ≡ done (record r { readers = r.readers + 1 }) = ground arith in
      rw
        (
          entered,
          send_to_admins-online m (receivers_of r sid) (record r { readers = r.readers + 1 }),
        )
        (ap (λ (q : ConnectionRegistry). done (logged q (sent_to m (admins_of r sid))))
          (reread-eq r))
