-- ===== src/RealTime/Registry/Delivery.antt =====
-- What `SendMessage`, `BroadcastToSession` and `SendToAdmin` write, and to whom.
use mathlib.Core.List.{append_assoc, append-nil, map-append}
use try_it.Prelude.{
  ◌≡◌, refl, ap, sym, ◌∙◌, String, Bool, true, false, not, ◌&&◌, ◌||◌, Option, none, List, [], ◌∷◌,
  ◌++◌, arith, All, All-append, map, select, done, Returns, Returns-bind, Returns-mono, ◌⊎◌, inl,
  inr, Bool-cases, Option-cases, eq_iff, ◌==◌, if◌then◌else◌,
}
use try_it.Prelude.Dict
use try_it.Prelude.Dict.{Dict, get-nil, get-put, get-remove}
use try_it.RealTime.Message.{ServerMessage}
use try_it.RealTime.Registry.{
  ConnectionContext, Attempt, ConnectionRegistry, has_conn, users_of, without_connection,
  unregister_connection, send_one, send_message,
}

-- The connection that is registered for a user of a session.
abbrev pub conn_of : ConnectionRegistry → String → String → Option ConnectionContext
conn_of r sid uid = Dict.get (users_of r.connections sid) uid

-- Nobody holds the lock.
abbrev pub IsFree : ConnectionRegistry → Type 0
IsFree r = (r.readers ≡ 0) × (r.writer ≡ false)

-- One of the attempts, to a connection of this user in this session, failed.
abbrev pub failed : String → String → List Attempt → Bool
failed sid uid [] = false
failed sid uid (a ∷ more) =
    (not a.delivered && ((a.to.session_id == sid) && (a.to.user_id == uid))) || failed sid uid more

failed-append :
    (sid uid : String) (xs ys : List Attempt)
    → failed sid uid (xs ++ ys) ≡ (failed sid uid xs || failed sid uid ys)
failed-append sid uid [] ys = refl
failed-append sid uid (a ∷ more) ys = ground (arith, failed-append sid uid more ys)

conn_of-without :
    (m : Dict (Dict ConnectionContext)) (s u sid uid : String)
    → Dict.get (users_of (without_connection m s u) sid) uid
      ≡ (if (s == sid) && (u == uid) then none else Dict.get (users_of m sid) uid)
unfolding without_connection
conn_of-without m s u sid uid = elim (Option-cases (Dict.get m s)) [
  | inl e ↦
      rw (e, without_connection)
        (ground (arith, e, eq_iff s sid, get-nil {V = ConnectionContext} uid))
  | inr (users, e) ↦
      rw (e, without_connection)
        (ground (
          arith,
          e,
          get-put m s sid (Dict.remove users u),
          get-remove users u uid,
          eq_iff s sid,
          eq_iff u uid,
        ))
]

pub unregister_free :
    (sid uid : String) (r : ConnectionRegistry)
    → IsFree r
    → unregister_connection sid uid r
      ≡ done (record r { connections = without_connection r.connections sid uid; writer = false })
unfolding unregister_connection
unregister_free sid uid r h = ground arith

module _ (writes : List Attempt → ConnectionContext → ServerMessage → Bool) where
  -- The outcomes of these attempts, after those of `log`, are the network's.
  abbrev pub Follows : List Attempt → List Attempt → Type 0
  Follows log [] = Unit
  Follows log (a ∷ more) = (a.delivered ≡ writes log a.to a.message) × Follows (log ++ a ∷ []) more

  -- From `r` to `r'` the message `m` went once to each of the receivers that has a socket, in their
  -- order, with the network's outcomes; exactly the users with a failed write lost their
  -- registration; the lock is as it was.
  pub record SentTo (r r' : ConnectionRegistry) (m : ServerMessage) (cs : List ConnectionContext)
      : Type 0 where
    pub fresh : List Attempt
    pub trace : r'.attempts ≡ r.attempts ++ fresh
    pub receivers : map (λ a. a.to) fresh ≡ select has_conn cs
    pub messages : All (λ a. a.message ≡ m) fresh
    pub outcomes : Follows r.attempts fresh
    pub registered :
        (sid uid : String)
        → conn_of r' sid uid ≡ (if failed sid uid fresh then none else conn_of r sid uid)
    pub same_readers : r'.readers ≡ r.readers
    pub same_writer : r'.writer ≡ r.writer

  pub SentTo-nil : (r : ConnectionRegistry) (m : ServerMessage) → SentTo r r m []
  SentTo-nil r m = record {
    fresh = [];
    trace = sym (append-nil r.attempts);
    receivers = refl;
    messages = tt;
    outcomes = tt;
    registered = λ sid uid. refl;
    same_readers = refl;
    same_writer = refl;
  }

  Follows-append :
      (log xs ys : List Attempt) → Follows log xs → Follows (log ++ xs) ys → Follows log (xs ++ ys)
  Follows-append log [] ys hx hy = rw append-nil at hy
  Follows-append log (a ∷ more) ys hx hy =
      (hx.0, Follows-append (log ++ a ∷ []) more ys hx.1 (rw append_assoc hy))

  pub SentTo-trans :
      (r r1 r2 : ConnectionRegistry) (m : ServerMessage) (c : ConnectionContext)
      (cs : List ConnectionContext)
      → SentTo r r1 m (c ∷ [])
      → SentTo r1 r2 m cs
      → SentTo r r2 m (c ∷ cs)
  SentTo-trans r r1 r2 m c cs a b = record {
    fresh = a.fresh ++ b.fresh;
    trace = b.trace ∙ ap (λ xs. xs ++ b.fresh) a.trace ∙ append_assoc r.attempts a.fresh b.fresh;
    receivers = rw (map-append, a.receivers, b.receivers) (ground arith);
    messages = All-append _ a.fresh b.fresh a.messages b.messages;
    outcomes = Follows-append r.attempts a.fresh b.fresh a.outcomes (rw a.trace at b.outcomes);
    registered = λ sid uid.
        ground (
          arith,
          failed-append sid uid a.fresh b.fresh,
          a.registered sid uid,
          b.registered sid uid,
        );
    same_readers = b.same_readers ∙ a.same_readers;
    same_writer = b.same_writer ∙ a.same_writer;
  }

  pub SentTo-skip :
      (r : ConnectionRegistry) (m : ServerMessage) (c : ConnectionContext)
      → has_conn c ≡ false
      → SentTo r r m (c ∷ [])
  SentTo-skip r m c skip = record {
    fresh = [];
    trace = sym (append-nil r.attempts);
    receivers = rw skip;
    messages = tt;
    outcomes = tt;
    registered = λ sid uid. refl;
    same_readers = refl;
    same_writer = refl;
  }

  SentTo-one :
      (r r' : ConnectionRegistry) (m : ServerMessage) (c : ConnectionContext) (d : Bool)
      → has_conn c ≡ true
      → r'.attempts ≡ r.attempts ++ record { to = c; message = m; delivered = d } ∷ []
      → d ≡ writes r.attempts c m
      → ((sid uid : String)
          → conn_of r' sid uid ≡ (
              if not d && ((c.session_id == sid) && (c.user_id == uid))
              then none
              else conn_of r sid uid))
      → r'.readers ≡ r.readers
      → r'.writer ≡ r.writer
      → SentTo r r' m (c ∷ [])
  SentTo-one r r' m c d socket t o g hr hw = record {
    fresh = record { to = c; message = m; delivered = d } ∷ [];
    trace = t;
    receivers = rw socket;
    messages = (refl, tt);
    outcomes = (o, tt);
    registered = λ sid uid. ground (arith, g sid uid);
    same_readers = hr;
    same_writer = hw;
  }

  abbrev tried : ConnectionRegistry → ServerMessage → ConnectionContext → Bool → ConnectionRegistry
  tried r m c d = record r {
    attempts = r.attempts ++ record { to = c; message = m; delivered = d } ∷ [];
  }

  -- One receiver, where the lock is free or the write succeeds.
  pub send_one_lem :
      (m : ServerMessage) (c : ConnectionContext) (r : ConnectionRegistry)
      → IsFree r ⊎ (writes r.attempts c m ≡ true)
      → Returns (send_one writes m c r) (λ r'. SentTo r r' m (c ∷ []))
  unfolding send_one
  send_one_lem m c r h = elim (Bool-cases (has_conn c)) [
    | inr skip ↦ rw skip (SentTo-skip r m c skip)
    | inl socket ↦ rw socket (elim (Bool-cases (writes r.attempts c m)) [
      | inl sent ↦
          rw sent (SentTo-one r _ m c true socket refl (sym sent) (λ sid uid. refl) refl refl)
      | inr lost ↦
          let free = free_of lost h in
          rw (lost, unregister_free c.session_id c.user_id (tried r m c false) free)
            (SentTo-one r _ m c false socket refl (sym lost)
              (conn_of-without r.connections c.session_id c.user_id) refl (sym free.1))
    ])
  ]
    where
      free_of : writes r.attempts c m ≡ false → IsFree r ⊎ (writes r.attempts c m ≡ true) → IsFree r
      free_of lost (inl free) = free
      free_of lost (inr sent) = cc

  -- The receivers of one message, where the lock is free.
  pub send_message_lem :
      (m : ServerMessage) (cs : List ConnectionContext) (r : ConnectionRegistry)
      → IsFree r
      → Returns (send_message writes m cs r) (λ r'. SentTo r r' m cs)
  unfolding send_message
  send_message_lem m [] r h = SentTo-nil r m
  send_message_lem m (c ∷ cs) r h =
      Returns-bind (send_one writes m c r) (send_message writes m cs) (λ r1. SentTo r r1 m (c ∷ []))
        _ (send_one_lem m c r (inl h))
        λ r1 first.
          Returns-mono (send_message writes m cs r1) (λ r2. SentTo r1 r2 m cs) _
            (send_message_lem m cs r1 (still_free r1 first))
            λ r2 rest. SentTo-trans r r1 r2 m c cs first rest
    where
      still_free : (r1 : ConnectionRegistry) → SentTo r r1 m (c ∷ []) → IsFree r1
      still_free r1 s = (s.same_readers ∙ h.0, s.same_writer ∙ h.1)
