-- ===== src/RealTime/Registry/Locks.antt =====
-- Every method of the registry that returns leaves the lock as it found it, whatever the network does.
use try_it.Prelude.{
  ◌+◌, ◌≡◌, refl, sym, subst, ◌∙◌, ltb, ◌||◌, ◌++◌, inl, inr, String, Bool, true, false, List, [],
  ◌∷◌, arith, Run, done, panics, blocks, ◌>>=◌, IfReturns, IfReturns-bind, IfReturns-any,
  Bool-cases, Option-cases, if◌then◌else◌,
}
use try_it.Prelude.Dict
use try_it.RealTime.Message.{ServerMessage}
use try_it.RealTime.Registry.{
  ConnectionContext, Attempt, ConnectionRegistry, is_admin, has_conn, lock, rlock, register_session,
  unregister_session, register_connection, unregister_connection, get_connections, without_admins,
  users_of, send_one, send_message, broadcast_to_session, send_to_admins, send_to_admin,
}

abbrev pub SameLock : ConnectionRegistry → ConnectionRegistry → Type 0
SameLock r r' = (r'.readers ≡ r.readers) × (r'.writer ≡ r.writer)

pub SameLock-trans : (r r1 r2 : ConnectionRegistry) → SameLock r r1 → SameLock r1 r2 → SameLock r r2
SameLock-trans r r1 r2 a b = (b.0 ∙ a.0, b.1 ∙ a.1)

-- A weaker statement of the same run.
pub IfReturns-mono {ℓ} :
    {A : Type ℓ} (m : Run A) (P Q : A → Type 0)
    → IfReturns m P
    → ((a : A) → P a → Q a)
    → IfReturns m Q
IfReturns-mono (done a) P Q h k = k a h
IfReturns-mono panics P Q h k = tt
IfReturns-mono blocks P Q h k = tt

pub SameLock-bind :
    (r : ConnectionRegistry) (m : Run ConnectionRegistry)
    (f : ConnectionRegistry → Run ConnectionRegistry)
    → IfReturns m (SameLock r)
    → ((r1 : ConnectionRegistry) → IfReturns (f r1) (SameLock r1))
    → IfReturns (m >>= f) (SameLock r)
SameLock-bind r m f h k = IfReturns-bind m f (SameLock r) (SameLock r) h (λ r1 a.
    IfReturns-mono (f r1) (SameLock r1) (SameLock r) (k r1) (λ r2 b. SameLock-trans r r1 r2 a b))

-- What follows a lock that was got.
under_lock {ℓ} :
    {A : Type ℓ} (r : ConnectionRegistry) (f : ConnectionRegistry → Run A) (P : A → Type 0)
    → (r.writer ≡ false → IfReturns (f (record r { writer = true })) P)
    → IfReturns (lock r >>= f) P
under_lock r f P h = elim (Bool-cases (r.writer || ltb 0 r.readers)) [
  | inl e ↦ rw e tt
  | inr e ↦ rw e (h (ground (arith, e)))
]

under_rlock {ℓ} :
    {A : Type ℓ} (r : ConnectionRegistry) (f : ConnectionRegistry → Run A) (P : A → Type 0)
    → (r.writer ≡ false → IfReturns (f (record r { readers = r.readers + 1 })) P)
    → IfReturns (rlock r >>= f) P
under_rlock r f P h = elim (Bool-cases r.writer) [
  | inl e ↦ rw e tt
  | inr e ↦
      let inside : ConnectionRegistry = record r { readers = r.readers + 1 } in
      subst (λ (b : Bool). IfReturns ((if b then blocks else done inside) >>= f) P) (sym e) (h e)
]

pub register_session-SameLock :
    (sid : String) (r : ConnectionRegistry)
    → IfReturns (register_session sid r) (λ out. SameLock r out.1)
unfolding register_session
register_session-SameLock sid r =
    under_lock r _ (λ out. SameLock r out.1)
      (λ off. elim (Bool-cases (Dict.has r.connections sid)) [
        | inl e ↦ rw e (refl, sym off)
        | inr e ↦ rw e (refl, sym off)
      ])

pub unregister_session-SameLock :
    (sid : String) (r : ConnectionRegistry) → IfReturns (unregister_session sid r) (SameLock r)
unfolding unregister_session
unregister_session-SameLock sid r = under_lock r _ (SameLock r) (λ off. (refl, sym off))

pub register_connection-SameLock :
    (ctx : ConnectionContext) (r : ConnectionRegistry)
    → IfReturns (register_connection ctx r) (λ out. SameLock r out.1)
unfolding register_connection
register_connection-SameLock ctx r =
    under_lock r _ (λ out. SameLock r out.1)
      (λ off. elim (Option-cases (Dict.get r.connections ctx.session_id)) [
        | inl e ↦ rw e (refl, sym off)
        | inr (users, e) ↦ rw e (refl, sym off)
      ])

pub unregister_connection-SameLock :
    (sid uid : String) (r : ConnectionRegistry)
    → IfReturns (unregister_connection sid uid r) (SameLock r)
unfolding unregister_connection
unregister_connection-SameLock sid uid r = under_lock r _ (SameLock r) (λ off. (refl, sym off))

pub get_connections-SameLock :
    (sid : String) (r : ConnectionRegistry)
    → IfReturns (get_connections sid r) (λ out. SameLock r out.1)
unfolding get_connections
get_connections-SameLock sid r =
    under_rlock r _ (λ out. SameLock r out.1) (λ off. (omega arith, refl))

module _ (writes : List Attempt → ConnectionContext → ServerMessage → Bool) where
  pub send_one-SameLock :
      (m : ServerMessage) (c : ConnectionContext) (r : ConnectionRegistry)
      → IfReturns (send_one writes m c r) (SameLock r)
  unfolding send_one
  send_one-SameLock m c r = elim (Bool-cases (has_conn c)) [
    | inr skip ↦ rw skip (refl, refl)
    | inl socket ↦ rw socket (elim (Bool-cases (writes r.attempts c m)) [
      | inl sent ↦ rw sent (refl, refl)
      | inr lost ↦ rw lost (
          unregister_connection-SameLock c.session_id c.user_id (record r {
            attempts = r.attempts ++ record { to = c; message = m; delivered = false } ∷ [];
          }))
    ])
  ]

  pub send_message-SameLock :
      (m : ServerMessage) (cs : List ConnectionContext) (r : ConnectionRegistry)
      → IfReturns (send_message writes m cs r) (SameLock r)
  unfolding send_message
  send_message-SameLock m [] r = (refl, refl)
  send_message-SameLock m (c ∷ cs) r =
      SameLock-bind r (send_one writes m c r) (send_message writes m cs) (send_one-SameLock m c r)
        (λ r1. send_message-SameLock m cs r1)

  pub broadcast_to_session-SameLock :
      (sid : String) (m : ServerMessage) (to_admin : Bool) (r : ConnectionRegistry)
      → IfReturns (broadcast_to_session writes sid m to_admin r) (SameLock r)
  unfolding broadcast_to_session
  broadcast_to_session-SameLock sid m to_admin r =
      IfReturns-bind (get_connections sid r) _ (λ out. SameLock r out.1) (SameLock r)
        (get_connections-SameLock sid r)
        (λ (cs, r1) a.
          IfReturns-bind (if to_admin then done cs else without_admins cs) _ (λ x. Unit)
            (SameLock r) (IfReturns-any (if to_admin then done cs else without_admins cs))
            (λ chosen h.
              IfReturns-mono (send_message writes m chosen r1) (SameLock r1) (SameLock r)
                (send_message-SameLock m chosen r1) (λ r2 b. SameLock-trans r r1 r2 a b)))

  send_to_admins-SameLock :
      (m : ServerMessage) (cs : List ConnectionContext) (r : ConnectionRegistry)
      → IfReturns (send_to_admins writes m cs r) (SameLock r)
  unfolding send_to_admins
  send_to_admins-SameLock m [] r = (refl, refl)
  send_to_admins-SameLock m (c ∷ cs) r =
      SameLock-bind r (if is_admin c then send_message writes m (c ∷ []) r else done r)
        (send_to_admins writes m cs)
        (elim (Bool-cases (is_admin c)) [
          | inl e ↦ rw e (send_message-SameLock m (c ∷ []) r)
          | inr e ↦ rw e (refl, refl)
        ])
        (λ r1. send_to_admins-SameLock m cs r1)

  pub send_to_admin-SameLock :
      (sid : String) (m : ServerMessage) (r : ConnectionRegistry)
      → IfReturns (send_to_admin writes sid m r) (SameLock r)
  unfolding send_to_admin
  send_to_admin-SameLock sid m r = under_rlock r _ (SameLock r) (λ off.
      let r1 = record r { readers = r.readers + 1 } in
      IfReturns-bind (send_to_admins writes m (Dict.values (users_of r1.connections sid)) r1) _
        (SameLock r1) (SameLock r)
        (send_to_admins-SameLock m (Dict.values (users_of r1.connections sid)) r1)
        (λ r2 (same_readers, same_writer). (omega (arith, same_readers), same_writer)))
