-- ===== src/RealTime/Registry.antt =====
-- backend-go/real_time/ws/connections.go: who is connected to which session.
-- The registry's `sync.RWMutex` is the pair of `readers` and `writer`: a goroutine that asks for a
-- lock which it cannot get blocks, and nobody else is there to let it go, so `blocks` is a deadlock
-- with itself. `attempts` is the trace of the writes to sockets, oldest first. Whether a write
-- succeeds is not the program's to say: `writes` decides it from all writes before.
pub mod Admins
pub mod Delivery
pub mod Broadcast
pub mod Sessions
pub mod Online
pub mod Locks
use try_it.Prelude.{
  ℕ, zero, suc, ◌+◌, ◌-◌, String, Bool, true, false, ◌||◌, Option, none, some, List, [], ◌∷◌, ◌++◌,
  take, drop, length, get_elem?, Run, done, panics, blocks, or_panic, ◌>>=◌, ltb, leb, not,
  if◌then◌else◌, ◌==◌,
}
use try_it.Prelude.Dict
use try_it.Prelude.Dict.{Dict}
use try_it.Shared.Errors.{ErrorOr}
use try_it.Shared.Token.{role_admin}
use try_it.RealTime.Message.{ServerMessage}

-- `conn` is the socket, `none` for a nil pointer.
pub record ConnectionContext : Type 0 where
  pub conn : Option ℕ
  pub user_id : String
  pub session_id : String
  pub role : String

pub record Attempt : Type 0 where
  pub to : ConnectionContext
  pub message : ServerMessage
  pub delivered : Bool

pub record ConnectionRegistry : Type 0 where
  pub connections : Dict (Dict ConnectionContext)
  pub readers : ℕ
  pub writer : Bool
  pub attempts : List Attempt

unfoldable pub new_connection_registry : ConnectionRegistry
new_connection_registry = record { connections = []; readers = 0; writer = false; attempts = [] }

abbrev pub is_admin : ConnectionContext → Bool
is_admin c = c.role == role_admin

-- `ctx.Conn != nil`
abbrev pub has_conn : ConnectionContext → Bool
has_conn c = elim c.conn [ none ↦ false | some socket ↦ true ]

-- `mu.Lock()`, `mu.Unlock()`, `mu.RLock()`, `mu.RUnlock()`
abbrev pub lock : ConnectionRegistry → Run ConnectionRegistry
lock r = if r.writer || ltb 0 r.readers then blocks else done (record r { writer = true })

abbrev pub unlock : ConnectionRegistry → ConnectionRegistry
unlock r = record r { writer = false }

abbrev pub rlock : ConnectionRegistry → Run ConnectionRegistry
rlock r = if r.writer then blocks else done (record r { readers = r.readers + 1 })

abbrev pub runlock : ConnectionRegistry → ConnectionRegistry
runlock r = record r { readers = r.readers - 1 }

-- A missing session reads as a nil map, which has no entries.
abbrev pub users_of : Dict (Dict ConnectionContext) → String → Dict ConnectionContext
users_of m sid = elim (Dict.get m sid) [ none ↦ [] | some users ↦ users ]

unfoldable pub register_session : String → ConnectionRegistry → Run (Bool × ConnectionRegistry)
register_session sid r = do
  r1 ← lock r
  if Dict.has r1.connections sid
      then done (false, unlock r1)
      else done (true, unlock (record r1 { connections = Dict.put r1.connections sid [] }))

-- `unregisterConnectionNoMutex`
unfoldable pub without_connection :
    Dict (Dict ConnectionContext) → String → String → Dict (Dict ConnectionContext)
without_connection m sid uid = elim (Dict.get m sid) [
  | none ↦ m
  | some users ↦ Dict.put m sid (Dict.remove users uid)
]

-- The loop of `UnregisterSession` over the users of the session.
unfoldable pub without_users :
    Dict (Dict ConnectionContext) → String → List String → Dict (Dict ConnectionContext)
without_users m sid [] = m
without_users m sid (u ∷ us) = without_users (without_connection m sid u) sid us

unfoldable pub unregister_session : String → ConnectionRegistry → Run ConnectionRegistry
unregister_session sid r = do
  r1 ← lock r
  let m = without_users r1.connections sid (Dict.keys (users_of r1.connections sid))
  done (unlock (record r1 { connections = Dict.remove m sid }))

unfoldable pub register_connection :
    ConnectionContext → ConnectionRegistry → Run (ErrorOr × ConnectionRegistry)
register_connection ctx r = do
  r1 ← lock r
  elim (Dict.get r1.connections ctx.session_id) [
    | none ↦ done (some "session not found", unlock r1)
    | some users ↦ done (
      none,
      unlock (record r1 {
        connections = Dict.put r1.connections ctx.session_id (Dict.put users ctx.user_id ctx);
      }),
    )
  ]

unfoldable pub unregister_connection : String → String → ConnectionRegistry → Run ConnectionRegistry
unregister_connection sid uid r = do
  r1 ← lock r
  done (unlock (record r1 { connections = without_connection r1.connections sid uid }))

unfoldable pub get_connections :
    String → ConnectionRegistry → Run (List ConnectionContext × ConnectionRegistry)
get_connections sid r = do
  r1 ← rlock r
  done (Dict.values (users_of r1.connections sid), runlock r1)

-- The loop that takes the admin out of the receivers, `k` rounds before its end at index `i`. The
-- `range` reads the first `length arr` places of the backing array `arr`, and `receivers` is its
-- first `n` places. Leaving out `receivers[i]` moves the later ones down in the same array; the
-- slice `receivers[i+1:]` panics if `i + 1` is past `n`.
unfoldable pub without_admins_from :
    ℕ → ℕ → ℕ → List ConnectionContext → Run (List ConnectionContext)
without_admins_from zero i n arr = done (take n arr)
without_admins_from (suc k) i n arr = do
  rcv ← or_panic (get_elem? arr i)
  let shifted = take i arr ++ (drop (i + 1) (take n arr) ++ drop (n - 1) arr)
  let keep = without_admins_from k (i + 1) n arr
  let cut = without_admins_from k (i + 1) (n - 1) shifted
  if is_admin rcv then (if leb (i + 1) n then cut else panics) else keep

unfoldable pub without_admins : List ConnectionContext → Run (List ConnectionContext)
unfolding without_admins_from
without_admins receivers = without_admins_from (length receivers) 0 (length receivers) receivers

module _ (writes : List Attempt → ConnectionContext → ServerMessage → Bool) where
  -- One round of the loop of `SendMessage`.
  unfoldable pub send_one :
      ServerMessage → ConnectionContext → ConnectionRegistry → Run ConnectionRegistry
  send_one m ctx r =
      let delivered = writes r.attempts ctx m in
      let attempt : Attempt = record { to = ctx; message = m; delivered = delivered } in
      let r1 = record r { attempts = r.attempts ++ attempt ∷ [] } in
      if has_conn ctx
      then (if delivered then done r1 else unregister_connection ctx.session_id ctx.user_id r1)
      else done r

  unfoldable pub send_message :
      ServerMessage → List ConnectionContext → ConnectionRegistry → Run ConnectionRegistry
  send_message m [] r = done r
  send_message m (c ∷ cs) r = send_one m c r >>= send_message m cs

  unfoldable pub broadcast_to_session :
      String → ServerMessage → Bool → ConnectionRegistry → Run ConnectionRegistry
  broadcast_to_session sid m send_to_admin r = do
    (receivers, r1) ← get_connections sid r
    chosen ← (if send_to_admin then done receivers else without_admins receivers)
    send_message m chosen r1

  -- The loop of `SendToAdmin`, under its read lock.
  unfoldable pub send_to_admins :
      ServerMessage → List ConnectionContext → ConnectionRegistry → Run ConnectionRegistry
  send_to_admins m [] r = done r
  send_to_admins m (c ∷ cs) r =
      (if is_admin c then send_message m (c ∷ []) r else done r) >>= send_to_admins m cs

  unfoldable pub send_to_admin :
      String → ServerMessage → ConnectionRegistry → Run ConnectionRegistry
  send_to_admin sid m r = do
    r1 ← rlock r
    r2 ← send_to_admins m (Dict.values (users_of r1.connections sid)) r1
    done (runlock r2)
