-- ===== src/Examples/Connections.antt =====
-- The registry of Examples/Quiz.antt: who is registered, and what reaches whom.
use try_it.Prelude.{
  ◌≡◌, refl, Bool, true, false, not, some, List, [], ◌∷◌, arith, panics, blocks, Returns,
}
use try_it.Prelude.Dict
use try_it.Shared.Quiz.{Question}
use try_it.RealTime.Message.{ServerMessage, bare, end, next_question}
use try_it.RealTime.Registry.{
  ConnectionContext, Attempt, is_admin, without_admins, broadcast_to_session, send_to_admin,
}
use try_it.RealTime.Registry.Admins.{without_admins_two_last}
use try_it.RealTime.Registry.Delivery.{IsFree, SentTo}
use try_it.RealTime.Registry.Broadcast.{broadcast_to_session_lem, send_to_admin_deadlock}
use try_it.Examples.Quiz.{host, alice, registry_one}

-- A network that has lost the host.
abbrev host_lost : List Attempt → ConnectionContext → ServerMessage → Bool
host_lost log c m = not (is_admin c)

abbrev bob : ConnectionContext
bob = record alice { user_id = "bob"; conn = some 3 }

abbrev two_and_two : Question
two_and_two = record {
  kind = "single_choice";
  text = "2 + 2?";
  image_url = "";
  options =
      record { text = "5"; is_correct = false } ∷ record { text = "4"; is_correct = true } ∷ [];
}

without_admins_two_last_example : without_admins (alice ∷ host ∷ host ∷ []) ≡ panics
without_admins_two_last_example =
    without_admins_two_last (alice ∷ []) host host (refl, tt) refl refl

broadcast_to_session_lem_example :
    Returns
      (broadcast_to_session host_lost "s" (bare end) true registry_one)
      (λ r'. SentTo host_lost registry_one r' (bare end) (host ∷ alice ∷ []) × IsFree r')
unfolding Dict.get Dict.values
broadcast_to_session_lem_example =
    broadcast_to_session_lem host_lost "s" (bare end) true registry_one (refl, refl) (omega arith)

send_to_admin_deadlock_example :
    send_to_admin host_lost "s" (bare next_question) registry_one ≡ blocks
unfolding Dict.get Dict.values
send_to_admin_deadlock_example =
    send_to_admin_deadlock host_lost "s" (bare next_question) registry_one [] (alice ∷ []) host refl
      tt refl refl refl
