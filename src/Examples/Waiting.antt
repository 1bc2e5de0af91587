-- ===== src/Examples/Waiting.antt =====
-- A waiting room that a user enters and leaves.
use try_it.Prelude.Dict
use try_it.Prelude.Dict.{Dict}
use try_it.Shared.Token.{role_participant}
use try_it.Session.Rooms.{
  ConnectionContext, ConnectionRegistry, new_connection_registry, register_session, enter_room,
}
use try_it.Session.Rooms.Aligned.{
  IsAligned, Reachable, start, session, entered, Reachable-IsAligned,
}
use try_it.Session.Rooms.Lists.{Enters, Leaves, enter_room_lem, unregister_connection_lem}

abbrev carol : ConnectionContext
carol = record {
  conn = 4;
  user_id = "u4";
  user_name = "Carol";
  session_id = "s";
  role = role_participant;
}

abbrev opened : ConnectionRegistry
opened = register_session "s" new_connection_registry

opened-IsReachable : Reachable opened
opened-IsReachable = session "s" new_connection_registry start

abbrev joined : ConnectionRegistry
joined = (enter_room carol opened).1

joined-IsReachable : Reachable joined
joined-IsReachable = entered carol opened opened-IsReachable

Reachable-IsAligned_example : IsAligned joined
Reachable-IsAligned_example = Reachable-IsAligned joined joined-IsReachable

opened-IsAligned : IsAligned opened
opened-IsAligned = Reachable-IsAligned opened opened-IsReachable

enter_room_lem_example : Enters carol opened (Dict.get opened.connections "s")
enter_room_lem_example = enter_room_lem carol opened opened-IsAligned

joined-IsAligned : IsAligned joined
joined-IsAligned = Reachable-IsAligned joined joined-IsReachable

unregister_connection_lem_example : Leaves "s" "u4" joined (Dict.get joined.connections "s")
unregister_connection_lem_example = unregister_connection_lem "s" "u4" joined joined-IsAligned
