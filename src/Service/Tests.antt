-- ===== src/Service/Tests.antt =====
-- A guest who registers, and an organizer who deletes an event.
use event_ticketing_platform.Base.{ℕ, ◌*◌, ◌≢◌, true, false, [], ◌∷◌, arith}
use event_ticketing_platform.Types.{events}
use event_ticketing_platform.Records.{EventRecord, event_layout, event_active}
use event_ticketing_platform.Storage.Table.{Table, table_insert}
use event_ticketing_platform.Storage.Table.Laws.{IsTable}
use event_ticketing_platform.Storage.Table.Insertion.{table_insert_lem}
use event_ticketing_platform.Server.Empty.{
  calm, empty_table, empty_table-IsTable, plain_images, empty_server, empty_server-IsSound,
}
use event_ticketing_platform.Auth.Sessions.{Session, AuthManager, new_session}
use event_ticketing_platform.Auth.Rbac.{role_admin}
use event_ticketing_platform.Protocol.Parser.{ParsedCommand}
use event_ticketing_platform.Service.{
  World, Calls, role_customer, register_command, delete_event_command,
}
use event_ticketing_platform.Service.Laws.{
  KeepsOrAdds, DeletesOwn, register_command-KeepsOrAdds, delete_event_command-DeletesOwn,
}

-- Every number on a command line reads as 1.
abbrev calls : Calls ℕ
calls = record {
  atoi_u32 = λ text. 1;
  atoi_u16 = λ text. 1;
  atof = λ text. 1;
  price_valid = λ price. true;
  times = λ price n. price * n;
  now = 100;
}

abbrev guest : Session
guest = new_session 5 90

abbrev organizer : Session
organizer = record guest { user_id = 1; role = 2; authenticated = true }

abbrev sessions : AuthManager
sessions = record { sessions = guest ∷ []; session_count = 1 }

abbrev new_world : World ℕ
new_world = record { server = empty_server plain_images; auth = sessions }

abbrev register : ParsedCommand
register = record { command = 0; args = (97 ∷ []) ∷ (98 ∷ []) ∷ [] }

abbrev delete : ParsedCommand
delete = record { command = 7; args = (49 ∷ []) ∷ [] }

abbrev concert : EventRecord ℕ
concert = record {
  event_id = 0;
  name = [];
  venue = [];
  event_date = [];
  event_time = [];
  organizer_id = 1;
  total_rows = 1;
  seats_per_row = 2;
  price = 30;
  status = event_active;
  is_deleted = false;
}

abbrev one_event : Table (EventRecord ℕ)
one_event =
    (table_insert (event_layout plain_images) concert
      (empty_table (event_layout plain_images) events) calm).1

abbrev open_world : World ℕ
open_world = record new_world {
  server = record (empty_server plain_images) { events_table = one_event };
}

guest_not_admin : guest.role ≢ role_admin
guest_not_admin = λ e. omega (arith, e)

organizer_not_admin : organizer.role ≢ role_admin
organizer_not_admin = λ e. omega (arith, e)

one_event-IsTable : IsTable (event_layout plain_images) one_event
one_event-IsTable =
    (table_insert_lem (event_layout plain_images) (empty_table (event_layout plain_images) events)
      concert calm (empty_table-IsTable (event_layout plain_images) events) (omega arith)).0.0

register_command-KeepsOrAdds_example :
    KeepsOrAdds plain_images calls role_customer new_world.server.users_table
      (register_command plain_images calls guest register new_world).1.server.users_table
      1
register_command-KeepsOrAdds_example =
    register_command-KeepsOrAdds plain_images calls guest register new_world 1 guest_not_admin
      (empty_server-IsSound plain_images).users (omega arith) (omega arith)

delete_event_command-DeletesOwn_example :
    DeletesOwn plain_images calls 1 1 one_event
      (delete_event_command plain_images calls organizer delete open_world).1.server.events_table
delete_event_command-DeletesOwn_example =
    delete_event_command-DeletesOwn plain_images calls organizer delete open_world
      organizer_not_admin one_event-IsTable (omega arith)
