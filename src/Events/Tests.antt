-- ===== src/Events/Tests.antt =====
-- An event with two rows of three seats.
use event_ticketing_platform.Base.{ℕ, ◌≡◌, true, List, [], ◌∷◌, arith}
use event_ticketing_platform.Server.Rules.{Ensures}
use event_ticketing_platform.Server.Empty.{plain_images, empty_server, empty_server-IsSound}
use event_ticketing_platform.Booking.Book.Writes.{IsSound}
use event_ticketing_platform.Events.{event_mgr_create_event}
use event_ticketing_platform.Events.Laws.{
  event_of, InBounds, Created, event_mgr_create_event-Ensures,
}

abbrev name : List ℕ
name = 65 ∷ []

event_mgr_create_event-Ensures_example :
    Ensures
      (event_mgr_create_event plain_images
        (λ p. true)
        name
        name
        name
        name
        1
        2
        3
        30
        (empty_server plain_images))
      (λ event_id s'.
        InBounds plain_images (λ p. true) 2 3 30
        × Created plain_images
            (empty_server plain_images)
            event_id
            (event_of name name name name 1 2 3 30)
            s')
      (λ e s'. IsSound plain_images s' × (s'.seats_table ≡ (empty_server plain_images).seats_table))
event_mgr_create_event-Ensures_example =
    event_mgr_create_event-Ensures plain_images (λ p. true) name name name name 1 2 3 30
      (empty_server plain_images) (empty_server-IsSound plain_images) (omega arith) (omega arith)
