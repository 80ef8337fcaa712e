-- ===== src/Net/EventHandler/Tests.antt =====
-- A handler that waits to read and to write, where both fired and writing fails.
use green_turtle.Base.{◌≡◌, refl, [], ◌∷◌, ◌||◌, if◌then◌else◌}
use green_turtle.Net.EventHandler.{
  ok, err, EventHandler, new_handler, read, write, error, remove_conn, shut_down, fires,
  handle_event, handle_write, shutdown,
}
use green_turtle.Net.EventHandler.Answers.{
  read_fails, write_fails, is_removal, is_error, any_call, handle_event_lem,
}

abbrev both_fired : EventHandler
both_fired = record (new_handler 5 100) { events = 3; revents = 3 }

write_failed :
    (handle_event both_fired 120 ok err).0
    ≡ read ∷ write ∷ remove_conn ∷ error ∷ write ∷ shut_down ∷ []
unfolding handle_event handle_write shutdown
write_failed = refl

-- A failed read is answered by `OnError` alone.
read_failed : (handle_event both_fired 120 err ok).0 ≡ read ∷ error ∷ []
unfolding handle_event
read_failed = refl

read_before_write :
    let r = handle_event both_fired 120 ok err in
    (any_call is_error r.0 ≡ (read_fails both_fired ok || write_fails both_fired ok err))
    × (any_call is_removal r.0 ≡ write_fails both_fired ok err)
    × (r.1.revents ≡ (if read_fails both_fired ok || write_fails both_fired ok err then 3 else 0))
    × (r.1.last_active_time ≡ (if fires both_fired 1 then 120 else 100))
read_before_write = handle_event_lem both_fired 120 ok err
