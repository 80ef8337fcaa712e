-- ===== src/Net/EventHandler/Answers.antt =====
-- What `HandleEvent` of event_handler.cc calls, on every branch.
use green_turtle.Base.{
  ℕ, ◌≡◌, refl, Bool, true, false, not, ◌&&◌, ◌||◌, List, [], ◌∷◌, if◌then◌else◌, Bool-cases, inl,
  inr,
}
use green_turtle.Net.EventHandler.{
  Status, EventHandler, event_readable, event_writeable, Call, read, write, error, remove_conn,
  shut_down, fires, is_err, shutdown, handle_write, handle_event,
}

abbrev pub read_fails : EventHandler → Status → Bool
read_fails h read_result = fires h event_readable && is_err read_result

abbrev pub write_fails : EventHandler → Status → Status → Bool
write_fails h read_result write_result =
    not (read_fails h read_result) && (fires h event_writeable && is_err write_result)

abbrev pub is_removal : Call → Bool
is_removal read = false
is_removal write = false
is_removal error = false
is_removal remove_conn = true
is_removal shut_down = false

abbrev pub is_error : Call → Bool
is_error read = false
is_error write = false
is_error error = true
is_error remove_conn = false
is_error shut_down = false

abbrev pub any_call : (Call → Bool) → List Call → Bool
any_call p [] = false
any_call p (c ∷ cs) = p c || any_call p cs

-- `OnError` is called exactly when reading or writing failed. The ConnManager is told of the
-- removal exactly when writing failed: after a failed read it keeps the connection. The returned
-- events are cleared exactly when nothing failed.
pub handle_event_lem :
    (h : EventHandler) (now : ℕ) (read_result write_result : Status)
    → let r = handle_event h now read_result write_result in
      (any_call is_error r.0 ≡ (read_fails h read_result || write_fails h read_result write_result))
      × (any_call is_removal r.0 ≡ write_fails h read_result write_result)
      × (r.1.revents ≡ (
          if read_fails h read_result || write_fails h read_result write_result
          then h.revents
          else 0))
      × (r.1.last_active_time ≡ (if fires h event_readable then now else h.last_active_time))
unfolding handle_event handle_write shutdown
handle_event_lem h now read_result write_result = elim (Bool-cases (fires h event_readable)) [
  | inl x ↦ elim (Bool-cases (is_err read_result)) [
    | inl z ↦ rw (x, z) (refl, refl, refl, refl)
    | inr z ↦ elim (Bool-cases (fires h event_writeable)) [
      | inl y ↦ elim (Bool-cases (is_err write_result)) [
        | inl v ↦ rw (x, z, y, v) (refl, refl, refl, refl)
        | inr v ↦ rw (x, z, y, v) (refl, refl, refl, refl)
      ]
      | inr y ↦ rw (x, z, y) (refl, refl, refl, refl)
    ]
  ]
  | inr x ↦ elim (Bool-cases (fires h event_writeable)) [
    | inl y ↦ elim (Bool-cases (is_err write_result)) [
      | inl v ↦ rw (x, y, v) (refl, refl, refl, refl)
      | inr v ↦ rw (x, y, v) (refl, refl, refl, refl)
    ]
    | inr y ↦ rw (x, y) (refl, refl, refl, refl)
  ]
]
