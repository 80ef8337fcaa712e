-- ===== src/Net/TimerQueue.antt =====
-- `Timer` and `TimerQueue` of green_turtle/net/timer.{h,cc} and timer_queue.{h,cc}: a hashed timing
-- wheel. Timers are named by their address; 0 is NULL, and the mark of a free slot is -1.
pub mod Arithmetic
pub mod Links
pub mod Fire
pub mod Ends
pub mod Tests
use green_turtle.Base.{
  ℕ, zero, suc, ◌+◌, ◌-◌, ◌*◌, ◌/◌, ◌%◌, ◌^◌, Bool, true, false, not, ◌||◌, Option, none, some,
  List, [], ◌∷◌, bit_and, word_mod, add64, sub64, ltb, leb, ◌==◌, if◌then◌else◌, length, get_or,
  set, replicate,
}
use green_turtle.UnorderedList
use green_turtle.UnorderedList.{Element, SlotList, for_each}

-- `in_queue` is whether `queue_` is set; there is one timer queue.
pub record Timer : Type 0 where
  pub in_queue : Bool
  pub iter_slot : ℕ
  pub iter_pos : ℕ
  pub timer_interval : ℕ
  pub next_handle_time : ℕ

abbrev pub new_timer : Timer
new_timer = record {
  in_queue = false;
  iter_slot = 0;
  iter_pos = 0;
  timer_interval = 0;
  next_handle_time = 0;
}

pub record TimerQueue : Type 0 where
  pub queues : List (SlotList ℕ)
  pub slot_size : ℕ
  pub last_update_time : ℕ
  pub interval : ℕ
  pub current_slot : ℕ
  pub interval_exponent : ℕ
  pub circle_time : ℕ

-- The queue and the timers that it points to.
pub record World : Type 0 where
  pub wheel : TimerQueue
  pub timers : ℕ → Timer

-- `Timer *`
abbrev pub pointer : Element ℕ
pointer = record { default = 0; same = ◌==◌ }

abbrev pub deleted_mark : ℕ
deleted_mark = word_mod - 1

abbrev pub empty_list : SlotList ℕ
empty_list = record { list = []; free_list = []; deleted = deleted_mark }

-- `for (i = interval; i != 1; i /= 2) ++exponent`, with fuel.
unfoldable pub exponent_loop : ℕ → ℕ → ℕ → Option ℕ
exponent_loop zero i exponent = none
exponent_loop (suc fuel) i exponent =
    let rest = exponent_loop fuel (i / 2) (exponent + 1) in if i == 1 then some exponent else rest

-- `assert(~(x & (x - 1)))`: the complement of a word is not zero.
unfoldable pub assertion : ℕ → Bool
assertion x = not (sub64 deleted_mark (bit_and x (sub64 x 1)) == 0)

-- The constructor; `none` is a failed assertion, or a loop that does not end.
unfoldable pub make : ℕ → ℕ → ℕ → Option TimerQueue
make fuel slot_size interval =
    if not (assertion slot_size) || not (assertion interval)
    then none
    else elim (exponent_loop fuel interval 0) [
      | none ↦ none
      | some exponent ↦ some (record {
        queues = replicate slot_size empty_list;
        slot_size = slot_size;
        last_update_time = 0;
        interval = interval;
        current_slot = 0;
        interval_exponent = exponent;
        circle_time = slot_size * interval % word_mod;
      })
    ]

-- `queues_[slot]`, and a store through that reference. `Links` shows that the slots are in range.
abbrev pub list_at : World → ℕ → SlotList ℕ
list_at w slot = get_or w.wheel.queues slot empty_list

unfoldable pub set_list : World → ℕ → SlotList ℕ → World
set_list w slot l = record w { wheel = record w.wheel { queues = set w.wheel.queues slot l } }

unfoldable pub set_timer : World → ℕ → Timer → World
set_timer w t timer = record w { timers = λ a. if a == t then timer else w.timers a }

unfoldable pub cancel_timer : ℕ → World → World
cancel_timer t w =
    let timer = w.timers t in
    if t == 0 || not timer.in_queue
    then w
    else if ltb timer.iter_slot w.wheel.slot_size
    then set_timer
        (set_list w timer.iter_slot
          (UnorderedList.erase (list_at w timer.iter_slot) timer.iter_pos))
        t (record timer { in_queue = false })
    else w

-- `~Timer`
unfoldable pub destroy_timer : ℕ → World → World
destroy_timer t w = if (w.timers t).in_queue then cancel_timer t w else w

-- The slot that is reached when `delay + interval` have passed.
unfoldable pub slot_for : TimerQueue → ℕ → ℕ → ℕ
slot_for q interval delay =
    bit_and
      (add64 q.current_slot (add64 (add64 delay q.circle_time) interval / 2 ^ q.interval_exponent))
      (sub64 q.slot_size 1)

-- The part of `ScheduleTimer` after the timer has left its old slot.
unfoldable pub enter_slot : ℕ → ℕ → ℕ → ℕ → World → World
enter_slot t interval next_handle_time to_slot w =
    let (pos, l) = UnorderedList.insert (list_at w to_slot) t in
    set_timer (set_list w to_slot l) t (record {
      in_queue = true;
      iter_slot = to_slot;
      iter_pos = pos;
      timer_interval = interval;
      next_handle_time = next_handle_time;
    })

-- `delay` is the bit pattern of an `int64_t`.
unfoldable pub schedule_timer : ℕ → ℕ → ℕ → World → World
schedule_timer t interval delay w =
    let next_handle_time = add64 (add64 delay interval) w.wheel.last_update_time in
    let w' = if (w.timers t).in_queue then cancel_timer t w else w in
    enter_slot t interval next_handle_time (slot_for w'.wheel interval delay) w'

-- The first lines of the loop of `Update`.
unfoldable pub tick : World → World
tick w = record w {
  wheel = record w.wheel {
    current_slot = bit_and (add64 w.wheel.current_slot 1) (sub64 w.wheel.slot_size 1);
    last_update_time = add64 w.wheel.last_update_time w.wheel.interval;
  };
}

-- `list_.get(iter)`; a position past the end is read as NULL.
unfoldable pub get_pointer : World → ℕ → ℕ → ℕ
get_pointer w slot iter = elim (UnorderedList.get pointer (list_at w slot) iter) [
  | none ↦ 0
  | some t ↦ t
]

-- The timer that is left goes back into the wheel, at its next time.
unfoldable pub reschedule : ℕ → World → World
reschedule t w =
    let timer = w.timers t in
    if t == 0
    then w
    else schedule_timer t timer.timer_interval
        (sub64 timer.next_handle_time (add64 timer.timer_interval w.wheel.last_update_time)) w

-- What a timer does when it fires, `OnTimeOut(current_time)`, is the program's; it may schedule
-- and cancel timers.
module _ (on_time_out : ℕ → ℕ → World → World) where
  unfoldable pub handle_time_out : ℕ → World → World
  handle_time_out t w =
      let timer = w.timers t in
      on_time_out t timer.next_handle_time (
        set_timer w t
          (record timer { next_handle_time = add64 timer.next_handle_time timer.timer_interval }))

  -- `while (timer && timer->GetNextHandleTime() <= last_update_time_)`, with fuel.
  unfoldable pub fire_loop : ℕ → ℕ → ℕ → ℕ → World → Option (ℕ × World)
  fire_loop zero slot iter t w = none
  fire_loop (suc fuel) slot iter t w =
      let w' = handle_time_out t w in
      let rest = fire_loop fuel slot iter (get_pointer w' slot iter) w' in
      if t == 0
      then some (t, w)
      else if leb (w.timers t).next_handle_time w.wheel.last_update_time
      then rest
      else some (t, w)

  -- The lambda of `Update`.
  unfoldable pub visit_timer : ℕ → ℕ → ℕ → ℕ → World → Option (Bool × World)
  visit_timer fuel slot t iter w =
      if t == 0
      then some (true, set_list w slot (UnorderedList.erase (list_at w slot) iter))
      else elim (fire_loop fuel slot iter t w) [
        | none ↦ none
        | some r ↦ some (true, reschedule r.0 r.1)
      ]

  unfoldable pub turn_wheel : ℕ → World → Option World
  turn_wheel fuel w =
      let slot = w.wheel.current_slot in
      for_each pointer (λ s. list_at s slot) (λ t iter s. visit_timer fuel slot t iter s) fuel 0
        (tick w)

  unfoldable pub update_loop : ℕ → ℕ → World → Option World
  update_loop zero delta_time w = none
  update_loop (suc fuel) delta_time w = elim (ltb w.wheel.last_update_time delta_time) [
    | true ↦ elim (turn_wheel fuel w) [ none ↦ none | some w' ↦ update_loop fuel delta_time w' ]
    | false ↦ some w
  ]

  unfoldable pub update : ℕ → ℕ → World → Option World
  update fuel current_time w =
      let w' =
        if w.wheel.last_update_time == 0
        then record w { wheel = record w.wheel { last_update_time = current_time } }
        else w in
      update_loop fuel (add64 current_time w.wheel.interval) w'
