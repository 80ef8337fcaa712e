-- ===== src/Net/TimerQueue/Arithmetic.antt =====
-- The constructor's checks, and where and when the wheel of timer_queue.cc meets a timer.
use green_turtle.Base.{
  ℕ, zero, suc, ◌+◌, ◌-◌, ◌*◌, ◌/◌, ◌%◌, ◌^◌, ◌≤◌, ◌<◌, ◌≡◌, refl, sym, ap, ◌∙◌, true, false, none,
  some, arith, bit_and, word_mod, add64, sub64, ◌==◌, bit_and-le, pow_pos, mask_of_wrapped,
}
use native.Mathlib.Nat.{
  pow-suc, pow-le-pow_right, add-mul-div_right, mod-add-mod, div-mul-le_self, lt-div-mul-add,
}
use green_turtle.Net.TimerQueue.{TimerQueue, World, exponent_loop, assertion, make, slot_for, tick}

-- The assertions of the constructor hold of every word: `~` is not `!`, and the complement of
-- `x & (x - 1)` is never zero. They refuse no size.
assertion_always : (x : ℕ) → x < word_mod → assertion x ≡ true
unfolding assertion
assertion_always zero h = refl
assertion_always (suc x) h = ground (arith, bit_and-le (suc x) (sub64 (suc x) 1))

-- The loop of the constructor finds the exponent of a power of two.
pub exponent_loop-pow :
    (e fuel acc : ℕ) → e < fuel → exponent_loop fuel (2 ^ e) acc ≡ some (acc + e)
unfolding exponent_loop
exponent_loop-pow zero (suc fuel) acc h = ap some (omega arith)
exponent_loop-pow (suc e) zero acc h = absurd (omega arith)
exponent_loop-pow zero zero acc h = absurd (omega arith)
exponent_loop-pow (suc e) (suc fuel) acc h =
    let half : 2 ^ suc e / 2 ≡ 2 ^ e = omega (arith, pow-suc 2 e) in
    let more : (2 ^ suc e == 1) ≡ false = ground (arith, pow-suc 2 e, pow_pos e) in
    rw (more, half) (exponent_loop-pow e fuel (acc + 1) (omega arith) ∙ ap some (omega arith))

exponent_loop-zero : (fuel acc : ℕ) → exponent_loop fuel 0 acc ≡ none
unfolding exponent_loop
exponent_loop-zero zero acc = refl
exponent_loop-zero (suc fuel) acc = exponent_loop-zero fuel (acc + 1)

-- At interval 0 the loop of the constructor does not end, and no assertion has stopped it.
pub make_hangs : (fuel slot_size : ℕ) → slot_size < word_mod → make fuel slot_size 0 ≡ none
unfolding make
make_hangs fuel slot_size small =
    rw (
      assertion_always slot_size small,
      assertion_always 0 (omega arith),
      exponent_loop-zero fuel 0,
    )

-- The shape that the constructor gives a wheel, and the slot that it stands at.
pub record Geometry (j e : ℕ) (q : TimerQueue) : Type 0 where
  pub slots : q.slot_size ≡ 2 ^ j
  pub slot_bits : j ≤ 63
  pub step : q.interval ≡ 2 ^ e
  pub exponent : q.interval_exponent ≡ e
  pub circle : q.circle_time ≡ q.slot_size * q.interval
  pub current : q.current_slot < q.slot_size

mod_shift : (c d s : ℕ) → 0 < s → (c + (d + s)) % s ≡ (c + d) % s
mod_shift c d s h = grind arith

module _ {j e : ℕ} {q : TimerQueue} (geometry : Geometry j e q) where
  slot_mask : sub64 q.slot_size 1 ≡ 2 ^ j - 1
  slot_mask =
      omega (
        arith,
        geometry.slots,
        pow_pos j,
        pow-le-pow_right {n = 2} (omega arith) geometry.slot_bits,
      )

  -- A timer whose next time is `next` goes to the slot that many intervals on.
  pub slot_for-next :
      (interval delay next : ℕ)
      → add64 (add64 delay interval) q.last_update_time ≡ next
      → q.last_update_time ≤ next
      → next - q.last_update_time + q.circle_time < word_mod
      → slot_for q interval delay
        ≡ (q.current_slot + (next - q.last_update_time) / q.interval) % q.slot_size
  unfolding slot_for
  slot_for-next interval delay next at le small =
      let sum : add64 (add64 delay q.circle_time) interval
          ≡ next - q.last_update_time + q.circle_time =
        omega arith in
      let steps : add64 (add64 delay q.circle_time) interval / 2 ^ q.interval_exponent
          ≡ (next - q.last_update_time) / q.interval + q.slot_size =
        rw (sum, geometry.exponent, geometry.circle, geometry.step)
          (add-mul-div_right (next - q.last_update_time) q.slot_size (pow_pos e)) in
      rw (steps, slot_mask)
        (mask_of_wrapped j
            (q.current_slot + ((next - q.last_update_time) / q.interval + q.slot_size))
            (omega (arith, geometry.slot_bits))
          ∙ rw (← geometry.slots) (
              mod_shift q.current_slot ((next - q.last_update_time) / q.interval) q.slot_size
                (omega (arith, geometry.slots, pow_pos j))))

current_tick :
    {j e : ℕ} {q : TimerQueue}
    → Geometry j e q
    → bit_and (add64 q.current_slot 1) (sub64 q.slot_size 1) ≡ (q.current_slot + 1) % q.slot_size
current_tick {j} {e} {q} geometry = rw (slot_mask geometry) (
    mask_of_wrapped j (q.current_slot + 1) (omega (arith, geometry.slot_bits))
    ∙ ap (λ t. (q.current_slot + 1) % t) (sym geometry.slots))

-- The wheel after `n` rounds of the loop of `Update`.
abbrev pub ticks : ℕ → World → World
ticks zero w = w
ticks (suc n) w = ticks n (tick w)

pub tick-Geometry : {j e : ℕ} (w : World) → Geometry j e w.wheel → Geometry j e (tick w).wheel
unfolding tick
tick-Geometry {j} {e} w geometry = record {
  slots = geometry.slots;
  slot_bits = geometry.slot_bits;
  step = geometry.step;
  exponent = geometry.exponent;
  circle = geometry.circle;
  current = rw (current_tick geometry) (omega (arith, geometry.slots, pow_pos j));
}

-- `n` rounds go `n` slots on, round the wheel, and `n` intervals of time.
pub ticks_wheel :
    {j e : ℕ} (n : ℕ) (w : World)
    → Geometry j e w.wheel
    → w.wheel.last_update_time + n * w.wheel.interval < word_mod
    → ((ticks n w).wheel.current_slot ≡ (w.wheel.current_slot + n) % w.wheel.slot_size)
      × ((ticks n w).wheel.last_update_time ≡ w.wheel.last_update_time + n * w.wheel.interval)
unfolding tick
ticks_wheel zero w geometry small = (grind (arith, geometry.current), omega arith)
ticks_wheel (suc n) w geometry small =
    let time : add64 w.wheel.last_update_time w.wheel.interval
        ≡ w.wheel.last_update_time + w.wheel.interval =
      omega arith in
    let (slot, last) = ticks_wheel n (tick w) (tick-Geometry w geometry) (omega arith) in
    let further : w.wheel.current_slot + 1 + n ≡ w.wheel.current_slot + suc n = omega arith in
    (
      slot
          ∙ rw (current_tick geometry) (
              mod-add-mod (w.wheel.current_slot + 1) w.wheel.slot_size n
              ∙ ap (λ t. t % w.wheel.slot_size) further),
      last ∙ omega (arith, time),
    )

interval-ticks : (n : ℕ) (w : World) → (ticks n w).wheel.interval ≡ w.wheel.interval
unfolding tick
interval-ticks zero w = refl
interval-ticks (suc n) w = interval-ticks n (tick w)

interval-le-circle : {j e : ℕ} {q : TimerQueue} → Geometry j e q → q.interval ≤ q.circle_time
interval-le-circle {j} {e} {q} geometry =
    let one : 1 ≤ q.slot_size = omega (arith, geometry.slots, pow_pos j) in
    rw geometry.circle (grind arith)

floor_bounds : (a p : ℕ) → 0 < p → (a / p * p ≤ a) × (a < a / p * p + p)
floor_bounds a p h = (div-mul-le_self a p, lt-div-mul-add h)

-- A timer with next time `next` goes to the slot where the wheel stands just when `next` falls in
-- the interval that the round closes: it fires neither early nor more than one interval late.
pub visited_when_due :
    {j e : ℕ} (w : World) (interval delay next : ℕ)
    → Geometry j e w.wheel
    → add64 (add64 delay interval) w.wheel.last_update_time ≡ next
    → w.wheel.last_update_time ≤ next
    → next + w.wheel.circle_time < word_mod
    → (d : ℕ) × ((ticks d w).wheel.current_slot ≡ slot_for w.wheel interval delay)
      × ((ticks d w).wheel.last_update_time ≤ next)
      × (next < (tick (ticks d w)).wheel.last_update_time)
      × ((tick (ticks d w)).wheel.last_update_time ≤ next + w.wheel.interval)
unfolding tick
visited_when_due {j} {e} w interval delay next geometry at le small =
    let d = (next - w.wheel.last_update_time) / w.wheel.interval in
    let positive : 0 < w.wheel.interval = omega (arith, geometry.step, pow_pos e) in
    let floor = floor_bounds (next - w.wheel.last_update_time) w.wheel.interval positive in
    let fits : w.wheel.last_update_time + d * w.wheel.interval < word_mod = omega arith in
    let (slot, last) = ticks_wheel d w geometry fits in
    let step = interval-ticks d w in
    let sum : (ticks d w).wheel.last_update_time + w.wheel.interval < word_mod =
      omega (arith, interval-le-circle geometry) in
    (
      d,
      slot ∙ sym (slot_for-next geometry interval delay next at le (omega arith)),
      omega arith,
      omega arith,
      omega arith,
    )
