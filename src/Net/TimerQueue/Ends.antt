-- ===== src/Net/TimerQueue/Ends.antt =====
-- `Update` of timer_queue.cc ends, where the timers have positive intervals and leave the queue
-- alone when they fire. Lengths is about the list of the slot that is visited, Visits about one
-- timer, Turns about the walk and the loop around it.
mod Lengths
pub mod Visits
pub mod Turns
