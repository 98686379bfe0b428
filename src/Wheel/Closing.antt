-- ===== src/Wheel/Closing.antt =====
-- The end of a manager of src/timer.c: `ti_close` and destruction. What the timer thread does to the
-- shared state while a call sleeps is an argument, and so is the fuel of the loops over the lists.
use simple_timer.Prelude.{ℕ, zero, suc, ◌+◌, none, some, ◌==◌, if◌then◌else◌, ltb}
use simple_timer.Prelude.Arrays.{length}
use simple_timer.Machine.{fault, out_of_fuel, pure, ◌>>=◌, ◌>>◌}
use simple_timer.Api.{Ptr, null}
use simple_timer.LinkedList.{load, list_del, list_empty}
use simple_timer.Wheel.State.{
  unset, live, dangling, World, Op, close_fd, manager, modify, emit, wrlock, unlock, destroy_lock,
  on_links, load_node, head_of, release_timer, set_heads,
}
use simple_timer.Wheel.Lifecycle.{halt}

-- The inner loop of `ti_close`.
unfoldable pub free_list : (fuel : ℕ) (header : Ptr) → Op (Unit {0})
unfolding release_timer
free_list zero header = λ _. out_of_fuel
free_list (suc k) header = do
  empty ← on_links (list_empty header)
  if empty then pure tt else do
    h ← on_links (load header)
    on_links (list_del h.next)
    release_timer h.next
    free_list k header

-- The outer loop from slot `cnt` on, of which `rounds` are left.
unfoldable pub free_lists : (fuel rounds cnt : ℕ) → Op (Unit {0})
unfolding load_node head_of free_list
free_lists fuel zero cnt = pure tt
free_lists fuel (suc rounds) cnt = do
  x ← load_node cnt
  header ← head_of cnt
  if x.timer_cnt == 0 then pure tt else free_list fuel header
  free_lists fuel rounds (cnt + 1)

-- `free(p->data)` and `free(p->timer_fd_bitmap)` where they are not NULL.
unfoldable pub free_slots : Op (Unit {0})
free_slots = do
  m ← manager
  elim m.slots [
    | unset ↦ pure tt
    | live s ↦ (do
      set_heads s.base (length s.nodes) none
      modify λ m. record m { slots = dangling })
    | dangling ↦ λ _. fault
  ]

unfoldable pub free_bitmap : Op (Unit {0})
free_bitmap = do
  m ← manager
  elim m.timer_fd_bitmap [
    | unset ↦ pure tt
    | live b ↦ modify λ m. record m { timer_fd_bitmap = dangling }
    | dangling ↦ λ _. fault
  ]

-- `close(p->timerfd)` if it is above 2.
unfoldable pub close_timerfd : Op (Unit {0})
close_timerfd = do
  m ← manager
  elim m.timerfd [ none ↦ pure tt | some fd ↦ if ltb 2 fd then emit (close_fd fd) else pure tt ]

-- With `init_flag` 0 the call returns and keeps the lock.
unfoldable pub close : (fuel : ℕ) (sleep : World → World) → Ptr → Op (Unit {0})
unfolding halt free_lists free_slots free_bitmap close_timerfd wrlock unlock
close fuel sleep this = if this == null then pure tt else do
  wrlock
  m ← manager
  if m.init_flag == 0 then pure tt else do
    if m.start_flag == 0 then pure tt else halt sleep
    n ← manager
    free_lists fuel n.slot_num 0
    modify λ m. record m { time_slot = 0; slot_num = 0; timer_max_num = 0 }
    free_slots
    free_bitmap
    close_timerfd
    modify λ m. record m { init_flag = 0 }
    unlock

-- `destroy_timer_manager`, which calls `close` through the pointer. The structure itself is freed at
-- the end.
unfoldable pub destroy_manager : (fuel : ℕ) (sleep : World → World) → Ptr → Op (Unit {0})
unfolding close destroy_lock
destroy_manager fuel sleep this =
    if this == null then (λ _. fault) else do close fuel sleep this; destroy_lock
