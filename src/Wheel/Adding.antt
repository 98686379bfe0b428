-- ===== src/Wheel/Adding.antt =====
-- `ti_add` of a timer that nothing refuses, up to the tree: its record, its id and its slot.
use simple_timer.Prelude.{
  ℕ, ◌*◌, ◌/◌, ◌≡◌, true, Option, none, some, List, [], arith, ◌==◌, if◌then◌else◌, ltb,
}
use simple_timer.Prelude.Arrays.{length, take}
use simple_timer.Machine.{Cmd, ok}
use simple_timer.Api.{Ptr, Timer}
use simple_timer.LinkedList.{Memory}
use simple_timer.LinkedList.Ring.{is_live}
use simple_timer.IdPool.{Pool, timer_id_pop}
use simple_timer.Wheel.State.{live, write, World, on_pool, pool_of, with_pool}
use simple_timer.Wheel.Timers.{copy_param, number}
use simple_timer.Wheel.Due.{Fits, round_of-ok}
use simple_timer.Wheel.Heads.{emptied, init_list_head-ok}
use simple_timer.Wheel.Enlist.{IsTimer, load_timer-ok, store_timer-ok}

-- What `memcpy` puts into the parameter block, if the caller's bytes can be read.
abbrev pub copy_of : Timer → Option (List ℕ)
copy_of timer = if timer.param_len == 0 then some [] else elim timer.param [
  | none ↦ none
  | some bytes ↦
      if ltb (length bytes) timer.param_len then none else some (take timer.param_len bytes)
]

pub copy_param-ok :
    (b : Ptr) (timer : Timer) (bytes : List ℕ) (w : World)
    → copy_of timer ≡ some bytes
    → copy_param b timer w ≡ ok tt (record w { params = write w.params b (some bytes) })
unfolding copy_param
copy_param-ok b timer bytes w e = ground (arith, e)

on_pool-ok :
    {A : Type 0} (c : Cmd Pool A) (w : World) (bitmap : List ℕ) (a : A) (q : Pool)
    → w.man.timer_fd_bitmap ≡ live bitmap
    → c (pool_of w.man bitmap) ≡ ok a q
    → on_pool c w ≡ ok a (record w { man = with_pool w.man q })
unfolding on_pool
on_pool-ok c w bitmap a q held run = rw (held, run)

pub number-ok :
    (w : World) (interval : ℕ) (t : Ptr) (k : IsTimer w t) (bitmap : List ℕ) (id : ℕ) (q : Pool)
    → w.man.timer_fd_bitmap ≡ live bitmap
    → timer_id_pop (pool_of w.man bitmap) ≡ ok id q
    → Fits w interval
    → is_live (w.links t) ≡ true
    → (m' : Memory) × (number interval t w
        ≡ ok tt (record w {
          man = with_pool w.man q;
          timers = write w.timers t (
              some (record (k.value) {
                id = id;
                round = interval / (w.man.time_slot * w.man.slot_num);
              }));
          links = m';
        }))
      × ((a : Ptr) → m' a ≡ emptied w.links t a)
unfolding number
number-ok w interval t k bitmap id q held run f l =
    let (m', cleared, at) = init_list_head-ok w.links t l in
    let w1 : World = record w { man = with_pool w.man q } in
    let k1 : IsTimer w1 t = record { place = k.place; value = k.value; stands = k.stands } in
    (
      m',
      rw (
        on_pool-ok timer_id_pop w bitmap id q held run,
        round_of-ok w1 interval f,
        load_timer-ok w1 t k1,
        store_timer-ok w1 t k1
            (record (k.value) { id = id; round = interval / (w.man.time_slot * w.man.slot_num) }),
        cleared,
      ),
      at,
    )
