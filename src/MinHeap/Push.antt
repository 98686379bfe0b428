-- ===== src/MinHeap/Push.antt =====
-- `ti_push`: what it does to a valid manager.

use mathlib.Core.Path.{fun_ext}
use native.Mathlib.Numerals.{add-one}
use simple_timer.Prelude.{
  ne→eqb, eqb_refl, ℕ, suc, ◌<◌, ◌≤◌, ◌≡◌, ◌≢◌, refl, false, Option, none, some, List, [], Perm,
  arith,
}
use simple_timer.Prelude.Arrays.{length, set, take, length-perm, length-set}
use simple_timer.Machine.{ok}
use simple_timer.Machine.Locks.{RwLock}
use simple_timer.Machine.Ends
use simple_timer.Machine.Ends.{Ends, ends}
use simple_timer.Api.{Ptr, null, Timer, timer_true, Timespec}
use simple_timer.MinHeap.State.{MhTimer, World, write, set_expiretime, set_lock, rdlock}
use simple_timer.MinHeap.Queue.{PushEnv, later, copied, push, push_alloc, copy_param}
use simple_timer.MinHeap.Memory.{Timers, IsTimer, load_timer-ok, store_timer-ok}
use simple_timer.MinHeap.SiftUp.{Sifted}
use simple_timer.MinHeap.Insert.{
  IsQueue-frame, slot-ne-fresh, IsQueue-Sifted, pushed, push_locked-room,
}
use simple_timer.MinHeap.Valid.{IsQueue, IsValid, IsIdle, count-fresh}

pub write-write :
    (h : Timers) (p : Ptr) (x y : MhTimer)
    → write (write h p (some x)) p (some y) ≡ write h p (some y)
write-write h p x y = fun_ext λ a. ground arith

-- The bytes that a timer's `param` leads to.
abbrev pub bytes_of : Option (List ℕ) → List ℕ
bytes_of none = []
bytes_of (some bytes) = bytes

-- What a call needs, of the manager, of the system and of the caller, to make the new timer.
pub record Admits (w : World) (env : PushEnv) (timer : Timer) : Type 0 where
  pub initialised : w.man.init_flag ≢ 0
  pub enabled : w.man.enable_flag ≢ 0
  pub positive : timer.interval ≢ 0
  pub node_given : env.node ≢ null
  pub node_fresh : w.timers env.node ≡ none
  pub block_given : env.block ≢ null
  pub readable : timer.param_len ≤ length (bytes_of timer.param)

-- The new timer: the caller's fields, and the clock's time plus the interval in seconds.
abbrev pub new_timer : PushEnv → Timer → Timespec → MhTimer
new_timer env timer now = record (copied timer env.block) { expiretime = later now timer.interval }

-- The blocks that hold timers, after a successful call.
abbrev pub heap_with_new : World → PushEnv → Timer → Timespec → Timers
heap_with_new w env timer now = write w.timers env.node (some (new_timer env timer now))

-- The world after a successful call.
abbrev pub added : World → PushEnv → Timer → Timespec → List Ptr → World
added w env timer now q = record (pushed w env.node (heap_with_new w env timer now) q) {
  params = write w.params env.block (some (take timer.param_len (bytes_of timer.param)));
}

take-zero : (n : ℕ) (bytes : List ℕ) → n ≡ 0 → take n bytes ≡ []
take-zero n bytes h = rw h

pub copy_param-ok :
    (b : Ptr) (timer : Timer) (w : World)
    → timer.param_len ≤ length (bytes_of timer.param)
    → copy_param b timer w
      ≡ ok tt (record w {
        params = write w.params b (some (take timer.param_len (bytes_of timer.param)));
      })
unfolding copy_param
copy_param-ok b timer w readable = ground (arith, take-zero timer.param_len (bytes_of timer.param))

-- The world that has the blocks of the new timer.
abbrev pub allocated : World → PushEnv → Timer → World
allocated w env timer = record w {
  timers = write w.timers env.node (some (copied timer env.block));
  params = write w.params env.block (some (take timer.param_len (bytes_of timer.param)));
}

module _ {w : World} {env : PushEnv} {timer : Timer} (now : Timespec) (a : Admits w env timer) where
  pub set_expiretime-new :
      set_expiretime env.node (later now timer.interval) (allocated w env timer)
      ≡ ok tt (record ((allocated w env timer)) { timers = heap_with_new w env timer now })
  set_expiretime-new =
      let old : IsTimer (write w.timers env.node (some (copied timer env.block))) env.node =
        record { ne_null = a.node_given; holds = ground arith } in
      rw (
        load_timer-ok {w = allocated w env timer} old,
        eqb_refl env.node,
        store_timer-ok {w = allocated w env timer} (new_timer env timer now) old,
        write-write,
      )

module _ {w : World} {q : List Ptr} {env : PushEnv} {timer : Timer} (now : Timespec)
    (v : IsValid w q) (a : Admits w env timer)
    (room : w.man.cur_timer_num < w.man.max_timer_num) where
  new-IsTimer : IsTimer (heap_with_new w env timer now) env.node
  new-IsTimer = record { ne_null = a.node_given; holds = ground arith }

  IsQueue-new : IsQueue w.man.cur_timer_num (heap_with_new w env timer now) q
  IsQueue-new = IsQueue-frame v.entries λ j p. rw (slot-ne-fresh v.entries a.node_fresh j p)

  IsValid-added :
      {q' : List Ptr}
      → Sifted
          (suc w.man.cur_timer_num)
          (heap_with_new w env timer now)
          q
          w.man.cur_timer_num
          env.node
          q'
      → IsValid (added w env timer now q') q'
  IsValid-added {q'} s =
      let n = w.man.cur_timer_num in
      let inside : n < length q = omega (arith, v.size, room) in
      let absent = count-fresh env.node v.entries a.node_given a.node_fresh in
      record {
        array = refl;
        size = omega (arith, length-perm s.same, length-set q n env.node, v.size);
        room = omega (arith, room);
        entries = rw add-one (IsQueue-Sifted IsQueue-new a.node_given absent inside s);
      }

  push_alloc-room :
      w.man.lock ≡ RwLock.shared 0
      → w.man.mh_lock ≡ false
      → env.now ≡ some now
      → Ends
          (λ b w'.
            (b ≡ timer_true)
            × (q' : List Ptr) × (w' ≡ added w env timer now q')
            × Sifted
                (suc w.man.cur_timer_num)
                (heap_with_new w env timer now)
                q
                w.man.cur_timer_num
                env.node
                q')
          (push_alloc env timer w)
  unfolding push_alloc
  push_alloc-room locked open_mutex clock =
      rw
        (
          ne→eqb _ _ a.node_given,
          ne→eqb _ _ a.block_given,
          copy_param-ok env.block timer _ a.readable,
          clock,
          set_expiretime-new,
        )
        (push_locked-room
          {w = record (allocated w env timer) { timers = heap_with_new w env timer now }} locked
          open_mutex v.array room v.size IsQueue-new new-IsTimer)

module _ {w : World} {q : List Ptr} {env : PushEnv} {timer : Timer} (now : Timespec)
    (v : IsValid w q) (a : Admits w env timer)
    (room : w.man.cur_timer_num < w.man.max_timer_num) where
  -- On a valid manager, initialised, enabled, with room and with no lock held, whether it has been
  -- started or not, where memory and a clock are to be had, the interval is positive and the
  -- caller's bytes can be read, `push` succeeds: the new timer, due `interval` seconds after the
  -- clock's time at the call, is in the array beside the old ones, which are the same, the array is
  -- a heap again, both locks are free and nothing else has changed.
  pub push_correct :
      (this : Ptr)
      → this ≢ null
      → IsIdle w.man
      → env.now ≡ some now
      → Ends
          (λ b w'.
            (b ≡ timer_true)
            × (q' : List Ptr) × (w' ≡ added w env timer now q')
            × IsValid w' q'
            × Perm q' (set q w.man.cur_timer_num env.node))
          (push env this timer w)
  unfolding push rdlock
  push_correct this given idle clock =
      let w1 : World = set_lock w (RwLock.shared 0) in
      let v1 : IsValid w1 q = record {
        array = v.array;
        size = v.size;
        room = v.room;
        entries = v.entries;
      } in
      let a1 : Admits w1 env timer = record {
        initialised = a.initialised;
        enabled = a.enabled;
        positive = a.positive;
        node_given = a.node_given;
        node_fresh = a.node_fresh;
        block_given = a.block_given;
        readable = a.readable;
      } in
      rw
        (
          ne→eqb this null given,
          idle.lock_free,
          ne→eqb _ _ a.initialised,
          ne→eqb _ _ a.enabled,
          ne→eqb _ _ a.positive,
        )
        (Ends.mono (push_alloc-room now v1 a1 room refl idle.mutex_free clock)
          λ b w' (done, q', e, s). (done, q', e, rw e (IsValid-added now v a room s), s.same))
