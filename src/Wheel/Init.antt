-- ===== src/Wheel/Init.antt =====
-- `ti_init`: what it makes of the bitmap, and the manager that it leaves.
use simple_timer.Prelude.{
  ℕ, ◌+◌, ◌^◌, ◌<◌, ◌≤◌, ◌≡◌, ◌≢◌, refl, ◌∙◌, ap, true, List, [], some, arith, ne→eqb,
  if◌then◌else◌,
}
use simple_timer.Prelude.Arrays.{
  length, get_elem?, get_or, replicate, length-replicate, get_elem?-replicate,
}
use simple_timer.Machine.{ok, fault}
use simple_timer.Machine.Locks.{RwLock}
use simple_timer.Api.{Ptr, null, timer_true}
use simple_timer.LinkedList.{Memory}
use simple_timer.LinkedList.Ring.{IsRing}
use simple_timer.IdPool.{bitmap_bytes}
use simple_timer.IdPool.Turnover.{bitmap_bytes-bounds}
use simple_timer.Wheel.State.{
  live, TimerNode, Slots, Manager, World, load_node, head_of, wrlock, unlock, in_array,
}
use simple_timer.Wheel.Lifecycle.{
  TimerManagerConf, check_timer_manager_conf, InitEnv, bytes_from, clear_bytes, init_heads,
  init_bitmap, init_nodes, init,
}
use simple_timer.Wheel.Bytes.{
  length-bytes_from, get_elem?-bytes_from, clear_bytes-Cleared, clear_bytes-short,
}
use simple_timer.Wheel.Heads.{alone, Headed, init_heads-Headed, head_of-ok, load_node-ok}

-- A call of `ti_init` for which the system has all that is asked for.
pub record CanInit (env : InitEnv) (this : Ptr) (conf : TimerManagerConf) (w : World) : Type 0 where
  pub here : this ≢ null
  pub idle : w.man.lock ≡ RwLock.free
  pub first : w.man.init_flag ≢ 1
  pub sound : check_timer_manager_conf conf ≡ true
  pub small : conf.timer_max_num < 2 ^ 31
  pub fd : ℕ
  pub opened : env.fd ≡ some fd
  pub array : env.base ≢ null
  pub bytes : ℕ → ℕ
  pub block : env.bitmap ≡ some bytes

-- The manager and the memory when the bitmap's turn comes.
abbrev configured : InitEnv → TimerManagerConf → World → World
configured env conf w = record w {
  man = record (w.man) {
    lock = RwLock.exclusive;
    init_flag = 1;
    timerfd = env.fd;
    time_slot = conf.time_slot;
    slot_num = conf.slot_num;
    timer_max_num = conf.timer_max_num;
    cur_timer_num = 0;
    slots = live (record {
      base = env.base;
      nodes = replicate conf.slot_num (record { slot_id = 0; timer_cnt = 0 });
    });
  };
  links = λ a.
      if in_array env.base conf.slot_num a
      then some (record { next = null; prev = null })
      else w.links a;
}

init-configured :
    (env : InitEnv) (this : Ptr) (conf : TimerManagerConf) (w : World)
    → CanInit env this conf w
    → init env this (some conf) w ≡ init_bitmap env (configured env conf w)
unfolding init init_nodes wrlock
init-configured env this conf w c = rw (
  ne→eqb this null c.here,
  c.idle,
  ne→eqb w.man.init_flag 1 c.first,
  c.opened,
  c.sound,
  ne→eqb env.base null c.array,
)

pub record Bounds (conf : TimerManagerConf) : Type 0 where
  pub ticks : 0 < conf.time_slot
  pub slots : 2 ≤ conf.slot_num
  pub ids : 0 < conf.timer_max_num

pub Bounds-sound : (conf : TimerManagerConf) → check_timer_manager_conf conf ≡ true → Bounds conf
unfolding check_timer_manager_conf
Bounds-sound conf h = record { ticks = ground arith; slots = ground arith; ids = ground arith }

-- With no lock held, on a manager that is not initialised, with a sound configuration for at most
-- 24 timers, and all that is asked for to be had, `ti_init` writes out of the bitmap's bounds.
pub init-overrun :
    (env : InitEnv) (this : Ptr) (conf : TimerManagerConf) (w : World)
    → CanInit env this conf w
    → conf.timer_max_num ≤ 24
    → init env this (some conf) w ≡ fault
unfolding init_bitmap
init-overrun env this conf w c few =
    let n = bitmap_bytes conf.timer_max_num in
    let bounds = bitmap_bytes-bounds conf.timer_max_num (Bounds-sound conf c.sound).ids c.small in
    let short : length (bytes_from c.bytes 0 n) < 4 =
      omega (arith, length-bytes_from c.bytes 0 n, bounds) in
    init-configured env this conf w c
    ∙ rw (c.block, clear_bytes-short 4 (bytes_from c.bytes 0 n) short)

-- The manager that a successful `ti_init` leaves, of a manager that was `m`.
pub record IsReady (env : InitEnv) (conf : TimerManagerConf) (bytes : ℕ → ℕ) (m : Manager)
    (w : World) : Type 0 where
  pub idle : w.man.lock ≡ RwLock.free
  pub initialised : w.man.init_flag ≡ 1
  pub enabled : w.man.enable_flag ≡ 1
  pub time_slot : w.man.time_slot ≡ conf.time_slot
  pub slot_num : w.man.slot_num ≡ conf.slot_num
  pub timer_max_num : w.man.timer_max_num ≡ conf.timer_max_num
  pub no_timers : w.man.cur_timer_num ≡ 0
  pub nodes : List TimerNode
  pub array : w.man.slots ≡ live (record { base = env.base; nodes = nodes })
  pub count : length nodes ≡ conf.slot_num
  pub node :
      (j : ℕ) → j < conf.slot_num → load_node j w ≡ ok (record { slot_id = j; timer_cnt = 0 }) w
  pub header : (j : ℕ) → j < conf.slot_num → head_of j w ≡ ok (env.base + j) w
  pub ring : (j : ℕ) → j < conf.slot_num → IsRing w.links (env.base + j) []
  pub bitmap : List ℕ
  pub ids : w.man.timer_fd_bitmap ≡ live bitmap
  pub least : w.man.timer_fd_min_free ≡ 1
  pub bytes_free : (i : ℕ) → i < 4 → get_or 0 bitmap i ≡ 0
  pub bytes_left :
      (i : ℕ) → 4 ≤ i → i < bitmap_bytes conf.timer_max_num → get_elem? bitmap i ≡ some (bytes i)
  pub size : length bitmap ≡ bitmap_bytes conf.timer_max_num
  pub stale_slot : w.man.cur_slot ≡ m.cur_slot
  pub stale_root : w.man.rb_root ≡ m.rb_root

IsRing-alone : (m : Memory) (p : Ptr) → m p ≡ some (alone p) → IsRing m p []
IsRing-alone m p e = record {
  chain = (rw e, rw e);
  distinct = (refl, tt);
  live = λ a h. ground (arith, e);
}

-- The world when the loop over the nodes starts, and the one that it leaves.
abbrev with_ids : World → List ℕ → World
with_ids w bitmap = record w {
  man = record (w.man) { timer_fd_bitmap = live bitmap; timer_fd_min_free = 1 };
}

abbrev nodes_of : InitEnv → TimerManagerConf → Slots
nodes_of env conf = record {
  base = env.base;
  nodes = replicate conf.slot_num (record { slot_id = 0; timer_cnt = 0 });
}

abbrev ready : InitEnv → TimerManagerConf → World → List ℕ → List TimerNode → Memory → World
ready env conf w bitmap nodes memory =
    let w1 = with_ids (configured env conf w) bitmap in
    record w1 {
      man = record (w1.man) {
        slots = live (record { base = env.base; nodes = nodes });
        lock = RwLock.free;
        enable_flag = 1;
      };
      links = memory;
    }

init-Headed :
    (env : InitEnv) (conf : TimerManagerConf) (w : World) (bitmap : List ℕ)
    → let w1 = with_ids (configured env conf w) bitmap in
      (w' : World) × (init_heads conf.slot_num 0 w1 ≡ ok tt w')
      × Headed 0 conf.slot_num w1 (nodes_of env conf) w'
init-Headed env conf w bitmap =
    init_heads-Headed conf.slot_num 0 (with_ids (configured env conf w) bitmap) (nodes_of env conf)
      (record {
        held = refl;
        size = length-replicate conf.slot_num _ ∙ omega arith;
        node = λ j a b. get_elem?-replicate conf.slot_num _ j (omega arith);
        live = λ j a b. ground arith;
      })

init_bitmap-run :
    (env : InitEnv) (this : Ptr) (conf : TimerManagerConf) (w : World)
    → (c : CanInit env this conf w) → (bitmap : List ℕ) (nodes : List TimerNode) (memory : Memory)
    → clear_bytes 4 (bytes_from c.bytes 0 (bitmap_bytes conf.timer_max_num)) ≡ some bitmap
    → init_heads conf.slot_num 0 (with_ids (configured env conf w) bitmap)
      ≡ ok tt (record (with_ids (configured env conf w) bitmap) {
        man = record ((with_ids (configured env conf w) bitmap).man) {
          slots = live (record { base = env.base; nodes = nodes });
        };
        links = memory;
      })
    → init env this (some conf) w ≡ ok timer_true (ready env conf w bitmap nodes memory)
unfolding init_bitmap unlock
init_bitmap-run env this conf w c bitmap nodes memory cleared headed =
    init-configured env this conf w c ∙ rw (c.block, cleared, headed)

-- With no lock held, on a manager that is not initialised, with a sound configuration for more than
-- 24 and fewer than 2^31 timers, and all that is asked for to be had, `ti_init` succeeds with the
-- lock free: the manager is initialised, enabled and without timers, each node has its number, the
-- count 0 and an empty list, the least free id is 1, the first four bytes of the bitmap are 0, the
-- others are those that `malloc` left, and the current slot and the root of the tree are those of
-- before.
pub init-IsReady :
    (env : InitEnv) (this : Ptr) (conf : TimerManagerConf) (w : World)
    → (c : CanInit env this conf w) → 24 < conf.timer_max_num
    → (w' : World) × (init env this (some conf) w ≡ ok timer_true w')
      × IsReady env conf c.bytes w.man w'
init-IsReady env this conf w c many =
    let n = bitmap_bytes conf.timer_max_num in
    let bounds = bitmap_bytes-bounds conf.timer_max_num (Bounds-sound conf c.sound).ids c.small in
    let malloced = bytes_from c.bytes 0 n in
    let long : 4 ≤ length malloced = omega (arith, length-bytes_from c.bytes 0 n, bounds) in
    let (bitmap, cleared, k) = clear_bytes-Cleared 4 malloced long in
    let (w1, headed, h) = init-Headed env conf w bitmap in
    let w2 = ready env conf w bitmap h.nodes h.memory in
    let s : Slots = record { base = env.base; nodes = h.nodes } in
    (
      w2,
      init_bitmap-run env this conf w c bitmap h.nodes h.memory cleared
          (headed ∙ ap (λ (x : World). ok tt x) h.world),
      record {
        idle = refl;
        initialised = refl;
        enabled = refl;
        time_slot = refl;
        slot_num = refl;
        timer_max_num = refl;
        no_timers = refl;
        nodes = h.nodes;
        array = refl;
        count = h.size ∙ length-replicate conf.slot_num _;
        node = λ j l. load_node-ok w2 s refl j _ (h.node j (omega arith) (omega arith));
        header = λ j l. head_of-ok w2 s refl j _ (h.node j (omega arith) (omega arith));
        ring = λ j l. IsRing-alone h.memory (env.base + j) (h.ring j (omega arith) (omega arith));
        bitmap = bitmap;
        ids = refl;
        least = refl;
        bytes_free = k.zeros;
        bytes_left = λ i a b.
            k.rest i a
            ∙ get_elem?-bytes_from c.bytes 0 n i b
            ∙ ap (λ (j : ℕ). some (c.bytes j)) (omega arith);
        size = k.size ∙ length-bytes_from c.bytes 0 n;
        stale_slot = refl;
        stale_root = refl;
      },
    )
