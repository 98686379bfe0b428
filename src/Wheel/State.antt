-- ===== src/Wheel/State.antt =====
-- The structures of src/timer.c, the memory that they lie in, and the reads and writes that the
-- operations are made of. A `struct timer_internal` and a `struct timer_node` are known by the
-- address of the list head in them, so that `container_of` changes no address; the list heads of an
-- array of nodes follow one another.
use simple_timer.Prelude.{
  ℕ, ◌+◌, ◌-◌, ◌%◌, ◌^◌, Bool, ◌&&◌, Option, none, some, List, ◌==◌, if◌then◌else◌, ltb, leb,
}
use simple_timer.Prelude.Arrays.{get_elem?, set}
use simple_timer.Machine.{ok, fault, Cmd, resume, deref, ◌>>=◌, ◌>>◌}
use simple_timer.Machine.Locks.{RwLock, write_lock, read_lock, release, destroy}
use simple_timer.Api.{Ptr, null, TimerType, TimerRunType, Timespec}
use simple_timer.LinkedList.{Links, Memory}
use simple_timer.RbTree.{Store}
use simple_timer.IdPool.{Pool}

-- `unsigned int` arithmetic, and that of the counters of src/atomic.h.
abbrev pub add_uint : ℕ → ℕ → ℕ
add_uint a b = (a + b) % 2 ^ 32

abbrev pub inc : ℕ → ℕ
inc n = (n + 1) % 2 ^ 32

abbrev pub dec : ℕ → ℕ
dec n = (n + 2 ^ 32 - 1) % 2 ^ 32

pub record TimerInternal : Type 0 where
  pub kind : TimerType
  pub run_type : TimerRunType
  pub interval : ℕ
  pub cb : Ptr
  pub param : Ptr
  pub param_len : ℕ
  pub id : ℕ
  pub round : ℕ

pub record TimerNode : Type 0 where
  pub slot_id : ℕ
  pub timer_cnt : ℕ

-- What a pointer to an array leads to: NULL, a live block, or a block that has been freed.
pub data Block (A : Type 0) : Type 0 where
  unset : Block A
  live : A → Block A
  dangling : Block A

-- The array `data`: the address of its first list head, and the nodes.
pub record Slots : Type 0 where
  pub base : Ptr
  pub nodes : List TimerNode

-- `slots` is the field `data`. `pid` is 0 where no thread runs; `timerfd` is `none` for -1.
pub record Manager : Type 0 where
  pub time_slot : ℕ
  pub slot_num : ℕ
  pub timer_max_num : ℕ
  pub cur_timer_num : ℕ
  pub cur_slot : ℕ
  pub pid : ℕ
  pub timer_fd_min_free : ℕ
  pub init_flag : ℕ
  pub start_flag : ℕ
  pub enable_flag : ℕ
  pub lock : RwLock
  pub timerfd : Option ℕ
  pub timer_fd_bitmap : Block (List ℕ)
  pub slots : Block Slots
  pub rb_root : Ptr

-- What other parts of the system see of a call.
pub data Event : Type 0 where
  raise_alarm : Event
  spawn : Ptr → Ptr → Event
  call : Ptr → Ptr → Event
  kill_thread : ℕ → Event
  close_fd : ℕ → Event
  arm : Timespec → Event

-- The manager, the blocks that hold timers and parameters, all list heads, the nodes of the tree, and
-- the events so far, the last one first.
pub record World : Type 0 where
  pub man : Manager
  pub timers : Ptr → Option TimerInternal
  pub params : Ptr → Option (List ℕ)
  pub links : Memory
  pub tree : Store
  pub events : List Event

abbrev pub Op : Type 0 → Type 0
Op = Cmd World

abbrev pub write : {A : Type 0} → (Ptr → A) → Ptr → A → Ptr → A
write h p c a = if a == p then c else h a

abbrev pub manager : Op Manager
manager w = ok w.man w

abbrev pub modify : (Manager → Manager) → Op (Unit {0})
modify f w = ok tt (record w { man = f w.man })

abbrev pub emit : Event → Op (Unit {0})
emit e w = ok tt (record w { events = List.◌∷◌ e w.events })

abbrev pub set_lock : World → RwLock → World
set_lock w l = record w { man = record (w.man) { lock = l } }

unfoldable pub wrlock : Op (Unit {0})
wrlock w = write_lock w.man.lock (set_lock w)

unfoldable pub rdlock : Op (Unit {0})
rdlock w = read_lock w.man.lock (set_lock w)

unfoldable pub unlock : Op (Unit {0})
unlock w = release w.man.lock (set_lock w)

unfoldable pub destroy_lock : Op (Unit {0})
destroy_lock w = destroy w.man.lock w

-- Commands of src/list.h and src/rbtree.c, on their part of the world.
abbrev pub on_links : {A : Type 0} → Cmd Memory A → Op A
on_links c w = resume (c w.links) λ l. record w { links = l }

abbrev pub on_tree : {A : Type 0} → Cmd Store A → Op A
on_tree c w = resume (c w.tree) λ t. record w { tree = t }

-- The fields that the ids live in.
abbrev pub pool_of : Manager → List ℕ → Pool
pool_of m bitmap = record {
  timer_fd_bitmap = bitmap;
  timer_fd_min_free = m.timer_fd_min_free;
  timer_max_num = m.timer_max_num;
}

abbrev pub with_pool : Manager → Pool → Manager
with_pool m p = record m {
  timer_fd_bitmap = live p.timer_fd_bitmap;
  timer_fd_min_free = p.timer_fd_min_free;
  timer_max_num = p.timer_max_num;
}

abbrev pub contents : {A : Type 0} → Block A → Option A
contents unset = none
contents (live a) = some a
contents dangling = none

unfoldable pub on_pool : {A : Type 0} → Cmd Pool A → Op A
on_pool c w = elim w.man.timer_fd_bitmap [
  | unset ↦ fault
  | live b ↦ resume (c (pool_of w.man b)) λ p. record w { man = with_pool w.man p }
  | dangling ↦ fault
]

-- `p->data[i]`, its list head, and a change of its count.
unfoldable pub load_slots : Op Slots
load_slots w = deref (contents w.man.slots) w

unfoldable pub load_node : ℕ → Op TimerNode
unfolding load_slots
load_node i = do s ← load_slots; deref (get_elem? s.nodes i)

unfoldable pub head_of : ℕ → Op Ptr
unfolding load_slots
head_of i = do s ← load_slots; x ← deref (get_elem? s.nodes i); ok (s.base + i)

unfoldable pub store_node : ℕ → TimerNode → Op (Unit {0})
unfolding load_slots
store_node i x = do
  s ← load_slots
  old ← deref (get_elem? s.nodes i)
  modify λ m. record m { slots = live (record s { nodes = set s.nodes i x }) }

unfoldable pub change_count : (ℕ → ℕ) → ℕ → Op (Unit {0})
unfolding load_node store_node
change_count f i = do x ← load_node i; store_node i (record x { timer_cnt = f x.timer_cnt })

-- `*t`, undefined at NULL and where no live block stands.
unfoldable pub load_timer : Ptr → Op TimerInternal
load_timer t w = deref (if t == null then none else w.timers t) w

unfoldable pub store_timer : Ptr → TimerInternal → Op (Unit {0})
unfolding load_timer
store_timer t x = do
  old ← load_timer t
  λ w. ok tt (record w { timers = write w.timers t (some x) })

-- A successful `malloc` of a timer: the block is live, with its list head.
abbrev pub allocate : Ptr → TimerInternal → Op (Unit {0})
allocate t x w = ok tt (record w {
  timers = write w.timers t (some x);
  links = write w.links t (some (record { next = null; prev = null }));
})

unfoldable pub free_timer : Ptr → Op (Unit {0})
unfolding load_timer
free_timer t = do
  old ← load_timer t
  λ w. ok tt (record w { timers = write w.timers t none; links = write w.links t none })

-- `free` of a parameter block does nothing at NULL.
unfoldable pub free_param : Ptr → Op (Unit {0})
free_param b w = if b == null then ok tt w else elim (w.params b) [
  | none ↦ fault
  | some _ ↦ ok tt (record w { params = write w.params b none })
]

-- `if(temp->param_len != 0) free(temp->param)` and `free(temp)`.
unfoldable pub release_timer : Ptr → Op (Unit {0})
unfolding load_timer free_param free_timer
release_timer temp = do
  x ← load_timer temp
  if x.param_len == 0 then ok tt else free_param x.param
  free_timer temp

-- The list heads of an array of `n` nodes.
abbrev pub in_array : Ptr → ℕ → Ptr → Bool
in_array base n a = leb base a && ltb a (base + n)

abbrev pub set_heads : Ptr → ℕ → Option Links → Op (Unit {0})
set_heads base n l w = ok tt (record w { links = λ a. if in_array base n a then l else w.links a })
