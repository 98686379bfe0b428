-- ===== src/Wheel/Timers.antt =====
-- `check_timer`, `ti_add` and `del_and_add` of src/timer.c. What `malloc` returns is an argument, and
-- so is the fuel of the loops of the tree.
use simple_timer.Prelude.{
  ℕ, ◌-◌, ◌*◌, ◌/◌, ◌%◌, ◌^◌, Bool, true, false, ◌&&◌, ◌||◌, not, Option, none, some, List, ◌==◌,
  if◌then◌else◌, ltb, leb,
}
use simple_timer.Prelude.Arrays.{length, take}
use simple_timer.Machine.{ok, fault, pure, ◌>>=◌, ◌>>◌}
use simple_timer.Api.{Ptr, null, Timer, TimerBool, timer_true, timer_false}
use simple_timer.LinkedList.{load, init_list_head, list_add, list_add_tail, list_del}
use simple_timer.RbTree.{insert}
use simple_timer.IdPool.{timer_id_pop}
use simple_timer.Wheel.State.{
  add_uint, inc, dec, TimerInternal, Manager, Op, write, manager, modify, wrlock, unlock, on_links,
  on_tree, on_pool, head_of, change_count, load_timer, store_timer, allocate, free_timer,
}

-- `conf->param == NULL` is `none`.
abbrev pub given : Option (List ℕ) → Bool
given none = false
given (some bytes) = true

unfoldable pub check_timer : Manager → Timer → TimerBool
check_timer m conf =
    if ltb conf.interval m.time_slot
    then timer_false
    else if conf.cb == null
    then timer_false
    else if (not (given conf.param) && not (conf.param_len == 0))
        || (given conf.param && conf.param_len == 0)
    then timer_false
    else timer_true

-- Division of `unsigned int`s, undefined by 0.
abbrev pub div : ℕ → ℕ → Op ℕ
div a b = if b == 0 then (λ _. fault) else pure (a / b)

abbrev pub rem : ℕ → ℕ → Op ℕ
rem a b = if b == 0 then (λ _. fault) else pure (a % b)

-- `(cur_slot + interval / time_slot) % slot_num`.
unfoldable pub index_of : ℕ → Op ℕ
index_of interval = do
  m ← manager
  d ← div interval m.time_slot
  rem (add_uint m.cur_slot d) m.slot_num

-- `interval / (time_slot * slot_num)`.
unfoldable pub round_of : ℕ → Op ℕ
round_of interval = do m ← manager; div interval (m.time_slot * m.slot_num % 2 ^ 32)

-- The end of the list, or its front if the first timer has a longer interval.
unfoldable pub enlist : (header t : Ptr) → Op (Unit {0})
unfolding load_timer
enlist header t = do
  h ← on_links (load header)
  if h.next == header then on_links (list_add t header) else do
    temp ← load_timer h.next
    x ← load_timer t
    if ltb x.interval temp.interval
        then on_links (list_add t header)
        else on_links (list_add_tail t header)

-- What the system gives one call of `ti_add`: the results of `malloc` for the timer, its parameter
-- and its node of the tree, and the fuel of the tree's loops.
pub record AddEnv : Type 0 where
  pub node : Ptr
  pub block : Ptr
  pub tree_node : Ptr
  pub fuel : ℕ

abbrev pub copied : Timer → Ptr → TimerInternal
copied timer b = record {
  kind = timer.kind;
  run_type = timer.run_type;
  interval = timer.interval;
  cb = timer.cb;
  param = b;
  param_len = timer.param_len;
  id = 0;
  round = 0;
}

-- `malloc(t->param_len)` and `memcpy` of as many bytes from the caller's buffer.
unfoldable pub copy_param : Ptr → Timer → Op (Unit {0})
copy_param b timer w =
    if timer.param_len == 0
    then ok tt (record w { params = write w.params b (some List.[]) })
    else elim timer.param [
      | none ↦ fault
      | some bytes ↦
          if ltb (length bytes) timer.param_len
          then fault
          else ok tt (record w { params = write w.params b (some (take timer.param_len bytes)) })
    ]

-- `t->id`, `t->round` and `t->list` of a new timer.
unfoldable pub number : ℕ → Ptr → Op (Unit {0})
unfolding load_timer store_timer on_pool round_of
number interval t = do
  id ← on_pool timer_id_pop
  round ← round_of interval
  x ← load_timer t
  store_timer t (record x { id = id; round = round })
  on_links (init_list_head t)

-- The end of `ti_add`, behind the list. `none` is the exit of the process in `rb_new_node`.
unfoldable pub enter : AddEnv → ℕ → Ptr → Op (Option ℕ)
unfolding load_timer change_count unlock
enter env index t = do
  x ← load_timer t
  m ← manager
  top ← on_tree (insert env.tree_node env.fuel x.id t m.rb_root)
  elim top [
    | none ↦ pure none
    | some root ↦ (do
      modify λ m. record m { rb_root = root }
      change_count inc index
      modify λ m. record m { cur_timer_num = inc m.cur_timer_num }
      unlock
      pure (some x.id))
  ]

-- `ti_add` behind its checks.
unfoldable pub add_checked : AddEnv → Timer → Op (Option ℕ)
unfolding index_of enlist copy_param number enter head_of unlock free_timer
add_checked env timer = do
  index ← index_of timer.interval
  header ← head_of index
  if env.node == null then (do unlock; pure (some 0)) else do
    allocate env.node (copied timer env.block)
    if env.block == null then (do unlock; free_timer env.node; pure (some 0)) else do
      copy_param env.block timer
      number timer.interval env.node
      enlist header env.node
      enter env index env.node

-- TIMER_FALSE as a `timer_id` is 2^32 - 1.
unfoldable pub add : AddEnv → Ptr → Timer → Op (Option ℕ)
unfolding check_timer add_checked wrlock unlock
add env this timer = if this == null then pure (some (2 ^ 32 - 1)) else do
  wrlock
  m ← manager
  if m.init_flag == 0
      then (do unlock; pure (some 0))
      else if m.enable_flag == 0
      then (do unlock; pure (some 0))
      else if leb m.timer_max_num m.cur_timer_num
      then (do unlock; pure (some 0))
      else elim (check_timer m timer) [
        | timer_false ↦ (do unlock; pure (some 0))
        | timer_true ↦ add_checked env timer
      ]

-- The middle of `del_and_add`: `slot` is the slot of `node`.
unfoldable pub move_timer : (timer : Ptr) (slot : ℕ) → Op (Unit {0})
unfolding index_of round_of enlist head_of change_count load_timer store_timer
move_timer timer slot = do
  on_links (list_del timer)
  change_count dec slot
  x ← load_timer timer
  index ← index_of x.interval
  header ← head_of index
  round ← round_of x.interval
  store_timer timer (record x { round = round })
  enlist header timer
  change_count inc index

unfoldable pub del_and_add : (this timer : Ptr) (slot : ℕ) → Op TimerBool
unfolding move_timer wrlock unlock
del_and_add this timer slot = if this == null then pure timer_false else do
  wrlock
  m ← manager
  if m.init_flag == 0
      then (do unlock; pure timer_false)
      else if leb m.timer_max_num m.cur_timer_num
      then (do unlock; pure timer_false)
      else (do move_timer timer slot; unlock; pure timer_true)
