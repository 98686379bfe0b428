-- ===== src/Wheel/Deletion.antt =====
-- `ti_del` of src/timer.c, of one timer and of all. The fuel of its loops and of those of the tree is
-- an argument.
use simple_timer.Prelude.{ℕ, zero, suc, ◌+◌, Bool, false, ◌||◌, not, ◌==◌, if◌then◌else◌}
use simple_timer.Machine.{out_of_fuel, pure, ◌>>=◌, ◌>>◌}
use simple_timer.Api.{Ptr, null, TimerBool, timer_true, timer_false}
use simple_timer.LinkedList.{load, list_del, list_empty}
use simple_timer.RbTree
use simple_timer.RbTree.{insert, search}
use simple_timer.RbTree.Erase.{erase}
use simple_timer.IdPool.{timer_id_push}
use simple_timer.Wheel.State.{
  dec, Op, manager, modify, wrlock, unlock, on_links, on_tree, on_pool, load_node, head_of,
  release_timer,
}

-- The inner loop of `ti_del(0)`: `list_del(header->next)`, and then `header->next` once more.
unfoldable pub drain : (fuel : ℕ) (header : Ptr) → Op (Unit {0})
unfolding release_timer
drain zero header = λ _. out_of_fuel
drain (suc k) header = do
  empty ← on_links (list_empty header)
  if empty then pure tt else do
    h ← on_links (load header)
    on_links (list_del h.next)
    h ← on_links (load header)
    release_timer h.next
    drain k header

-- The outer loop from slot `cnt` on, of which `rounds` are left, with its `stat`.
unfoldable pub del_slots : (fuel rounds cnt : ℕ) (stat : Bool) → Op Bool
unfolding load_node head_of drain
del_slots fuel zero cnt stat = pure stat
del_slots fuel (suc rounds) cnt stat = do
  x ← load_node cnt
  header ← head_of cnt
  if x.timer_cnt == 0 then pure tt else drain fuel header
  del_slots fuel rounds (cnt + 1) (stat || not (x.timer_cnt == 0))

-- `ti_del(0)`, under the lock.
unfoldable pub del_all : (fuel : ℕ) → Op TimerBool
unfolding del_slots unlock
del_all fuel = do
  m ← manager
  stat ← del_slots fuel m.slot_num 0 false
  modify λ m. record m { cur_timer_num = 0 }
  unlock
  pure (if stat then timer_true else timer_false)

-- `ti_del` of a node that `rb_search` has found.
unfoldable pub del_found : (fuel id : ℕ) (node : Ptr) → Op TimerBool
unfolding release_timer on_pool unlock RbTree.load
del_found fuel id node = do
  n ← on_tree (RbTree.load node)
  on_links (list_del n.datum)
  release_timer n.datum
  on_pool (timer_id_push id)
  modify λ m. record m { cur_timer_num = dec m.cur_timer_num }
  m ← manager
  top ← on_tree (erase fuel id m.rb_root)
  modify λ m. record m { rb_root = top }
  unlock
  pure timer_true

unfoldable pub del : (fuel : ℕ) (this : Ptr) (id : ℕ) → Op TimerBool
unfolding del_all del_found wrlock unlock
del fuel this id = if this == null then pure timer_false else do
  wrlock
  if id == 0 then del_all fuel else do
    m ← manager
    node ← on_tree (search fuel id m.rb_root)
    if node == null then (do unlock; pure timer_false) else del_found fuel id node
