-- ===== src/LinkedList.antt =====
-- src/list.h: circular doubly linked lists, as in the Linux kernel, over an explicit memory. A
-- `struct list_head *` is an address, and a list is known by the address of its head.
mod Tests
pub mod Ring
pub mod Insert
pub mod Remove
pub mod Frame
use simple_timer.Prelude.{ℕ, Bool, ◌&&◌, Option, none, some, ◌==◌, if◌then◌else◌}
use simple_timer.Machine.{Run, Cmd, pure, deref, ◌>>=◌, ◌>>◌}
use simple_timer.Api.{Ptr}

pub record Links : Type 0 where
  pub next : Ptr
  pub prev : Ptr

-- `none` where no live `struct list_head` stands.
abbrev pub Memory : Type 0
Memory = Ptr → Option Links

abbrev pub Act : Type 0 → Type 0
Act = Cmd Memory

abbrev pub poison_1 : Ptr
poison_1 = 0x00100100

abbrev pub poison_2 : Ptr
poison_2 = 0x00200200

unfoldable pub load : Ptr → Act Links
load p m = deref (m p) m

unfoldable pub store : Ptr → Links → Act (Unit {0})
store p l m = Run.ok tt λ a. if a == p then some l else m a

-- `p->next = q` and `p->prev = q`.
unfoldable pub set_next : Ptr → Ptr → Act (Unit {0})
unfolding load store
set_next p q = do l ← load p; store p (record l { next = q })

unfoldable pub set_prev : Ptr → Ptr → Act (Unit {0})
unfolding load store
set_prev p q = do l ← load p; store p (record l { prev = q })

unfoldable pub init_list_head : Ptr → Act (Unit {0})
init_list_head list = do set_next list list; set_prev list list

-- `__list_add`.
unfoldable pub add_between : (new prev next : Ptr) → Act (Unit {0})
add_between new prev next = do
  set_prev next new
  set_next new next
  set_prev new prev
  set_next prev new

unfoldable pub list_add : (new head : Ptr) → Act (Unit {0})
unfolding add_between
list_add new head = do h ← load head; add_between new head h.next

unfoldable pub list_add_tail : (new head : Ptr) → Act (Unit {0})
unfolding add_between
list_add_tail new head = do h ← load head; add_between new h.prev head

unfoldable pub list_exchange : (list_1 list_2 : Ptr) → Act (Unit {0})
list_exchange list_1 list_2 = do
  a ← load list_1
  set_next a.prev list_2
  b ← load list_1
  set_prev b.next list_2
  c ← load list_2
  set_next c.prev list_1
  d ← load list_2
  set_prev d.next list_1
  kept ← load list_1
  e ← load list_2
  set_prev list_1 e.prev
  f ← load list_2
  set_next list_1 f.next
  set_prev list_2 kept.prev
  set_next list_2 kept.next

-- `__list_del`.
unfoldable pub join : (prev next : Ptr) → Act (Unit {0})
join prev next = do set_prev next prev; set_next prev next

unfoldable pub list_del : Ptr → Act (Unit {0})
unfolding join
list_del entry = do
  e ← load entry
  join e.prev e.next
  set_next entry poison_1
  set_prev entry poison_2

unfoldable pub list_replace : (old new : Ptr) → Act (Unit {0})
list_replace old new = do
  a ← load old
  set_next new a.next
  b ← load new
  set_prev b.next new
  c ← load old
  set_prev new c.prev
  d ← load new
  set_next d.prev new

unfoldable pub list_replace_init : (old new : Ptr) → Act (Unit {0})
unfolding list_replace init_list_head
list_replace_init old new = do list_replace old new; init_list_head old

unfoldable pub list_del_init : Ptr → Act (Unit {0})
unfolding join init_list_head
list_del_init entry = do e ← load entry; join e.prev e.next; init_list_head entry

unfoldable pub list_move : (list head : Ptr) → Act (Unit {0})
unfolding join list_add
list_move list head = do l ← load list; join l.prev l.next; list_add list head

unfoldable pub list_move_tail : (list head : Ptr) → Act (Unit {0})
unfolding join list_add_tail
list_move_tail list head = do l ← load list; join l.prev l.next; list_add_tail list head

unfoldable pub list_is_last : (list head : Ptr) → Act Bool
list_is_last list head = do l ← load list; pure (l.next == head)

unfoldable pub list_empty : Ptr → Act Bool
list_empty head = do h ← load head; pure (h.next == head)

unfoldable pub list_empty_careful : Ptr → Act Bool
list_empty_careful head = do h ← load head; pure (h.next == head && h.next == h.prev)

-- `__list_splice`.
unfoldable pub splice_behind : (list head : Ptr) → Act (Unit {0})
splice_behind list head = do
  l ← load list
  h ← load head
  set_prev l.next head
  set_next head l.next
  set_next l.prev h.next
  set_prev h.next l.prev

unfoldable pub list_splice : (list head : Ptr) → Act (Unit {0})
unfolding list_empty splice_behind
list_splice list head = do
  empty ← list_empty list
  if empty then pure tt else splice_behind list head

unfoldable pub list_splice_init : (list head : Ptr) → Act (Unit {0})
unfolding list_empty splice_behind init_list_head
list_splice_init list head = do
  empty ← list_empty list
  if empty then pure tt else do splice_behind list head; init_list_head list
