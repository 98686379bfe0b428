-- ===== src/Wheel/Heads.antt =====
-- The loop of `ti_init` over the nodes: it empties every list.
use simple_timer.Prelude.{ℕ, zero, suc, ◌+◌, ◌<◌, ◌≤◌, ◌≡◌, refl, ◌∙◌, ap, true, List, some, arith}
use simple_timer.Prelude.Arrays.{length, get_elem?, set, get_elem?-set, length-set}
use simple_timer.Machine.{ok}
use simple_timer.Api.{Ptr}
use simple_timer.LinkedList.{Links, Memory, init_list_head}
use simple_timer.LinkedList.Ring.{links, is_live}
use simple_timer.LinkedList.Insert.{put, set_next-ok, set_prev-ok}
use simple_timer.Wheel.State.{
  Block, live, TimerNode, Slots, World, load_slots, load_node, store_node, head_of,
}
use simple_timer.Wheel.Lifecycle.{init_heads}

-- A list of its own, without entries.
abbrev pub alone : Ptr → Links
alone p = record { next = p; prev = p }

abbrev pub emptied : Memory → Ptr → Memory
emptied m p = put m p (alone p)

pub init_list_head-ok :
    (m : Memory) (p : Ptr)
    → is_live (m p) ≡ true
    → (m' : Memory) × (init_list_head p m ≡ ok tt m') × ((a : Ptr) → m' a ≡ emptied m p a)
unfolding init_list_head
init_list_head-ok m p l =
    let m1 = put m p (record (links m p) { next = p }) in
    (
      put m1 p (record (links m1 p) { prev = p }),
      rw (set_next-ok m p p l, set_prev-ok m1 p p (ground arith)),
      λ a. ground arith,
    )

module _ (w : World) (s : Slots) (held : w.man.slots ≡ live s) where
  -- The world with this array of nodes.
  abbrev pub with_nodes : List TimerNode → World
  with_nodes ns = record w { man = record (w.man) { slots = live (record s { nodes = ns }) } }

  module _ (i : ℕ) (x : TimerNode) (here : get_elem? s.nodes i ≡ some x) where
    pub head_of-ok : head_of i w ≡ ok (s.base + i) w
    unfolding head_of load_slots
    head_of-ok = rw (held, here)

    pub load_node-ok : load_node i w ≡ ok x w
    unfolding load_node load_slots
    load_node-ok = rw (held, here)

    pub store_node-ok : (y : TimerNode) → store_node i y w ≡ ok tt (with_nodes (set s.nodes i y))
    unfolding store_node load_slots
    store_node-ok y = rw (held, here)

-- The nodes from `i` on have been numbered, and their lists emptied.
pub record Headed (i r : ℕ) (w : World) (s : Slots) (w' : World) : Type 0 where
  pub nodes : List TimerNode
  pub memory : Memory
  pub world : w' ≡ record w {
    man = record (w.man) { slots = live (record s { nodes = nodes }) };
    links = memory;
  }
  pub size : length nodes ≡ length s.nodes
  pub node :
      (j : ℕ) → i ≤ j → j < i + r → get_elem? nodes j ≡ some (record { slot_id = j; timer_cnt = 0 })
  pub below : (j : ℕ) → j < i → get_elem? nodes j ≡ get_elem? s.nodes j
  pub ring : (j : ℕ) → i ≤ j → j < i + r → memory (s.base + j) ≡ some (alone (s.base + j))
  pub rest : (j : ℕ) → j < i → memory (s.base + j) ≡ w.links (s.base + j)

-- The nodes from `i` on are as `malloc` and the loop so far have left them.
pub record Fresh (i r : ℕ) (w : World) (s : Slots) : Type 0 where
  pub held : w.man.slots ≡ live s
  pub size : length s.nodes ≡ i + r
  pub node :
      (j : ℕ)
      → i ≤ j
      → j < i + r
      → get_elem? s.nodes j ≡ some (record { slot_id = 0; timer_cnt = 0 })
  pub live : (j : ℕ) → i ≤ j → j < i + r → is_live (w.links (s.base + j)) ≡ true

init_heads-next :
    (r i : ℕ) (w : World) (s : Slots) (m : Memory)
    → Fresh i (suc r) w s
    → init_list_head (s.base + i) w.links ≡ ok tt m
    → init_heads (suc r) i w
      ≡ init_heads r (i + 1) (record w {
        man = record (w.man) {
          slots = live (record s { nodes = set s.nodes i (record { slot_id = i; timer_cnt = 0 }) });
        };
        links = m;
      })
unfolding init_heads
init_heads-next r i w s m f run =
    let x : TimerNode = record { slot_id = 0; timer_cnt = 0 } in
    let here = f.node i (omega arith) (omega arith) in
    let w1 : World = record w { links = m } in
    rw (
      head_of-ok w s f.held i x here,
      run,
      load_node-ok w1 s f.held i x here,
      store_node-ok w1 s f.held i x here (record { slot_id = i; timer_cnt = 0 }),
    )

pub init_heads-Headed :
    (r i : ℕ) (w : World) (s : Slots)
    → Fresh i r w s
    → (w' : World) × (init_heads r i w ≡ ok tt w') × Headed i r w s w'
unfolding init_heads
init_heads-Headed zero i w s f = (
  w,
  refl,
  record {
    nodes = s.nodes;
    memory = w.links;
    world = ap (λ (b : Block Slots). record w { man = record (w.man) { slots = b } }) f.held;
    size = refl;
    node = λ j a b. absurd (omega arith);
    below = λ j h. refl;
    ring = λ j a b. absurd (omega arith);
    rest = λ j h. refl;
  },
)
init_heads-Headed (suc r) i w s f =
    let (m, run, at) =
      init_list_head-ok w.links (s.base + i) (f.live i (omega arith) (omega arith)) in
    let y : TimerNode = record { slot_id = i; timer_cnt = 0 } in
    let s1 : Slots = record s { nodes = set s.nodes i y } in
    let w1 : World = record w { man = record (w.man) { slots = live s1 }; links = m } in
    let f1 : Fresh (i + 1) r w1 s1 = record {
      held = refl;
      size = ground (arith, length-set s.nodes i y, f.size);
      node = λ j a b. ground (arith, get_elem?-set s.nodes i y j, f.size, f.node j);
      live = λ j a b. ground (arith, at (s.base + j), f.live j);
    } in
    let (w', done, h) = init_heads-Headed r (i + 1) w1 s1 f1 in
    (
      w',
      init_heads-next r i w s m f run ∙ done,
      record {
        nodes = h.nodes;
        memory = h.memory;
        world = h.world;
        size = h.size ∙ length-set s.nodes i y;
        node = λ j a b. ground (arith, get_elem?-set s.nodes i y j, f.size, h.below j, h.node j);
        below = λ j l. ground (arith, get_elem?-set s.nodes i y j, f.size, h.below j);
        ring = λ j a b. ground (arith, h.rest j, h.ring j, at (s.base + j));
        rest = λ j l. ground (arith, h.rest j, at (s.base + j));
      },
    )
