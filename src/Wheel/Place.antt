-- ===== src/Wheel/Place.antt =====
-- Steps of `ti_add` and `del_and_add` that keep the wheel: a timer comes to a list, a count changes,
-- a timer is written.
use simple_timer.Prelude.{
  ℕ, zero, suc, [], ◌+◌, ◌<◌, ◌≡◌, ◌≢◌, refl, ◌∙◌, sym, ap, inl, inr, true, false, Option, some,
  List, ◌∷◌, arith, ◌==◌, Bool-cases, eqb→eq, eqb→ne,
}
use mathlib.Core.Option.{some-injective}
use simple_timer.Prelude.Arrays.{length, get_elem?, set, get_elem?-some}
use simple_timer.Machine.{ok}
use simple_timer.Api.{Ptr}
use simple_timer.LinkedList.{Memory}
use simple_timer.LinkedList.Ring.{has}
use simple_timer.LinkedList.Frame.{IsRing-frame}
use simple_timer.Wheel.State.{live, write, TimerInternal, TimerNode, Slots, World, change_count}
use simple_timer.Wheel.Timers.{enlist}
use simple_timer.Wheel.Heads.{with_nodes, load_node-ok, store_node-ok}
use simple_timer.Wheel.Enlist.{interval_of, IsTimer, enlist-Enlisted}
use simple_timer.Wheel.Abstract.{Rota, with_timer, IsWheel, IsOff, has-enlisted}

module _ (w : World) (s : Slots) (on : Rota) (slot : ℕ) (t : Ptr) (v : IsWheel w s on)
    (inside : slot < w.man.slot_num) (new : IsOff w s on t) (kt : IsTimer w t) where
  has-with_timer :
      (j : ℕ) (a : Ptr)
      → has a (with_timer (interval_of w) slot t on j) ≡ true
      → (a ≢ t → has a (on j) ≡ true)
  has-with_timer j a h other = ground (arith, h, has-enlisted (interval_of w) t a (on j))

  out-with_timer :
      (j : ℕ) (a : Ptr)
      → a ≢ t
      → has a ((s.base + j) ∷ on j) ≡ false
      → has a ((s.base + j) ∷ with_timer (interval_of w) slot t on j) ≡ false
  out-with_timer j a other h = ground (arith, has-enlisted (interval_of w) t a (on j))

  alone_there :
      (j : ℕ)
      → j < w.man.slot_num
      → j ≢ slot
      → has t ((s.base + j) ∷ with_timer (interval_of w) slot t on j) ≡ false
  alone_there j l other = ground (arith, new.off j)

  apart-with_timer :
      (i j : ℕ)
      → i < w.man.slot_num
      → j < w.man.slot_num
      → i ≢ j
      → (a : Ptr) → has a ((s.base + i) ∷ with_timer (interval_of w) slot t on i) ≡ true
      → has a ((s.base + j) ∷ with_timer (interval_of w) slot t on j) ≡ false
  apart-with_timer i j li lj ne a h = elim (Bool-cases (a == t)) [
    | inl same ↦ elim (Bool-cases (j == slot)) [
      | inl here ↦ absurd (ground (arith, alone_there i li, eqb→eq a t same, eqb→eq j slot here))
      | inr there ↦
          ap (λ (b : Ptr). has b ((s.base + j) ∷ with_timer (interval_of w) slot t on j))
            (eqb→eq a t same)
          ∙ alone_there j lj (eqb→ne j slot there)
    ]
    | inr other ↦
        let na = eqb→ne a t other in
        out-with_timer j a na (v.apart i j li lj ne a (ground (arith, has-with_timer i a, na)))
  ]

  -- A timer comes to the list of its slot.
  pub IsWheel-enlist :
      (m' : Memory) × (enlist (s.base + slot) t w ≡ ok tt (record w { links = m' }))
      × IsWheel (record w { links = m' }) s (with_timer (interval_of w) slot t on)
  IsWheel-enlist =
      let zs = on slot in
      let (m', run, c) =
        enlist-Enlisted w (s.base + slot) t zs (v.ring slot inside)
          (record { fresh = new.off slot inside; live = new.live }) kt (v.known slot inside) in
      (
        m',
        run,
        record {
          held = v.held;
          size = v.size;
          ring = λ j l. elim (Bool-cases (j == slot)) [
            | inl same ↦ rw (eqb→eq j slot same) (ground (arith, c.ring))
            | inr other ↦
                let ne = eqb→ne j slot other in
                rw other (
                  IsRing-frame (s.base + j) (on j)
                    (λ a h.
                      c.outside a (ground (arith, h, new.off j l, v.apart j slot l inside ne a h)))
                    (v.ring j l))
          ];
          apart = apart-with_timer;
          known = λ j l a h. elim (Bool-cases (a == t)) [
            | inl same ↦ record {
              place = rw (eqb→eq a t same) kt.place;
              value = kt.value;
              stands = rw (eqb→eq a t same) kt.stands;
            }
            | inr other ↦
                let k = v.known j l a (has-with_timer j a h (eqb→ne a t other)) in
                record { place = k.place; value = k.value; stands = k.stands }
          ];
        },
      )

-- The nodes with another count at slot `i`.
abbrev pub counted : (ℕ → ℕ) → ℕ → List TimerNode → List TimerNode
counted f i [] = []
counted f zero (x ∷ xs) = record x { timer_cnt = f x.timer_cnt } ∷ xs
counted f (suc i) (x ∷ xs) = x ∷ counted f i xs

-- A world with other links, other nodes and other timers.
abbrev pub changed : World → Slots → Memory → List TimerNode → (Ptr → Option TimerInternal) → World
changed w s memory nodes timers = record w {
  man = record (w.man) { slots = live (record s { nodes = nodes }) };
  links = memory;
  timers = timers;
}

length-counted :
    (f : ℕ → ℕ) (i : ℕ) (nodes : List TimerNode) → length (counted f i nodes) ≡ length nodes
length-counted f i [] = refl
length-counted f zero (x ∷ xs) = refl
length-counted f (suc i) (x ∷ xs) = ap suc (length-counted f i xs)

set-counted :
    (f : ℕ → ℕ) (i : ℕ) (nodes : List TimerNode) (x : TimerNode)
    → get_elem? nodes i ≡ some x
    → set nodes i (record x { timer_cnt = f x.timer_cnt }) ≡ counted f i nodes
set-counted f i [] x e = cc
set-counted f zero (y ∷ ys) x e =
    ap (λ (n : TimerNode). record n { timer_cnt = f n.timer_cnt } ∷ ys) (sym (some-injective y x e))
set-counted f (suc i) (y ∷ ys) x e = ap (λ (zs : List TimerNode). y ∷ zs) (set-counted f i ys x e)

module _ (w : World) (s : Slots) (on : Rota) (v : IsWheel w s on) (i : ℕ)
    (inside : i < w.man.slot_num) where
  pub change_count-ok :
      (f : ℕ → ℕ) → change_count f i w ≡ ok tt (with_nodes w s v.held (counted f i s.nodes))
  unfolding change_count
  change_count-ok f =
      let (x, here) = get_elem?-some s.nodes i (omega (arith, v.size)) in
      rw (
        load_node-ok w s v.held i x here,
        store_node-ok w s v.held i x here,
        set-counted f i s.nodes x here,
      )

  pub IsWheel-counted :
      (f : ℕ → ℕ)
      → IsWheel
          (with_nodes w s v.held (counted f i s.nodes))
          (record s { nodes = counted f i s.nodes })
          on
  IsWheel-counted f = record {
    held = refl;
    size = length-counted f i s.nodes ∙ v.size;
    ring = v.ring;
    apart = v.apart;
    known = λ j l a h.
        let k = v.known j l a h in record { place = k.place; value = k.value; stands = k.stands };
  }

module _ (w : World) (s : Slots) (on : Rota) (v : IsWheel w s on) (t : Ptr) (k : IsTimer w t) where
  -- The world with another value at `t`.
  abbrev pub with_value : TimerInternal → World
  with_value x = record w { timers = write w.timers t (some x) }

  pub IsTimer-value : (x : TimerInternal) → IsTimer (with_value x) t
  IsTimer-value x = record { place = k.place; value = x; stands = ground arith }

  pub IsWheel-value : (x : TimerInternal) → IsWheel (with_value x) s on
  IsWheel-value x = record {
    held = v.held;
    size = v.size;
    ring = v.ring;
    apart = v.apart;
    known = λ j l a h. elim (Bool-cases (a == t)) [
      | inl same ↦ record { place = rw (eqb→eq a t same) k.place; value = x; stands = rw same refl }
      | inr other ↦
          let o = v.known j l a h in
          record { place = o.place; value = o.value; stands = rw other o.stands }
    ];
  }
