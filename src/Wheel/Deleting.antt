-- ===== src/Wheel/Deleting.antt =====
-- `ti_del(0)` on a wheel that has a timer.
use simple_timer.Prelude.{
  ℕ, ◌+◌, ◌≤◌, Bool, ◌||◌, zero, suc, ◌<◌, ◌≡◌, ◌≢◌, ◌⊎◌, refl, ◌∙◌, sym, ap, inl, inr, true, false,
  none, some, List, [], ◌∷◌, arith, ◌==◌, ne→eqb, Bool-cases,
}
use simple_timer.Prelude.Arrays.{get_elem?, get_elem?-some}
use simple_timer.Machine.{fault}
use simple_timer.Machine.Locks.{RwLock}
use simple_timer.Api.{Ptr, null}
use simple_timer.LinkedList.Ring.{IsRing}
use simple_timer.Wheel.State.{Slots, TimerNode, set_lock, wrlock, World}
use simple_timer.Wheel.Deletion.{del_slots, del_all, del}
use simple_timer.Wheel.Abstract.{Rota, IsWheel, IsWheel-lock}
use simple_timer.Wheel.Heads.{head_of-ok, load_node-ok}
use simple_timer.Wheel.Draining.{drain-empty, drain-fault}

-- A slot with timers counts some, and no list head is a timer.
pub record Counts (w : World) (s : Slots) (on : Rota) : Type 0 where
  pub some_counted :
      (j : ℕ)
      → j < w.man.slot_num
      → on j ≢ []
      → (x : TimerNode) × (get_elem? s.nodes j ≡ some x) × (x.timer_cnt ≢ 0)
  pub plain : (j : ℕ) → j < w.man.slot_num → w.timers (s.base + j) ≡ none

List-cases : (xs : List Ptr) → (xs ≡ []) ⊎ ((x : Ptr) × (ys : List Ptr) × (xs ≡ x ∷ ys))
List-cases [] = inl refl
List-cases (x ∷ ys) = inr (x, ys, refl)

module _ (w : World) (s : Slots) (on : Rota) (v : IsWheel w s on) (c : Counts w s on) (k cnt : ℕ)
    (here : cnt < w.man.slot_num) (rounds : ℕ) (stat : Bool) where
  del_slots-full :
      (x : Ptr) (xs : List Ptr)
      → on cnt ≡ x ∷ xs
      → del_slots (suc (suc k)) (suc rounds) cnt stat w ≡ fault
  unfolding del_slots
  del_slots-full x xs e =
      let (node, there, many) = c.some_counted cnt here (λ none_there. cc) in
      rw (
        load_node-ok w s v.held cnt node there,
        head_of-ok w s v.held cnt node there,
        ne→eqb node.timer_cnt 0 many,
        drain-fault k (s.base + cnt) x xs w (rw (sym e) (v.ring cnt here)) (c.plain cnt here),
      )

  del_slots-empty :
      on cnt ≡ []
      → (stat' : Bool) × (del_slots (suc (suc k)) (suc rounds) cnt stat w
          ≡ del_slots (suc (suc k)) rounds (cnt + 1) stat' w)
  unfolding del_slots
  del_slots-empty e =
      let (node, there) = get_elem?-some s.nodes cnt (omega (arith, v.size)) in
      let ring : IsRing w.links (s.base + cnt) [] = rw (sym e) (v.ring cnt here) in
      elim (Bool-cases (node.timer_cnt == 0)) [
        | inl zero_count ↦ (
          stat || false,
          rw (
            load_node-ok w s v.held cnt node there,
            head_of-ok w s v.held cnt node there,
            zero_count,
          ),
        )
        | inr counted ↦ (
          stat || true,
          rw (
            load_node-ok w s v.held cnt node there,
            head_of-ok w s v.held cnt node there,
            counted,
            drain-empty (suc k) (s.base + cnt) w ring,
          ),
        )
      ]

-- The loop over the slots comes to a list that is not empty.
del_slots-fault :
    (k rounds cnt i : ℕ) (stat : Bool) (w : World) (s : Slots) (on : Rota)
    → IsWheel w s on
    → Counts w s on
    → cnt + rounds ≡ w.man.slot_num
    → cnt ≤ i
    → i < w.man.slot_num
    → on i ≢ []
    → del_slots (suc (suc k)) rounds cnt stat w ≡ fault
del_slots-fault k zero cnt i stat w s on v c all low inside full = absurd (omega arith)
del_slots-fault k (suc rounds) cnt i stat w s on v c all low inside full =
    elim (List-cases (on cnt)) [
      | inl empty ↦
          let other : cnt ≢ i = λ e. full (ap on (sym e) ∙ empty) in
          let (stat', run) = del_slots-empty w s on v c k cnt (omega arith) rounds stat empty in
          run
          ∙ del_slots-fault k rounds (cnt + 1) i stat' w s on v c (omega arith) (omega arith) inside
              full
      | inr (x, xs, e) ↦ del_slots-full w s on v c k cnt (omega arith) rounds stat x xs e
    ]

-- With no lock held, on a wheel where each slot with timers counts some and no list head is a
-- timer, with fuel for two rounds or more, `ti_del(0)` faults as soon as some slot has a timer.
pub del-fault :
    (k : ℕ) (this : Ptr) (w : World) (s : Slots) (on : Rota) (i : ℕ)
    → this ≢ null
    → w.man.lock ≡ RwLock.free
    → IsWheel w s on
    → Counts w s on
    → i < w.man.slot_num
    → on i ≢ []
    → del (suc (suc k)) this 0 w ≡ fault
unfolding del del_all wrlock
del-fault k this w s on i here idle v c inside full =
    let w0 = set_lock w RwLock.exclusive in
    let c0 : Counts w0 s on = record { some_counted = c.some_counted; plain = c.plain } in
    rw (
      ne→eqb this null here,
      idle,
      del_slots-fault k w.man.slot_num 0 i false w0 s on (IsWheel-lock RwLock.exclusive v) c0
          (omega arith) (omega arith) inside full,
    )
