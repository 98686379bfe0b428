-- ===== src/Wheel/Enlist.antt =====
-- The place of a timer on the list of its slot.
use simple_timer.Prelude.{
  ℕ, ◌≡◌, ◌≢◌, inl, inr, true, false, Option, none, some, List, [], ◌∷◌, ◌++◌, arith, ◌==◌,
  if◌then◌else◌, ltb, Bool-cases, ne→eqb,
}
use simple_timer.Machine.{ok}
use simple_timer.Api.{Ptr, null}
use simple_timer.LinkedList.{Memory, load, list_add, list_add_tail}
use simple_timer.LinkedList.Ring.{has, links, is_live, IsRing}
use simple_timer.LinkedList.Insert.{IsNew, list_add-Inserted, list_add_tail-Inserted}
use simple_timer.LinkedList.Frame.{Same, Same-add, Same-add_tail}
use simple_timer.Wheel.State.{TimerInternal, World, write, load_timer, store_timer}
use simple_timer.Wheel.Timers.{enlist}

abbrev pub interval_or : Option TimerInternal → ℕ
interval_or none = 0
interval_or (some x) = x.interval

abbrev pub interval_of : World → Ptr → ℕ
interval_of w t = interval_or (w.timers t)

-- A list with one timer more: at the front if the first timer has a longer interval.
abbrev pub enlisted : (Ptr → ℕ) → Ptr → List Ptr → List Ptr
enlisted f t [] = t ∷ []
enlisted f t (y ∷ ys) = if ltb (f t) (f y) then t ∷ y ∷ ys else y ∷ (ys ++ t ∷ [])

-- A live timer stands at `t`.
pub record IsTimer (w : World) (t : Ptr) : Type 0 where
  pub place : t ≢ null
  pub value : TimerInternal
  pub stands : w.timers t ≡ some value

pub load_timer-ok : (w : World) (t : Ptr) (k : IsTimer w t) → load_timer t w ≡ ok k.value w
unfolding load_timer
load_timer-ok w t k = rw (ne→eqb t null k.place, k.stands)

pub store_timer-ok :
    (w : World) (t : Ptr) (k : IsTimer w t) (x : TimerInternal)
    → store_timer t x w ≡ ok tt (record w { timers = write w.timers t (some x) })
unfolding store_timer
store_timer-ok w t k x = rw (load_timer-ok w t k)

pub load-ok : (m : Memory) (p : Ptr) → is_live (m p) ≡ true → load p m ≡ ok (links m p) m
unfolding load
load-ok m p l = ground arith

-- The list at `h` after `t` has come to it.
pub record Enlisted (w : World) (h t : Ptr) (zs : List Ptr) (m' : Memory) : Type 0 where
  pub ring : IsRing m' h (enlisted (interval_of w) t zs)
  pub outside : (a : Ptr) → has a (t ∷ h ∷ zs) ≡ false → Same w.links m' a

module _ (w : World) (h t : Ptr) (m' : Memory) where
  enlist-empty :
      IsRing w.links h []
      → list_add t h w.links ≡ ok tt m'
      → enlist h t w ≡ ok tt (record w { links = m' })
  unfolding enlist
  enlist-empty r run =
      let same : ((links w.links h).next == h) ≡ true = ground (arith, r.chain.0) in
      rw (load-ok w.links h (r.live h (ground arith)), same, run)

  module _ (y : Ptr) (ys : List Ptr) (r : IsRing w.links h (y ∷ ys)) (kt : IsTimer w t)
      (ky : IsTimer w y) where
    differs : ((links w.links h).next == h) ≡ false
    differs = ground (arith, r.chain.0, r.distinct.0)

    enlist-front :
        ltb kt.value.interval ky.value.interval ≡ true
        → list_add t h w.links ≡ ok tt m'
        → enlist h t w ≡ ok tt (record w { links = m' })
    unfolding enlist
    enlist-front less run = rw (
      load-ok w.links h (r.live h (ground arith)),
      differs,
      r.chain.0,
      load_timer-ok w y ky,
      load_timer-ok w t kt,
      less,
      run,
    )

    enlist-back :
        ltb kt.value.interval ky.value.interval ≡ false
        → list_add_tail t h w.links ≡ ok tt m'
        → enlist h t w ≡ ok tt (record w { links = m' })
    unfolding enlist
    enlist-back more run = rw (
      load-ok w.links h (r.live h (ground arith)),
      differs,
      r.chain.0,
      load_timer-ok w y ky,
      load_timer-ok w t kt,
      more,
      run,
    )

interval-value : (w : World) (t : Ptr) (k : IsTimer w t) → interval_of w t ≡ k.value.interval
interval-value w t k = rw k.stands

-- The timer is put on the list of its slot.
pub enlist-Enlisted :
    (w : World) (h t : Ptr) (zs : List Ptr)
    → IsRing w.links h zs
    → IsNew w.links t h zs
    → IsTimer w t
    → ((a : Ptr) → has a zs ≡ true → IsTimer w a)
    → (m' : Memory) × (enlist h t w ≡ ok tt (record w { links = m' })) × Enlisted w h t zs m'
enlist-Enlisted w h t [] r new kt known =
    let (m', run, i, ring) = list_add-Inserted w.links t h [] r new in
    (m', enlist-empty w h t m' r run, record { ring = ring; outside = Same-add h [] t i })
enlist-Enlisted w h t (y ∷ ys) r new kt known =
    let ky = known y (ground arith) in
    let e1 = interval-value w t kt in
    let e2 = interval-value w y ky in
    elim (Bool-cases (ltb kt.value.interval ky.value.interval)) [
      | inl less ↦
          let (m', run, i, ring) = list_add-Inserted w.links t h (y ∷ ys) r new in
          (
            m',
            enlist-front w h t m' y ys r kt ky less run,
            record { ring = rw (e1, e2, less) ring; outside = Same-add h (y ∷ ys) t i },
          )
      | inr more ↦
          let (m', run, i, ring) = list_add_tail-Inserted w.links t h (y ∷ ys) r new in
          (
            m',
            enlist-back w h t m' y ys r kt ky more run,
            record { ring = rw (e1, e2, more) ring; outside = Same-add_tail h (y ∷ ys) t i },
          )
    ]
