-- ===== src/Wheel/Waiting.antt =====
-- A pass of the timer thread over a slot in which no timer is due yet.
use simple_timer.Prelude.{
  ℕ, zero, suc, ◌-◌, ◌<◌, ◌≡◌, ◌≢◌, refl, ◌∙◌, sym, ap, inl, inr, true, false, Option, none, some,
  List, [], ◌∷◌, arith, ◌==◌, if◌then◌else◌, Bool-cases, ne→eqb, eqb→eq,
}
use simple_timer.Prelude.Arrays.{length}
use simple_timer.Machine.{ok}
use simple_timer.Api.{Ptr}
use simple_timer.LinkedList.{list_is_last}
use simple_timer.LinkedList.Ring.{has, IsDistinct, links, Chain, is_live, IsRing}
use simple_timer.LinkedList.Insert.{apart}
use simple_timer.Wheel.State.{write, TimerInternal, World}
use simple_timer.Wheel.Worker.{Round, visit, scan}
use simple_timer.Wheel.Freeing.{Timers}
use simple_timer.Wheel.Enlist.{IsTimer, load-ok, load_timer-ok, store_timer-ok}

abbrev pub lowered : Option TimerInternal → Option TimerInternal
lowered none = none
lowered (some x) = some (record x { round = x.round - 1 })

-- The timers of the list, one after the other, with their rounds lowered.
abbrev waited : List Ptr → Timers → Timers
waited [] ts = ts
waited (y ∷ ys) ts = waited ys (write ts y (lowered (ts y)))

waited-at :
    (ys : List Ptr) (ts : Timers)
    → IsDistinct ys
    → (a : Ptr) → waited ys ts a ≡ (if has a ys then lowered (ts a) else ts a)
waited-at [] ts d a = refl
waited-at (y ∷ ys) ts d a = elim (Bool-cases (a == y)) [
  | inl same ↦
      let p = eqb→eq a y same in
      let out : has a ys ≡ false = ap (λ (b : Ptr). has b ys) p ∙ d.0 in
      let back : (y == a) ≡ true = ground arith in
      waited-at ys (write ts y (lowered (ts y))) d.1 a
      ∙ rw (out, back, same) (ap (λ (b : Ptr). lowered (ts b)) (sym p))
  | inr other ↦ waited-at ys (write ts y (lowered (ts y))) d.1 a ∙ ground arith
]

-- A live timer stands at each entry, with rounds left.
abbrev pub Waiting : World → List Ptr → Type 0
Waiting w xs = (a : Ptr) → has a xs ≡ true → (k : IsTimer w a) × (0 < k.value.round)

visit-Waiting :
    (r : Round) (this tmp y : Ptr) (slot : ℕ) (w : World) (k : IsTimer w y)
    → is_live (w.links tmp) ≡ true
    → (links w.links tmp).next ≡ y
    → 0 < k.value.round
    → visit r this tmp slot w
      ≡ ok tt (record w { timers = write w.timers y (lowered (w.timers y)) })
unfolding visit
visit-Waiting r this tmp y slot w k l next left = rw (
  load-ok w.links tmp l,
  next,
  load_timer-ok w y k,
  ne→eqb k.value.round 0 (omega (arith, left)),
  store_timer-ok w y k (record (k.value) { round = k.value.round - 1 }),
  k.stands,
)

scan-end :
    (r : Round) (k : ℕ) (this header tmp : Ptr) (slot : ℕ) (w : World)
    → is_live (w.links tmp) ≡ true
    → (links w.links tmp).next ≡ header
    → scan r (suc k) this header tmp slot w ≡ ok tt w
unfolding scan list_is_last
scan-end r k this header tmp slot w l next =
    let last : ((links w.links tmp).next == header) ≡ true = ground (arith, next) in
    rw (load-ok w.links tmp l, last)

scan-step :
    (r : Round) (k : ℕ) (this header tmp y : Ptr) (slot : ℕ) (w w' : World)
    → is_live (w.links tmp) ≡ true
    → (links w.links tmp).next ≡ y
    → y ≢ header
    → visit r this tmp slot w ≡ ok tt w'
    → w'.links ≡ w.links
    → scan r (suc k) this header tmp slot w ≡ scan r k this header y slot w'
unfolding scan list_is_last
scan-step r k this header tmp y slot w w' l next other run kept =
    let goes_on : ((links w.links tmp).next == header) ≡ false = ground (arith, next) in
    rw (load-ok w.links tmp l, goes_on, run, kept, load-ok w.links tmp l, next)

Waiting-write :
    (w : World) (y : Ptr) (ys : List Ptr) (v : Option TimerInternal)
    → has y ys ≡ false
    → Waiting w ys
    → Waiting (record w { timers = write w.timers y v }) ys
Waiting-write w y ys v out waits a h =
    let (t, left) = waits a h in
    let ne : y ≢ a = apart y a ys out h in
    let other : (a == y) ≡ false = ground arith in
    (record { place = t.place; value = t.value; stands = rw other t.stands }, left)

scan-from :
    (r : Round) (fuel : ℕ) (this header tmp : Ptr) (slot : ℕ) (ys : List Ptr) (w : World)
    → Chain (links w.links) tmp ys header
    → has header ys ≡ false
    → IsDistinct ys
    → ((a : Ptr) → has a (tmp ∷ ys) ≡ true → is_live (w.links a) ≡ true)
    → Waiting w ys
    → length ys < fuel
    → scan r fuel this header tmp slot w ≡ ok tt (record w { timers = waited ys w.timers })
scan-from r zero this header tmp slot ys w c out d l waits enough = absurd (omega arith)
scan-from r (suc k) this header tmp slot [] w c out d l waits enough =
    scan-end r k this header tmp slot w (l tmp (ground arith)) c.0
scan-from r (suc k) this header tmp slot (y ∷ ys) w c out d l waits enough =
    let (t, left) = waits y (ground arith) in
    let here = l tmp (ground arith) in
    let w1 : World = record w { timers = write w.timers y (lowered (w.timers y)) } in
    scan-step r k this header tmp y slot w w1 here c.0 (ground arith)
      (visit-Waiting r this tmp y slot w t here c.0 left) refl
    ∙ scan-from r k this header y slot ys w1 c.2 (ground arith) d.1 (λ a h. l a (ground arith))
        (Waiting-write w y ys (lowered (w.timers y)) d.0 (λ a h. waits a (ground arith)))
        (omega arith)

-- The pass ends, and lowers the rounds of each timer of the list.
pub scan-Waiting :
    (r : Round) (fuel : ℕ) (this header : Ptr) (slot : ℕ) (xs : List Ptr) (w : World)
    → IsRing w.links header xs
    → Waiting w xs
    → length xs < fuel
    → (timers : Timers) × (scan r fuel this header header slot w
        ≡ ok tt (record w { timers = timers }))
      × ((a : Ptr) → timers a ≡ (if has a xs then lowered (w.timers a) else w.timers a))
scan-Waiting r fuel this header slot xs w ring waits enough = (
  waited xs w.timers,
  scan-from r fuel this header header slot xs w ring.chain ring.distinct.0 ring.distinct.1 ring.live
      waits enough,
  waited-at xs w.timers ring.distinct.1,
)
