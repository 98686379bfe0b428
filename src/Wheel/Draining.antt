-- ===== src/Wheel/Draining.antt =====
-- `ti_del(0)` unlinks one entry of a list and frees the one behind it.
use simple_timer.Prelude.{
  ℕ, suc, ◌≡◌, ◌≢◌, ◌⊎◌, refl, ◌∙◌, ap, inl, inr, true, false, Option, none, List, [], ◌∷◌, arith,
  ◌==◌, eqb→ne, Bool-cases, Option-cases,
}
use simple_timer.Machine.{Run, ok, fault, and_then}
use simple_timer.Api.{Ptr, null}
use simple_timer.LinkedList.{Memory, list_empty, list_del, load}
use simple_timer.LinkedList.Ring.{links, is_live, IsRing}
use simple_timer.LinkedList.Remove.{list_del-Unlinked}
use simple_timer.Wheel.State.{write, TimerInternal, World, load_timer, free_param, release_timer}
use simple_timer.Wheel.Deletion.{drain}
use simple_timer.Wheel.Enlist.{load-ok}
use simple_timer.Wheel.Freeing.{free_timer-ok}

-- The world after `free` of the block at `t`.
abbrev without_timer : World → Ptr → World
without_timer w t = record w { timers = write w.timers t none; links = write w.links t none }

-- A release faults, or it ends and takes the links of the timer with it.
abbrev Released : World → Ptr → Type 0
Released w t =
    (release_timer t w ≡ fault)
    ⊎ ((w' : World) × (release_timer t w ≡ ok tt w') × (w'.links ≡ write w.links t none))

free_param-cases :
    (b : Ptr) (w : World)
    → (free_param b w ≡ fault)
      ⊎ ((w' : World) × (free_param b w ≡ ok tt w') × (w'.links ≡ w.links) × (w'.timers ≡ w.timers))
unfolding free_param
free_param-cases b w = elim (Bool-cases (b == null)) [
  | inl empty ↦ inr (w, rw empty, refl, refl)
  | inr there ↦ elim (Option-cases (w.params b)) [
    | inl gone ↦ inl (rw (there, gone))
    | inr (x, e) ↦ inr (record w { params = write w.params b none }, rw (there, e), refl, refl)
  ]
]

release_timer-fault : (t : Ptr) (w : World) → w.timers t ≡ none → release_timer t w ≡ fault
unfolding release_timer load_timer
release_timer-fault t w gone = elim (Bool-cases (t == null)) [
  | inl empty ↦ rw empty
  | inr there ↦ rw (there, gone)
]

release_timer-cases : (t : Ptr) (w : World) → Released w t
unfolding release_timer load_timer
release_timer-cases t w = elim (Bool-cases (t == null)) [
  | inl empty ↦ inl (rw empty)
  | inr there ↦ elim (Option-cases (w.timers t)) [
    | inl gone ↦ inl (rw (there, gone))
    | inr (x, e) ↦ elim (Bool-cases (x.param_len == 0)) [
      | inl plain ↦ inr (
        without_timer w t,
        rw (there, e, plain) (free_timer-ok w t x (eqb→ne t null there) e),
        refl,
      )
      | inr full ↦ elim (free_param-cases x.param w) [
        | inl bad ↦ inl (rw (there, e, full, bad))
        | inr (w1, good, same, kept) ↦ inr (
          without_timer w1 t,
          rw (there, e, full, good)
              (free_timer-ok w1 t x (eqb→ne t null there)
                (ap (λ (f : Ptr → Option TimerInternal). f t) kept ∙ e)),
          ap (λ (l : Memory). write l t none) same,
        )
      ]
    ]
  ]
]

pub drain-empty : (k : ℕ) (h : Ptr) (w : World) → IsRing w.links h [] → drain (suc k) h w ≡ ok tt w
unfolding drain list_empty
drain-empty k h w r =
    let same : ((links w.links h).next == h) ≡ true = ground (arith, r.chain.0) in
    rw (load-ok w.links h (r.live h (ground arith)), same)

-- The first round of the loop, up to the release.
drain-first :
    (k : ℕ) (h x n : Ptr) (xs : List Ptr) (w : World) (m1 : Memory)
    → IsRing w.links h (x ∷ xs)
    → list_del x w.links ≡ ok tt m1
    → is_live (m1 h) ≡ true
    → (links m1 h).next ≡ n
    → (r : Run World (Unit {0}))
    → and_then (release_timer n (record w { links = m1 })) (λ _. drain k h) ≡ r
    → drain (suc k) h w ≡ r
unfolding drain list_empty
drain-first k h x n xs w m1 ring gone l next r rest =
    let other : ((links w.links h).next == h) ≡ false =
      ground (arith, ring.chain.0, ring.distinct.0) in
    let read = load-ok w.links h (ring.live h (ground arith)) in
    rw (read, other, read, ring.chain.0, gone, load-ok m1 h l, next) rest

list_del-gone : (y : Ptr) (m : Memory) → m y ≡ none → list_del y m ≡ fault
unfolding list_del load
list_del-gone y m gone = rw gone

-- The second round, where the first entry has been freed but not unlinked.
drain-freed :
    (k : ℕ) (h y : Ptr) (w : World)
    → y ≢ h
    → is_live (w.links h) ≡ true
    → (links w.links h).next ≡ y
    → w.links y ≡ none
    → drain (suc k) h w ≡ fault
unfolding drain list_empty
drain-freed k h y w other l next gone =
    let goes_on : ((links w.links h).next == h) ≡ false = ground (arith, next) in
    let read = load-ok w.links h l in rw (read, goes_on, read, next, list_del-gone y w.links gone)

pub drain-fault :
    (k : ℕ) (h x : Ptr) (xs : List Ptr) (w : World)
    → IsRing w.links h (x ∷ xs)
    → w.timers h ≡ none
    → drain (suc (suc k)) h w ≡ fault
drain-fault k h x [] w r plain =
    let (m1, gone, _, r1) = list_del-Unlinked w.links h x [] [] r in
    drain-first (suc k) h x h [] w m1 r gone (r1.live h (ground arith)) r1.chain.0 fault
      (rw (release_timer-fault h (record w { links = m1 }) plain))
drain-fault k h x (y ∷ ys) w r plain =
    let (m1, gone, _, r1) = list_del-Unlinked w.links h x [] (y ∷ ys) r in
    let w1 : World = record w { links = m1 } in
    drain-first (suc k) h x y (y ∷ ys) w m1 r gone (r1.live h (ground arith)) r1.chain.0 fault
      (elim (release_timer-cases y w1) [
        | inl bad ↦ rw bad
        | inr (w2, freed, same) ↦ rw freed (
            drain-freed k h y w2 (ground (arith, r1.distinct.0))
              (rw same (ground (arith, r1.live h, r1.distinct.0)))
              (rw same (ground (arith, r1.chain.0, r1.distinct.0))) (rw same (ground arith)))
      ])
