-- ===== src/MinHeap/SiftDown.antt =====
-- The loop of `ti_pop`: it ends, and touches nothing but expiry times.
use simple_timer.Prelude.{
  ℕ, zero, suc, ◌+◌, ◌*◌, ◌/◌, ◌<◌, ◌≤◌, ◌≡◌, refl, ◌∙◌, inl, inr, true, false, Option, none, some,
  List, arith, leb, ltb, Bool-cases, eqb→eq, lt→leb,
}
use simple_timer.Prelude.Arrays.{length, get_or}
use simple_timer.Machine.{ok}
use simple_timer.Machine.Ends
use simple_timer.Machine.Ends.{Ends, ends}
use simple_timer.Api.{Ptr, null, Timespec, less}
use simple_timer.MinHeap.State.{live, MhTimer, World, write}
use simple_timer.MinHeap.Queue.{pick_child, sift_down}
use simple_timer.MinHeap.Memory.{
  Timers, no_timer, timer_at, keys, IsTimer, load_timer-ok, store_timer-ok, load_slot-ok,
}

-- A timer but for its expiry time.
abbrev pub untimed : Option MhTimer → Option MhTimer
untimed none = none
untimed (some x) = some (record x { expiretime = no_timer.expiretime })

-- `g` has the blocks of `h`, which differ at most in their expiry times.
abbrev pub SameBut : Timers → Timers → Type 0
SameBut g h = (p : Ptr) → untimed (g p) ≡ untimed (h p)

pub IsTimer-SameBut : {g h : Timers} {p : Ptr} → SameBut g h → IsTimer h p → IsTimer g p
IsTimer-SameBut {p} same t = record { ne_null = t.ne_null; holds = ground (arith, same p, t.holds) }

pub SameBut-write :
    (h : Timers) (p : Ptr) (e : Timespec)
    → IsTimer h p
    → SameBut (write h p (some (record (timer_at h p) { expiretime = e }))) h
SameBut-write h p e t a = ground (arith, t.holds, eqb→eq a p)

-- The timer in slot `i` with another expiry time.
abbrev pub moved : World → List Ptr → ℕ → Timespec → World
moved w q i e = record w {
  timers =
      write w.timers (get_or null q i)
        (some (record (timer_at w.timers (get_or null q i)) { expiretime = e }));
}

-- The loop may run: the array is live and all slots up to `s` hold timers.
pub record Loaded (w : World) (q : List Ptr) (s : ℕ) : Type 0 where
  pub array : w.man.queue ≡ live q
  pub inside : s < length q
  pub timers : (j : ℕ) → j ≤ s → IsTimer w.timers (get_or null q j)

module _ {w : World} {q : List Ptr} {s : ℕ} (l : Loaded w q s) where
  pick_child-ok :
      (child : ℕ) (e : Timespec)
      → child < s
      → Ends (λ c w'. (w' ≡ w) × (child ≤ c) × (c < s)) (pick_child s child e w)
  unfolding pick_child
  pick_child-ok child e below = elim (Bool-cases (ltb (child + 1) s)) [
    | inr one ↦ rw one (ends (refl, omega arith, below))
    | inl two ↦
        rw
          (
            two,
            load_slot-ok {w = w} l.array (child + 1) (omega (arith, l.inside)),
            load_timer-ok {w = w} (l.timers (child + 1) (omega arith)),
          )
          (ends (refl, ground arith, ground arith))
  ]

  pub Loaded-moved : (i : ℕ) (e : Timespec) → i ≤ s → Loaded (moved w q i e) q s
  Loaded-moved i e p = record {
    array = l.array;
    inside = l.inside;
    timers = λ j r.
        IsTimer-SameBut (SameBut-write w.timers (get_or null q i) e (l.timers i p)) (l.timers j r);
  }

  -- A round that goes down copies a child's expiry time into the timer in slot `i`.
  pub sift_down-step :
      (k i : ℕ)
      → i < s / 2
      → less (keys w.timers q s) (keys w.timers q (2 * i + 1)) ≡ false
      → (c : ℕ) × (2 * i + 1 ≤ c)
        × (c < s)
        × (sift_down (suc k) s i w ≡ sift_down k s c (moved w q i (keys w.timers q c)))
  unfolding sift_down
  sift_down-step k i inner down =
      let left = l.timers (2 * i + 1) (omega arith) in
      let (c, w', picked, (same, low, high)) =
        Ends.inv (pick_child-ok (2 * i + 1) (keys w.timers q (2 * i + 1)) (omega arith)) in
      let top = l.timers i (omega arith) in
      (
        c,
        low,
        high,
        rw (
          lt→leb (s / 2) i inner,
          load_slot-ok {w = w} l.array (2 * i + 1) (omega (arith, l.inside)),
          load_timer-ok {w = w} left,
          picked,
          same,
          load_slot-ok {w = w} l.array s l.inside,
          load_timer-ok {w = w} (l.timers s (omega arith)),
          down,
          load_slot-ok {w = w} l.array c (omega (arith, l.inside)),
          load_timer-ok {w = w} (l.timers c (omega arith)),
          load_slot-ok {w = w} l.array i (omega (arith, l.inside)),
          load_timer-ok {w = w} top,
          store_timer-ok {w = w} _ top,
        ),
      )

  -- A round that stops at slot `i`.
  pub sift_down-stop :
      (k i : ℕ)
      → i < s / 2
      → less (keys w.timers q s) (keys w.timers q (2 * i + 1)) ≡ true
      → sift_down (suc k) s i w ≡ ok i w
  unfolding sift_down
  sift_down-stop k i inner stop =
      let (c, w', picked, (same, low, high)) =
        Ends.inv (pick_child-ok (2 * i + 1) (keys w.timers q (2 * i + 1)) (omega arith)) in
      rw (
        lt→leb (s / 2) i inner,
        load_slot-ok {w = w} l.array (2 * i + 1) (omega (arith, l.inside)),
        load_timer-ok {w = w} (l.timers (2 * i + 1) (omega arith)),
        picked,
        same,
        load_slot-ok {w = w} l.array s l.inside,
        load_timer-ok {w = w} (l.timers s (omega arith)),
        stop,
      )

-- What the loop leaves, from slot `i`: a slot between `i` and `s`, and the timers but for their
-- expiry times.
abbrev pub Descended : World → ℕ → ℕ → ℕ → World → Type 0
Descended w s i i' w' =
    (i ≤ i') × (i' ≤ s) × (w' ≡ record w { timers = w'.timers }) × SameBut w'.timers w.timers

-- The loop ends within its fuel, without a fault.
pub sift_down-ok :
    (k s i : ℕ) {w : World} {q : List Ptr}
    → Loaded w q s
    → i ≤ s
    → s < i + k
    → Ends (Descended w s i) (sift_down k s i w)
unfolding sift_down
sift_down-ok zero s i l below fuel = absurd (omega arith)
sift_down-ok (suc k) s i {w} {q} l below fuel = elim (Bool-cases (leb (s / 2) i)) [
  | inl leaf ↦ rw leaf (ends (omega arith, below, refl, λ p. refl))
  | inr inner ↦
      let h : i < s / 2 = ground arith in
      elim (Bool-cases (less (keys w.timers q s) (keys w.timers q (2 * i + 1)))) [
        | inl stop ↦ rw (sift_down-stop l k i h stop) (ends (omega arith, below, refl, λ p. refl))
        | inr down ↦
            let (c, low, high, step) = sift_down-step l k i h down in
            rw step (
              Ends.mono
                (sift_down-ok k s c {w = moved w q i (keys w.timers q c)} (Loaded-moved l i _ below)
                  (omega arith) (omega arith))
                λ i' w' (from, to, man, same). (
                  omega arith,
                  to,
                  man,
                  λ p.
                      same p
                      ∙ SameBut-write w.timers (get_or null q i) (keys w.timers q c)
                          (l.timers i below) p,
                ))
      ]
]
