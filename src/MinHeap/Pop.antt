-- ===== src/MinHeap/Pop.antt =====
-- `ti_pop` on a valid manager.
use native.Mathlib.Numerals.{add-one}
use native.Mathlib.Decide.{dec_lt}
use simple_timer.Prelude.{
  ap, le→leb, ℕ, suc, ◌+◌, ◌-◌, ◌/◌, ◌<◌, ◌≤◌, ◌≡◌, ◌≢◌, refl, ◌⊎◌, ◌∙◌, true, false, List, arith,
  ne→eqb,
}
use simple_timer.Prelude.Arrays.{length, get_or, set, get_or-set, length-set}
use simple_timer.Machine.{ok}
use simple_timer.Machine.Ends
use simple_timer.Machine.Ends.{Ends, ends}
use simple_timer.Api.{Ptr, null, timer_true, less}
use simple_timer.MinHeap.State.{live, World}
use simple_timer.MinHeap.Queue.{sift_down, pop}
use simple_timer.MinHeap.Memory.{Timers, keys, with_queue, load_slot-ok, store_slot-ok}
use simple_timer.MinHeap.SiftDown.{
  SameBut, Loaded, sift_down-ok, sift_down-step, sift_down-stop, moved, Loaded-moved, SameBut-write,
}
use simple_timer.MinHeap.Valid.{IsValid}

-- The array after `queue[i] = queue[s]; queue[s] = NULL`.
abbrev pub closed_up : List Ptr → ℕ → ℕ → List Ptr
closed_up q s i = set (set q i (get_or null q s)) s null

-- The world after a pop that stopped at slot `i`.
abbrev pub popped : World → List Ptr → ℕ → ℕ → Timers → World
popped w q s i h = record w {
  man = record (w.man) { cur_timer_num = s; queue = live (closed_up q s i) };
  timers = h;
}

-- What `ti_pop` does once its loop has stopped.
pop_from :
    (this : Ptr) (w : World) {q : List Ptr} (s i : ℕ) (h : Timers)
    → this ≢ null
    → w.man.start_flag ≢ 0
    → w.man.cur_timer_num ≡ suc s
    → w.man.queue ≡ live q
    → s < length q
    → i ≤ s
    → sift_down (s + 1) s 0 (record w { man = record (w.man) { cur_timer_num = s } })
      ≡ ok i (record w { man = record (w.man) { cur_timer_num = s }; timers = h })
    → pop this w ≡ ok timer_true (popped w q s i h)
unfolding pop
pop_from this w {q} s i h given started count array inside below loop =
    let e : suc s - 1 ≡ s = omega arith in
    let w1 : World = record w { man = record (w.man) { cur_timer_num = s }; timers = h } in
    let last = get_or null q s in
    rw (
      ne→eqb this null given,
      ne→eqb _ _ started,
      count,
      ne→eqb (suc s) 0 (omega arith),
      e,
      loop,
      load_slot-ok {w = w1} array s inside,
      store_slot-ok {w = w1} array i (omega arith) last,
      store_slot-ok {w = with_queue w1 (set q i last)} refl s (rw length-set inside) null,
    )

closed_up-root :
    (q : List Ptr) (s i : ℕ)
    → s < length q
    → 0 < i
    → i ≤ s
    → get_or null (closed_up q s i) 0 ≡ get_or null q 0
closed_up-root q s i inside pos below =
    let last = get_or null q s in
    rw (
      get_or-set null (set q i last) s 0 null (rw length-set inside),
      ne→eqb s 0 (omega arith),
      get_or-set null q i 0 last (omega arith),
      ne→eqb i 0 (omega arith),
    )

-- What a running timer thread has when it pops: a valid manager with `suc s` timers.
pub record Popping (w : World) (q : List Ptr) (s : ℕ) (this : Ptr) : Type 0 where
  pub given : this ≢ null
  pub started : w.man.start_flag ≢ 0
  pub count : w.man.cur_timer_num ≡ suc s
  pub valid : IsValid w q

module _ {w : World} {q : List Ptr} {s : ℕ} {this : Ptr} (p : Popping w q s this) where
  pub last_inside : s < length q
  last_inside = omega (arith, p.count, p.valid.room, p.valid.size)

  -- The world after `--cur_timer_num`.
  counted : World
  counted = record w { man = record (w.man) { cur_timer_num = s } }

  counted-Loaded : Loaded counted q s
  unfolding counted
  counted-Loaded = record {
    array = p.valid.array;
    inside = last_inside;
    timers = λ j r. p.valid.entries.filled j (rw p.count (omega arith));
  }

  finish :
      (i : ℕ) (h : Timers)
      → i ≤ s
      → sift_down (s + 1) s 0 counted ≡ ok i (record counted { timers = h })
      → pop this w ≡ ok timer_true (popped w q s i h)
  unfolding counted
  finish i h below loop =
      pop_from this w s i h p.given p.started p.count p.valid.array last_inside below loop

  -- On a valid, started manager that has a timer `ti_pop` ends without a fault. One slot `i`
  -- receives the last timer and the last slot NULL, the count falls by one, and of the timers only
  -- expiry times change.
  pub pop_total :
      Ends
        (λ b w'.
          (b ≡ timer_true)
          × (i : ℕ) × (i ≤ s)
          × (w' ≡ popped w q s i w'.timers)
          × SameBut w'.timers w.timers)
        (pop this w)
  unfolding counted
  pop_total =
      let (i, w', run, (low, high, man, same)) =
        Ends.inv (sift_down-ok (s + 1) s 0 counted-Loaded (omega arith) (omega arith)) in
      rw (finish i w'.timers high (run ∙ ap (ok i) man)) (ends (refl, i, high, refl, same))

  -- On a valid, started manager with one or two timers, or whose last timer expires before the
  -- second, `ti_pop` removes the first timer: the last one takes its slot, and no timer changes.
  pub pop-root :
      (s < 2) ⊎ (less (keys w.timers q s) (keys w.timers q 1) ≡ true)
      → pop this w ≡ ok timer_true (popped w q s 0 w.timers)
  unfolding counted sift_down
  pop-root why = finish 0 w.timers (omega arith) (
      rw add-one (elim (dec_lt s 2) [
        | yes few ↦ rw (le→leb (s / 2) 0 (omega arith), sift_down)
        | no many ↦ sift_down-stop counted-Loaded s 0 (omega arith) (ground arith)
      ]))

  -- On a valid, started manager with three timers or more, of which the last does not expire before
  -- the second, `ti_pop` leaves the first timer in slot 0: a lower slot receives the last timer,
  -- and of the timers only expiry times change.
  pub pop-stale_root :
      2 ≤ s
      → less (keys w.timers q s) (keys w.timers q 1) ≡ false
      → Ends
          (λ b w'.
            (b ≡ timer_true)
            × (i : ℕ) × (0 < i)
            × (i ≤ s)
            × (w' ≡ popped w q s i w'.timers)
            × SameBut w'.timers w.timers
            × (get_or null (closed_up q s i) 0 ≡ get_or null q 0))
          (pop this w)
  unfolding counted
  pop-stale_root many down =
      let (c, low, high, step) = sift_down-step counted-Loaded s 0 (omega arith) down in
      let next : Loaded (moved counted q 0 (keys w.timers q c)) q s =
        Loaded-moved counted-Loaded 0 _ (omega arith) in
      let (i, w', run, (from, to, man, same)) =
        Ends.inv (sift_down-ok s s c next (omega arith) (omega arith)) in
      let kept =
        SameBut-write w.timers (get_or null q 0) (keys w.timers q c)
          (counted-Loaded.timers 0 (omega arith)) in
      rw (finish i w'.timers to (rw add-one (step ∙ run ∙ ap (ok i) man))) (
        ends (
          refl,
          i,
          omega arith,
          to,
          refl,
          λ a. same a ∙ kept a,
          closed_up-root q s i last_inside (omega arith) to,
        ))
