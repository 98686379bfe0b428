-- ===== src/Wheel/Freeing.antt =====
-- `ti_close` frees every timer of a list, and its loop ends.
use simple_timer.Prelude.{
  ℕ, ◌≡◌, ◌≢◌, ◌⊎◌, ◌∙◌, inl, inr, Bool, true, false, Option, none, some, List, [], ◌∷◌, arith,
  ◌==◌, if◌then◌else◌, ne→eqb, Bool-cases,
}
use simple_timer.Machine.{ok}
use simple_timer.Api.{Ptr, null}
use simple_timer.LinkedList.Ring.{has, links, IsRing}
use simple_timer.Wheel.State.{
  write, TimerInternal, World, load_timer, free_param, free_timer, release_timer,
}

abbrev pub Params : Type 0
Params = Ptr → Option (List ℕ)

abbrev pub Timers : Type 0
Timers = Ptr → Option TimerInternal

-- The parameter blocks after that of `x` has been freed.
abbrev pub params_after : TimerInternal → Params → Params
params_after x ps =
    if x.param_len == 0 then ps else if x.param == null then ps else write ps x.param none

abbrev pub stands : Option (List ℕ) → Bool
stands none = false
stands (some b) = true

-- A live timer stands at each entry, and no two of them have a parameter block in common.
abbrev pub Owned : Timers → Params → List Ptr → Type 0
Owned ts ps [] = Unit
Owned ts ps (t ∷ rest) =
    (x : TimerInternal) × (t ≢ null)
    × (ts t ≡ some x)
    × ((x.param_len ≡ 0) ⊎ (x.param ≡ null) ⊎ (stands (ps x.param) ≡ true))
    × Owned ts (params_after x ps) rest

-- The world after the timer at `t`, whose record was `x`, has been freed.
abbrev pub released : World → Ptr → TimerInternal → World
released w t x = record w {
  timers = write w.timers t none;
  params = params_after x w.params;
  links = write w.links t none;
}

pub free_timer-ok :
    (w : World) (t : Ptr) (x : TimerInternal)
    → t ≢ null
    → w.timers t ≡ some x
    → free_timer t w
      ≡ ok tt (record w { timers = write w.timers t none; links = write w.links t none })
unfolding free_timer load_timer
free_timer-ok w t x place here = rw (ne→eqb t null place, here)

module _ (w : World) (t : Ptr) (x : TimerInternal) (place : t ≢ null) where
  free_param-ok :
      (x.param_len == 0) ≡ false
      → (x.param ≡ null) ⊎ (stands (w.params x.param) ≡ true)
      → free_param x.param w ≡ ok tt (record w { params = params_after x w.params })
  unfolding free_param
  free_param-ok full block = ground arith

  drop_param :
      (x.param_len ≡ 0) ⊎ (x.param ≡ null) ⊎ (stands (w.params x.param) ≡ true)
      → (if x.param_len == 0 then ok tt else free_param x.param) w
        ≡ ok tt (record w { params = params_after x w.params })
  drop_param block = elim (Bool-cases (x.param_len == 0)) [
    | inl empty ↦ rw empty
    | inr full ↦ rw full (free_param-ok full (ground (arith, block)) ∙ rw full)
  ]

  pub release_timer-released :
      w.timers t ≡ some x
      → (x.param_len ≡ 0) ⊎ (x.param ≡ null) ⊎ (stands (w.params x.param) ≡ true)
      → release_timer t w ≡ ok tt (released w t x)
  unfolding release_timer load_timer
  release_timer-released here block =
      rw (ne→eqb t null place, here, drop_param block)
        (free_timer-ok (record w { params = params_after x w.params }) t x place here)

abbrev pub block_after : Option TimerInternal → Params → Params
block_after none ps = ps
block_after (some x) ps = params_after x ps

-- The parameter blocks after those of the timers at `xs` have been freed.
abbrev pub params_without : Timers → List Ptr → Params → Params
params_without ts [] ps = ps
params_without ts (t ∷ rest) ps = params_without ts rest (block_after (ts t) ps)

-- The list at `h` is empty, the timers that were on it and their parameter blocks are freed, and no
-- other timer or parameter block has changed.
abbrev pub Freed : World → List Ptr → Ptr → World → Type 0
Freed w xs h w' =
    IsRing w'.links h []
    × ((a : Ptr) → has a xs ≡ true → w'.timers a ≡ none)
    × ((a : Ptr) → has a xs ≡ false → w'.timers a ≡ w.timers a)
    × (w'.params ≡ params_without w.timers xs w.params)
    × (w'.man ≡ w.man)
