-- ===== src/Wheel/Abstract.antt =====
-- The wheel as its user sees it: for each slot the timers on its list, in order. What holds of the
-- memory when it shows such a wheel, and the steps that keep it so.
use simple_timer.Prelude.{
  ℕ, ◌+◌, ◌<◌, ◌≡◌, ◌≢◌, refl, ◌∙◌, sym, inl, inr, true, false, ◌||◌, List, [], ◌∷◌, ◌++◌, arith,
  ◌==◌, if◌then◌else◌, Bool-cases, eqb→eq, eqb→ne,
}
use simple_timer.Prelude.Arrays.{length}
use simple_timer.Machine.{ok}
use simple_timer.Machine.Locks.{RwLock}
use simple_timer.Api.{Ptr}
use simple_timer.LinkedList.{Memory, list_del}
use simple_timer.LinkedList.Ring.{has, is_live, IsRing, has-append}
use simple_timer.LinkedList.Remove.{list_del-Unlinked, IsDistinct-middle}
use simple_timer.LinkedList.Frame.{Same, IsRing-frame, Same-del}
use simple_timer.Wheel.State.{live, Slots, World, set_lock}
use simple_timer.Wheel.Enlist.{enlisted, IsTimer}

-- The timers of each slot.
abbrev pub Rota : Type 0
Rota = ℕ → List Ptr

abbrev pub without : ℕ → List Ptr → Rota → Rota
without slot rest on j = if j == slot then rest else on j

abbrev pub with_timer : (Ptr → ℕ) → ℕ → Ptr → Rota → Rota
with_timer f slot t on j = if j == slot then enlisted f t (on j) else on j

-- The lists of the slots are `on`, they share nothing, and a live timer stands at each entry.
pub record IsWheel (w : World) (s : Slots) (on : Rota) : Type 0 where
  pub held : w.man.slots ≡ live s
  pub size : length s.nodes ≡ w.man.slot_num
  pub ring : (j : ℕ) → j < w.man.slot_num → IsRing w.links (s.base + j) (on j)
  pub apart :
      (i j : ℕ)
      → i < w.man.slot_num
      → j < w.man.slot_num
      → i ≢ j
      → (a : Ptr) → has a ((s.base + i) ∷ on i) ≡ true
      → has a ((s.base + j) ∷ on j) ≡ false
  pub known : (j : ℕ) → j < w.man.slot_num → (a : Ptr) → has a (on j) ≡ true → IsTimer w a

-- A wheel depends on the array, the links of its lists and its timers only.
pub IsWheel-frame :
    (w w' : World) (s : Slots) (on : Rota)
    → IsWheel w s on
    → w'.man.slots ≡ w.man.slots
    → w'.man.slot_num ≡ w.man.slot_num
    → ((j : ℕ)
        → j < w.man.slot_num
        → (a : Ptr) → has a ((s.base + j) ∷ on j) ≡ true
        → Same w.links w'.links a)
    → ((j : ℕ) → j < w.man.slot_num → (a : Ptr) → has a (on j) ≡ true → w'.timers a ≡ w.timers a)
    → IsWheel w' s on
IsWheel-frame w w' s on v array count links timers = record {
  held = array ∙ v.held;
  size = v.size ∙ sym count;
  ring = λ j l.
      IsRing-frame (s.base + j) (on j) (links j (omega (arith, count)))
        (v.ring j (omega (arith, count)));
  apart = λ i j li lj. v.apart i j (omega (arith, count)) (omega (arith, count));
  known = λ j l a h.
      let k = v.known j (omega (arith, count)) a h in
      record {
        place = k.place;
        value = k.value;
        stands = timers j (omega (arith, count)) a h ∙ k.stands;
      };
}

pub IsWheel-lock :
    {w : World} {s : Slots} {on : Rota} (l : RwLock) → IsWheel w s on → IsWheel (set_lock w l) s on
IsWheel-lock l v = record {
  held = v.held;
  size = v.size;
  ring = v.ring;
  apart = v.apart;
  known = λ j below a h.
      let k = v.known j below a h in record { place = k.place; value = k.value; stands = k.stands };
}

-- `t` is on no list.
pub record IsOff (w : World) (s : Slots) (on : Rota) (t : Ptr) : Type 0 where
  pub off : (j : ℕ) → j < w.man.slot_num → has t ((s.base + j) ∷ on j) ≡ false
  pub live : is_live (w.links t) ≡ true

pub has-enlisted :
    (f : Ptr → ℕ) (t a : Ptr) (zs : List Ptr) → has a (enlisted f t zs) ≡ ((t == a) || has a zs)
has-enlisted f t a [] = refl
has-enlisted f t a (y ∷ ys) = ground (arith, has-append a ys (t ∷ []))

module _ (w : World) (s : Slots) (on : Rota) (slot : ℕ) (e : Ptr) (xs ys : List Ptr)
    (v : IsWheel w s on) (inside : slot < w.man.slot_num) (here : on slot ≡ xs ++ e ∷ ys) where
  kept : (j : ℕ) (a : Ptr) → has a (without slot (xs ++ ys) on j) ≡ true → has a (on j) ≡ true
  kept j a h = elim (Bool-cases (j == slot)) [
    | inl same ↦
        rw (eqb→eq j slot same, here)
          (ground (arith, h, has-append a xs ys, has-append a xs (e ∷ ys)))
    | inr other ↦ ground arith
  ]

  kept_head :
      (j : ℕ) (a : Ptr)
      → has a ((s.base + j) ∷ without slot (xs ++ ys) on j) ≡ true
      → has a ((s.base + j) ∷ on j) ≡ true
  kept_head j a h = ground (arith, kept j a)

  kept_out :
      (j : ℕ) (a : Ptr)
      → has a ((s.base + j) ∷ on j) ≡ false
      → has a ((s.base + j) ∷ without slot (xs ++ ys) on j) ≡ false
  kept_out j a h = ground (arith, kept_head j a)

  e_inside : has e ((s.base + slot) ∷ on slot) ≡ true
  e_inside = rw here (ground (arith, has-append e xs (e ∷ ys)))

  IsRing-here : IsRing w.links (s.base + slot) (xs ++ e ∷ ys)
  IsRing-here = rw (sym here) (v.ring slot inside)

  e_off : (j : ℕ) → j < w.man.slot_num → has e ((s.base + j) ∷ without slot (xs ++ ys) on j) ≡ false
  e_off j l = elim (Bool-cases (j == slot)) [
    | inl same ↦
        let (left, right, rest) =
          IsDistinct-middle ((s.base + slot) ∷ xs) ys e IsRing-here.distinct in
        rw (eqb→eq j slot same) (ground (arith, left, right, has-append e xs ys))
    | inr other ↦
        kept_out j e (v.apart slot j inside l (ground (arith, eqb→ne j slot other)) e e_inside)
  ]

  -- An entry is taken off its list.
  pub IsWheel-list_del :
      (m' : Memory) × (list_del e w.links ≡ ok tt m')
      × IsWheel (record w { links = m' }) s (without slot (xs ++ ys) on)
      × IsOff (record w { links = m' }) s (without slot (xs ++ ys) on) e
  IsWheel-list_del =
      let (m', run, c, ring) = list_del-Unlinked w.links (s.base + slot) e xs ys IsRing-here in
      let outside : (j : ℕ)
          → j < w.man.slot_num
          → j ≢ slot
          → (a : Ptr) → has a ((s.base + j) ∷ on j) ≡ true
          → Same w.links m' a =
        λ j l other a h.
          Same-del (s.base + slot) xs e ys c a
            (rw (sym here) (v.apart j slot l inside other a h)) in
      (
        m',
        run,
        record {
          held = v.held;
          size = v.size;
          ring = λ j l. elim (Bool-cases (j == slot)) [
            | inl same ↦ rw (eqb→eq j slot same) (ground (arith, ring))
            | inr other ↦
                rw other (
                  IsRing-frame (s.base + j) (on j) (outside j l (eqb→ne j slot other)) (v.ring j l))
          ];
          apart = λ i j li lj ne a h. kept_out j a (v.apart i j li lj ne a (kept_head i a h));
          known = λ j l a h.
              let k = v.known j l a (kept j a h) in
              record { place = k.place; value = k.value; stands = k.stands };
        },
        record {
          off = e_off;
          live = c.live e ∙ IsRing-here.live e (ground (arith, has-append e xs (e ∷ ys)));
        },
      )
