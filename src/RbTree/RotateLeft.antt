-- ===== src/RbTree/RotateLeft.antt =====
-- `rb_rotate_left` on a tree in memory.
use mathlib.Core.List.{append_assoc}
use simple_timer.Prelude.{◌+◌, ◌≤◌, ◌≡◌, ◌∙◌, some, ◌∷◌, arith}
use simple_timer.Machine.{ok, pure, ◌>>=◌, ◌>>◌}
use simple_timer.Api.{Ptr, null}
use simple_timer.RbTree.{Color, Store, load, set_parent, hang, rotate_left}
use simple_timer.RbTree.Shape.{
  Entry, Shape, node, Way, ptr, fill, above, root_of, cell, Tied, hit, copies, copies_up, Stands,
  entries, entries-fill, copies-fill, Tied-split, Tied-join,
}
use simple_timer.RbTree.Frame.{
  put, set_left-ok, set_right-ok, set_parent-ok, Tied-frame, TiedUp-frame, Tied-put, TiedUp-put,
  adopt-ok, hang-ok, hit-same, put-other, put-same,
}
use simple_timer.RbTree.Leads.{Leads}

module _ (m : Store) (z : Way) (c cl : Color) (e el : Entry) (a b y : Shape) where
  abbrev upright : Shape
  upright = node c e y (node cl el b a)

  abbrev rotated : Shape
  rotated = node cl el (node c e y b) a

  -- The memory when the lower node has the upper as its child, and nothing above knows it yet.
  record Turned (m4 : Store) : Type 0 where
    run :
        (root : Ptr)
        → rotate_left e.at root m
          ≡ (do top ← hang el.at e.at (above z) root; set_parent e.at el.at; pure top) m4
    upper : m4 e.at ≡ some (cell c e (ptr y) (ptr b) (above z))
    lower : m4 el.at ≡ some (cell cl el e.at (ptr a) (above z))
    inner : Tied m4 e.at b
    still : (p : Ptr) → hit p e.at + hit p el.at + copies p b ≡ 0 → m4 p ≡ m p

  module _ (once : (p : Ptr) → copies_up p z + copies p upright ≤ 1) where
    turn : Tied m (above z) upright → (m4 : Store) × Turned m4
    unfolding rotate_left load
    turn (given, here, ty, (given', here', tb, ta)) =
        let high = once e.at in
        let high' = hit-same e.at in
        let low = once el.at in
        let low' = hit-same el.at in
        let n1 = cell c e (ptr y) (ptr b) (above z) in
        let n3 = cell cl el e.at (ptr a) e.at in
        let n4 = cell cl el e.at (ptr a) (above z) in
        let m1 = put m e.at n1 in
        let (m2, run2, inner, kept2) =
          adopt-ok m1 el.at e.at b (λ p. omega (arith, once p))
            (Tied-put m e.at n1 el.at b (omega arith) tb) in
        let m3 = put m2 el.at n3 in
        let low2 : m2 el.at ≡ some (cell cl el (ptr b) (ptr a) e.at) =
          kept2 el.at (omega arith) ∙ put-other m e.at n1 el.at (omega arith) ∙ here' in
        let up2 : m2 e.at ≡ some n1 = kept2 e.at (omega arith) ∙ put-same m e.at n1 in
        let up3 : m3 e.at ≡ some n1 = put-other m2 el.at n3 e.at (omega arith) ∙ up2 in
        (
          put m3 el.at n4,
          record {
            run = λ root. rw (
              here,
              here',
              set_right-ok m e.at _ here (ptr b),
              run2,
              set_left-ok m2 el.at _ low2 e.at,
              up3,
              set_parent-ok m3 el.at _ (put-same m2 el.at n3) (above z),
            );
            upper = put-other m3 el.at n4 e.at (omega arith) ∙ up3;
            lower = put-same m3 el.at n4;
            inner =
                Tied-put m3 el.at n4 e.at b (omega arith)
                  (Tied-put m2 el.at n3 e.at b (omega arith) inner);
            still = λ p n.
                put-other m3 el.at n4 p (omega (arith, n))
                ∙ put-other m2 el.at n3 p (omega (arith, n))
                ∙ kept2 p (omega (arith, n))
                ∙ put-other m e.at n1 p (omega (arith, n));
          },
        )

    finish :
        (m4 : Store)
        → Turned m4
        → Tied m null (fill z upright)
        → (m' : Store) × (rotate_left e.at (root_of z e.at) m ≡ ok (root_of z el.at) m')
          × Tied m' null (fill z rotated)
          × ((p : Ptr) → copies p (fill z upright) ≡ 0 → m' p ≡ m p)
    finish m4 t whole =
        let (out, (given, _, ty, (given', _, tb, ta))) = Tied-split m z upright whole in
        let high = once e.at in
        let high' = hit-same e.at in
        let low = once el.at in
        let low' = hit-same el.at in
        let (m5, run5, out5, kept5) =
          hang-ok m4 z el.at e.at given (omega arith) (λ p. omega (arith, once p))
            (TiedUp-frame m m4 z e.at (λ p n. t.still p (omega (arith, n, once p))) out) in
        let up5 : m5 e.at ≡ some (cell c e (ptr y) (ptr b) (above z)) =
          kept5 e.at (omega arith) ∙ t.upper in
        let n6 = cell c e (ptr y) (ptr b) el.at in
        let m6 = put m5 e.at n6 in
        let still : (p : Ptr) → hit p e.at + copies_up p z ≡ 0 → m6 p ≡ m4 p =
          λ p n. put-other m5 e.at n6 p (omega (arith, n)) ∙ kept5 p (omega (arith, n)) in
        let same : (p : Ptr) → 1 ≤ copies p a + copies p y → m6 p ≡ m p =
          λ p n. still p (omega (arith, n, once p)) ∙ t.still p (omega (arith, n, once p)) in
        (
          m6,
          rw (t.run, run5, set_parent-ok m5 e.at _ up5 el.at),
          Tied-join m6 z rotated (TiedUp-put m5 e.at n6 z el.at (omega arith) out5) (
            given',
            still el.at (omega arith) ∙ t.lower,
            (
              given,
              put-same m5 e.at n6,
              Tied-frame m m6 e.at y (λ p n. same p (omega (arith, n))) ty,
              Tied-frame m4 m6 e.at b (λ p n. still p (omega (arith, n, once p))) t.inner,
            ),
            Tied-frame m m6 el.at a (λ p n. same p (omega (arith, n))) ta,
          ),
          λ p n.
              let none = copies-fill p z upright in
              still p (omega (arith, n)) ∙ t.still p (omega (arith, n)),
        )

  -- `rb_rotate_left` at a node anywhere in a tree.
  pub rotate_left-Leads :
      Stands m (fill z upright)
      → (m' : Store) × (rotate_left e.at (root_of z e.at) m ≡ ok (root_of z el.at) m')
        × Leads m (fill z upright) m' (fill z rotated)
  rotate_left-Leads h =
      let once : (p : Ptr) → copies_up p z + copies p upright ≤ 1 =
        λ p. omega (arith, h.apart p, copies-fill p z upright) in
      let (m4, t) = turn once (Tied-split m z upright h.tied).1 in
      let (m', run, tied, kept) = finish once m4 t h.tied in
      (
        m',
        run,
        record {
          stands = record {
            tied = tied;
            apart = λ p. omega (arith, once p, copies-fill p z rotated);
          };
          order =
              entries-fill z rotated upright
                (append_assoc (entries y) (e ∷ entries b) (el ∷ entries a));
          kept = kept;
        },
      )
