-- ===== src/LinkedList/Tests.antt =====
-- A list of two entries, and the theorems at it.
use simple_timer.Prelude.{◌≡◌, refl, none, some, [], ◌∷◌, arith, ◌==◌, if◌then◌else◌}
use simple_timer.Machine.{ok}
use simple_timer.LinkedList.{Memory, list_add, list_del, poison_1, poison_2}
use simple_timer.LinkedList.Ring.{links, IsRing}
use simple_timer.LinkedList.Insert.{IsNew, list_add-IsRing}
use simple_timer.LinkedList.Remove.{list_del-IsRing}

-- The head at 100, entries at 1 and 2, and a place for another at 3.
abbrev two_entries : Memory
two_entries p =
    if p == 100
    then some (record { next = 1; prev = 2 })
    else if p == 1
    then some (record { next = 2; prev = 100 })
    else if p == 2
    then some (record { next = 100; prev = 1 })
    else if p == 3
    then some (record { next = 0; prev = 0 })
    else none

two_entries-IsRing : IsRing two_entries 100 (1 ∷ 2 ∷ [])
two_entries-IsRing = record {
  chain = (refl, refl, (refl, refl, (refl, refl)));
  distinct = (refl, (refl, (refl, tt)));
  live = λ a h. ground arith;
}

three-IsNew : IsNew two_entries 3 100 (1 ∷ 2 ∷ [])
three-IsNew = record { fresh = refl; live = refl }

list_add-IsRing_example :
    (m' : Memory) × (list_add 3 100 two_entries ≡ ok tt m') × IsRing m' 100 (3 ∷ 1 ∷ 2 ∷ [])
list_add-IsRing_example =
    list_add-IsRing two_entries 3 100 (1 ∷ 2 ∷ []) two_entries-IsRing three-IsNew

list_del-IsRing_example :
    (m' : Memory) × (list_del 1 two_entries ≡ ok tt m')
    × IsRing m' 100 (2 ∷ [])
    × ((links m' 1).next ≡ poison_1)
    × ((links m' 1).prev ≡ poison_2)
list_del-IsRing_example = list_del-IsRing two_entries 100 1 [] (2 ∷ []) two_entries-IsRing
