-- ===== src/Api/Tests.antt =====
-- The order of times at the turn of a second.
use simple_timer.Prelude.{◌≡◌, true, ◌↔◌, ◌<◌, ◌+◌, ◌*◌, ◌^◌, not, arith}
use simple_timer.Api.{Timespec, less, great, gte}
use simple_timer.Api.Order.{less_iff_nanoseconds}

abbrev before_turn : Timespec
before_turn = record { tv_sec = 1; tv_nsec = 999999999 }

abbrev after_turn : Timespec
after_turn = record { tv_sec = 2; tv_nsec = 0 }

less_iff_nanoseconds_example :
    ((less before_turn after_turn ≡ true) ↔ (1 * 10 ^ 9 + 999999999 < 2 * 10 ^ 9 + 0))
    × (great before_turn after_turn ≡ less after_turn before_turn)
    × (gte before_turn after_turn ≡ not (less before_turn after_turn))
less_iff_nanoseconds_example =
    less_iff_nanoseconds before_turn after_turn (omega arith) (omega arith)
