-- ===== src/Examples/TimebaseCases.antt =====
-- The timebase at concrete inputs.
use free_rtos_tsn_compatibil.Prelude.{
  ◌+◌, ◌*◌, ◌≤◌, ◌<◌, ◌≡◌, ◌↔◌, refl, true, some, List, [], ◌∷◌, arith,
}
use free_rtos_tsn_compatibil.Timebase.{
  Timespec, timespec_sum, timespec_diff, timespec_div, timespec_cmp, greater, same, less,
}
use free_rtos_tsn_compatibil.Timebase.Arith.{
  nanoseconds, IsNormal, sum_exact, diff_exact, cmp_order, div_lem,
}
use free_rtos_tsn_compatibil.Timebase.Handle.{
  TimebaseHandle, enabled, initial, set_all, timebase_handle_set, timebase_get_state,
  timebase_start, timebase_set_time, timebase_get_time, timebase_adj_time, enabled_calls,
}

abbrev early : Timespec
early = record { tv_sec = 3; tv_nsec = 700_000_000 }

abbrev late : Timespec
late = record { tv_sec = 4; tv_nsec = 600_000_000 }

abbrev last : Timespec
last = record { tv_sec = 4_294_967_295; tv_nsec = 500_000_000 }

sum_runs : timespec_sum early late ≡ (record { tv_sec = 8; tv_nsec = 300_000_000 }, true)
unfolding timespec_sum
sum_runs = refl

sum_exact_example :
    (nanoseconds (timespec_sum early late).0 ≡ nanoseconds early + nanoseconds late)
    × IsNormal (timespec_sum early late).0
    × ((timespec_sum early late).1 ≡ true)
sum_exact_example = sum_exact early late (omega arith) (omega arith) (omega arith)

diff_exact_example :
    (nanoseconds (timespec_diff late early).0 + nanoseconds early ≡ nanoseconds late)
    × IsNormal (timespec_diff late early).0
diff_exact_example = diff_exact late early (omega arith) (omega arith) (omega arith)

cmp_order_example :
    ((timespec_cmp early late ≡ greater) ↔ (nanoseconds late < nanoseconds early))
    × ((timespec_cmp early late ≡ same) ↔ (nanoseconds early ≡ nanoseconds late))
    × ((timespec_cmp early late ≡ less) ↔ (nanoseconds early < nanoseconds late))
cmp_order_example = cmp_order early late (omega arith) (omega arith)

div_lem_example :
    let (r, done) = timespec_div late 3 in
    (nanoseconds r * 3 ≤ nanoseconds late)
    × (nanoseconds late < nanoseconds r * 3 + 3 * 3)
    × IsNormal r
    × (done ≡ true)
div_lem_example = div_lem late 3 (omega arith) (omega arith)

abbrev pub board : TimebaseHandle
board = record { fn_start = 1; fn_stop = 2; fn_set_time = 3; fn_get_time = 4; fn_adj_time = 5 }

-- The first handle lacks a function, and the second takes effect.
abbrev pub attempts : List TimebaseHandle
attempts = record board { fn_stop = 0 } ∷ board ∷ []

pub attempts_enable : timebase_get_state (set_all initial attempts) ≡ enabled
unfolding set_all timebase_get_state
attempts_enable = unfold initial timebase_handle_set in refl

enabled_calls_example :
    let t = set_all initial attempts in
    (timebase_start t ≡ some t.handle.fn_start)
    × (timebase_set_time t ≡ some t.handle.fn_set_time)
    × (timebase_get_time t ≡ some t.handle.fn_get_time)
    × (timebase_adj_time t ≡ some t.handle.fn_adj_time)
enabled_calls_example = enabled_calls attempts attempts_enable
