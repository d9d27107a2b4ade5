-- ===== src/Tests/Clock.antt =====
-- Stamps and the clock.
use orgsync.Base.{
  ◌+◌, ◌≤◌, ◌≡◌, refl, lt, inl, List, [], ◌∷◌, codes, compare_list, nat_ord, max, arith,
}
use orgsync.Hlc.{
  Hlc, compare_hlc, hex_digit, hex_padded, to_hex, tick, observe, u32_max, max_clock_drift_ms,
}
use orgsync.Hlc.Hex.{compare-to_hex}
use orgsync.Hlc.Progress.{
  compare-tick, tick_exhausted, observe-wall_ms-le, Event, write, seen, run, Ascending,
  run-Ascending,
}

abbrev early : Hlc
early = record { wall_ms = 1700000000123; counter = 4 }

abbrev late : Hlc
late = record { wall_ms = 1700000000123; counter = 5 }

to_hex-early : to_hex early ≡ codes "0000018bcfe5687b00000004"
unfolding to_hex hex_padded hex_digit
to_hex-early = refl

compare-to_hex_example : compare_list (to_hex early) (to_hex late) ≡ compare_hlc early late
compare-to_hex_example = compare-to_hex early late (omega arith) (omega arith)

compare-tick_example : compare_hlc late (tick 5 late) ≡ lt
compare-tick_example = compare-tick 5 late (inl (omega arith))

abbrev spent : Hlc
spent = record { wall_ms = 9000; counter = u32_max }

tick_exhausted_example : tick 8000 spent ≡ spent
tick_exhausted_example = tick_exhausted 8000 spent refl (omega arith)

observe-wall_ms-le_example :
    (observe 5 early late).wall_ms ≤ max early.wall_ms (5 + max_clock_drift_ms)
observe-wall_ms-le_example = observe-wall_ms-le 5 early late

abbrev calls : List Event
calls = write 7 ∷ seen 8 late ∷ write 3 ∷ write 1700000000999 ∷ []

run-Ascending_example : Ascending early (run early calls)
run-Ascending_example = run-Ascending 5 early calls (omega arith) (omega arith) (omega arith, tt)
