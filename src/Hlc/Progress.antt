-- ===== src/Hlc/Progress.antt =====
-- The clock moves forward with every stamp, and how far a peer can drag it.
use orgsync.Base.{ℕ, suc, ◌+◌, ◌≤◌, ◌<◌, ◌^◌, max, ◌≡◌, lt, ◌⊎◌, inl, List, [], ◌∷◌, length, arith}
use orgsync.Hlc.{
  Hlc, IsValid, compare_hlc, tick, observe, u32_max, max_clock_drift_ms, saturating_add64,
}

-- A stamp that can still be followed by another in its millisecond.
abbrev pub HasRoom : Hlc → Type 0
HasRoom h = h.counter < u32_max

-- A remote stamp inside the accepted drift window at the reading `phys`.
abbrev pub IsPlausible : ℕ → Hlc → Type 0
IsPlausible phys remote = remote.wall_ms ≤ saturating_add64 phys max_clock_drift_ms

-- A tick issues a stamp after the last one, unless the counter is exhausted and the system clock
-- has not moved on.
pub compare-tick :
    (phys : ℕ) (last : Hlc)
    → HasRoom last ⊎ (last.wall_ms < phys)
    → compare_hlc last (tick phys last) ≡ lt
unfolding tick compare_hlc
compare-tick phys last h = ground arith

-- With the counter exhausted and the system clock behind, a tick issues the last stamp again.
pub tick_exhausted :
    (phys : ℕ) (last : Hlc) → last.counter ≡ u32_max → phys ≤ last.wall_ms → tick phys last ≡ last
unfolding tick
tick_exhausted phys last full behind = ground arith

pub tick-IsValid : (phys : ℕ) (last : Hlc) → phys < 2 ^ 64 → IsValid last → IsValid (tick phys last)
unfolding tick
tick-IsValid phys last h v = ground arith

pub observe-IsValid :
    (phys : ℕ) (last remote : Hlc)
    → phys < 2 ^ 64
    → IsValid last
    → IsValid remote
    → IsValid (observe phys last remote)
unfolding observe
observe-IsValid phys last remote h v r = ground arith

-- Observing a stamp moves the clock after everything it held.
pub compare-observe :
    (phys : ℕ) (last remote : Hlc)
    → HasRoom last
    → HasRoom remote
    → compare_hlc last (observe phys last remote) ≡ lt
unfolding observe compare_hlc
compare-observe phys last remote h r = ground arith

-- Observing a plausible stamp also moves the clock after that stamp.
pub compare-observe_remote :
    (phys : ℕ) (last remote : Hlc)
    → HasRoom last
    → HasRoom remote
    → IsPlausible phys remote
    → compare_hlc remote (observe phys last remote) ≡ lt
unfolding observe compare_hlc
compare-observe_remote phys last remote h r p = ground arith

-- Whatever a peer sends, the clock goes no further than its own past and the drift window.
pub observe-wall_ms-le :
    (phys : ℕ) (last remote : Hlc)
    → (observe phys last remote).wall_ms ≤ max last.wall_ms (phys + max_clock_drift_ms)
unfolding observe
observe-wall_ms-le phys last remote = ground arith

-- One call of the clock: a local write, or a stamp seen from a peer.
pub data Event : Type 0 where
  write : ℕ → Event
  seen : ℕ → Hlc → Event

abbrev pub advance : Hlc → Event → Hlc
advance last (write phys) = tick phys last
advance last (seen phys remote) = observe phys last remote

-- The stamps that the clock returns over a life of calls.
pub run : Hlc → List Event → List Hlc
run last [] = []
run last (e ∷ events) = advance last e ∷ run (advance last e) events

abbrev pub Ascending : Hlc → List Hlc → Type 0
Ascending last [] = Unit {0}
Ascending last (h ∷ stamps) = (compare_hlc last h ≡ lt) × Ascending h stamps

-- The counters that peers send stay at most `c`.
abbrev pub CountersWithin : ℕ → List Event → Type 0
CountersWithin c [] = Unit {0}
CountersWithin c (write phys ∷ events) = CountersWithin c events
CountersWithin c (seen phys remote ∷ events) = (remote.counter ≤ c) × CountersWithin c events

counter-advance-le :
    (c : ℕ) (last : Hlc) (e : Event) (events : List Event)
    → last.counter ≤ c
    → CountersWithin c (e ∷ events)
    → (advance last e).counter ≤ suc c
unfolding tick observe
counter-advance-le c last (write phys) events h w = ground arith
counter-advance-le c last (seen phys remote) events h w = ground arith

CountersWithin-suc :
    (c : ℕ) (events : List Event) → CountersWithin c events → CountersWithin (suc c) events
CountersWithin-suc c [] w = tt
CountersWithin-suc c (write phys ∷ events) w = CountersWithin-suc c events w
CountersWithin-suc c (seen phys remote ∷ events) w = (omega arith, CountersWithin-suc c events w.1)

CountersWithin-tail :
    (c : ℕ) (e : Event) (events : List Event)
    → CountersWithin c (e ∷ events)
    → CountersWithin c events
CountersWithin-tail c (write phys) events w = w
CountersWithin-tail c (seen phys remote) events w = w.1

compare-advance :
    (c : ℕ) (last : Hlc) (e : Event) (events : List Event)
    → last.counter ≤ c
    → c < u32_max
    → CountersWithin c (e ∷ events)
    → compare_hlc last (advance last e) ≡ lt
compare-advance c last (write phys) events h small w = compare-tick phys last (inl (omega arith))
compare-advance c last (seen phys remote) events h small w =
    compare-observe phys last remote (omega arith) (omega arith)

-- The stamps issued over any interleaving of local writes and remote stamps ascend strictly, from
-- any state of the system clock, as long as the counters leave room for the calls.
pub run-Ascending :
    (c : ℕ) (last : Hlc) (events : List Event)
    → last.counter ≤ c
    → c + length events < u32_max
    → CountersWithin c events
    → Ascending last (run last events)
unfolding run
run-Ascending c last [] h small w = tt
run-Ascending c last (e ∷ events) h small w = (
  compare-advance c last e events h (omega arith) w,
  run-Ascending (suc c) (advance last e) events (counter-advance-le c last e events h w)
      (omega arith) (CountersWithin-suc c events (CountersWithin-tail c e events w)),
)
