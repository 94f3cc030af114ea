-- ===== src/Trace/Counters.antt =====
-- `CounterToFeature` of FuzzerTracePC.h.
pub mod Laws
use pfuzzer.Base.{ℕ, zero, leb, ◌==◌, Bool, if◌then◌else◌, Option, none, some}

-- `CounterToFeature`, whose assertion is that the counter is not 0.
unfoldable pub counter_to_feature : ℕ → Option ℕ
counter_to_feature counter =
    if counter == 0
    then none
    else if leb 128 counter
    then some 7
    else if leb 32 counter
    then some 6
    else if leb 16 counter
    then some 5
    else if leb 8 counter
    then some 4
    else if leb 4 counter
    then some 3
    else if leb 3 counter
    then some 2
    else if leb 2 counter
    then some 1
    else some 0
