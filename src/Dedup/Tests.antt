-- ===== src/Dedup/Tests.antt =====
-- src/delivery/deduplication.rs: runs on concrete windows, and the theorems at them.
use meilibridge.Prelude.{
  ◌+◌, ◌≡◌, refl, true, false, some, none, List, [], ◌∷◌, arith, length, member, String,
}
use meilibridge.Prelude.Map
use meilibridge.Dedup.Key.{DeduplicationKey, key_eq, key_eqb}
use meilibridge.Dedup.{new, contains, add, adds}
use meilibridge.Dedup.Window.{IsWindow, add-IsWindow, new-IsWindow, adds-IsWindow}
use meilibridge.Dedup.Memory.{contains_sound}
use meilibridge.Dedup.Leak.{duplicate_never_forgotten}
use meilibridge.Dedup.Exact.{window_of_stream, last_keys}
use meilibridge.Dedup.Balance.{statistics_balance}

abbrev event : String → DeduplicationKey
event lsn = record { lsn = lsn; xid = none; table = "users"; primary_key = some "1" }

abbrev three : List DeduplicationKey
three = event "0/1" ∷ event "0/2" ∷ event "0/3" ∷ []

oldest_evicted :
    (contains (adds (new 2) three) (event "0/1") ≡ false)
    × (contains (adds (new 2) three) (event "0/2") ≡ true)
unfolding contains adds add new Map.contains Map.lookup Map.insert Map.remove key_eqb
oldest_evicted = (refl, refl)

abbrev doubled : List DeduplicationKey
doubled = event "0/1" ∷ event "0/1" ∷ []

doubled_count : Map.lookup (event "0/1") (adds (new 2) doubled).key_set ≡ some 2
unfolding adds add new Map.lookup Map.insert key_eqb
doubled_count = refl

add-IsWindow_example : IsWindow (add (adds (new 2) three) (event "0/1"))
add-IsWindow_example =
    add-IsWindow (adds (new 2) three) (event "0/1") (adds-IsWindow (new 2) three (new-IsWindow 2))

contains_sound_example :
    (contains (add (adds (new 2) three) (event "0/9")) (event "0/9") ≡ true)
    × (contains (adds (new 2) three) (event "0/9") ≡ true → member (event "0/9") three ≡ true)
contains_sound_example = contains_sound 2 three (event "0/9")

-- Two windows of other events have passed, and the key is still there.
duplicate_never_forgotten_example :
    contains
      (adds (adds (new 2) doubled) (event "0/2" ∷ event "0/3" ∷ event "0/4" ∷ []))
      (event "0/1")
    ≡ true
duplicate_never_forgotten_example =
    duplicate_never_forgotten (adds (new 2) doubled) (event "0/1") 2
      (event "0/2" ∷ event "0/3" ∷ event "0/4" ∷ [])
      (adds-IsWindow (new 2) doubled (new-IsWindow 2)) doubled_count (omega arith) (omega arith)

window_of_stream_example :
    ((adds (new 2) three).key_queue ≡ last_keys 2 three)
    × ((k : DeduplicationKey) → contains (adds (new 2) three) k ≡ member k (last_keys 2 three))
unfolding key_eqb
window_of_stream_example = window_of_stream 2 three (omega arith) (refl, (refl, (refl, tt)))

statistics_balance_example :
    let d = adds (new 2) three in
    (d.stats.total_events ≡ 3)
    × (d.stats.duplicate_events + d.stats.window_evictions + length d.key_queue ≡ 3)
statistics_balance_example = statistics_balance 2 three (omega arith)
