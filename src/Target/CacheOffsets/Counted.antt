-- ===== src/Target/CacheOffsets/Counted.antt =====
-- What the loop of the cache's offset frontier keeps.
use kube_data_guard.Common.{◌≡◌, ℕ, ◌+◌, Option, none, some, List, [], ◌∷◌, All}
use kube_data_guard.Common.Int.{ℤ}
use kube_data_guard.Python.{Value, Row}
use kube_data_guard.Target.CacheOffsets.{AppliedPosition, Offsets, given_value}

-- The events that the partitions count together.
unfoldable pub total_applied : List AppliedPosition → ℕ
total_applied [] = 0
total_applied (a ∷ xs) = a.event_count + total_applied xs

abbrev pub HasOffset : AppliedPosition → Type 0
HasOffset a = (m : ℤ) × (a.max_applied_offset ≡ some m)

-- What the loop keeps: the partitions count every event, and each of them has an offset.
pub record IsCounted (s : Offsets) : Type 0 where
  pub total : total_applied s.offsets ≡ s.count
  pub maxima : All HasOffset s.offsets

-- The documents that carry a topic, a partition and an offset.
unfoldable pub position_count : Option Value → Option Value → Option Value → ℕ
position_count (some t) (some p) (some o) = 1
position_count none p o = 0
position_count (some t) none o = 0
position_count (some t) (some p) none = 0

unfoldable pub positions : List (Option Row) → ℕ
unfolding position_count given_value
positions [] = 0
positions (none ∷ ds) = positions ds
positions (some d ∷ ds) =
    position_count (given_value "dataguard_topic" d) (given_value "dataguard_partition" d)
      (given_value "dataguard_offset" d)
    + positions ds
