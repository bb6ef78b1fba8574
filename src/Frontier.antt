-- ===== src/Frontier.antt =====
-- `build_cdc_frontier` of src/dataguard/checker.py: whether the recorded positions of the source log,
-- the outbox, the Kafka topic and the target bound what a check has seen. The dictionaries that it
-- reads are records here, as the functions that make them fill them; each keeps the dictionary itself
-- for the report.
pub mod Steps
pub mod Bounded
use kube_data_guard.Common.{
  ℕ, ◌==◌, Bool, true, false, not, ◌&&◌, ◌||◌, Option, none, some, String, List, [], ◌∷◌, ◌++◌,
  is_empty, if◌then◌else◌,
}
use kube_data_guard.Common.Int.{ℤ, pos, ◌-ℤ◌, ltb_ℤ, eqb_ℤ}
use kube_data_guard.Python.{
  int_text, Json, JsonFields, field, no_fields, object, null, text, text?, integer?,
}
use kube_data_guard.Python.Clock.{Instant, iso}
use kube_data_guard.Merkle.{◌&◌}

pub record PublishedOffset : Type 0 where
  pub topic : Option String
  pub partition : Option ℤ
  pub max_published_offset : Option ℤ

pub record AppliedOffset : Type 0 where
  pub topic : Option String
  pub partition : Option ℤ
  pub max_applied_offset : Option ℤ

pub record PartitionOffsets : Type 0 where
  pub partition : Option ℤ
  pub end_offset : Option ℤ

-- A count that the dictionary lacks is 0, and so is one of an absent dictionary.
pub record Outbox : Type 0 where
  pub available : Bool
  pub published_count : ℤ
  pub unpublished_count : ℤ
  pub offset_recorded_count : ℤ
  pub published_offsets : List PublishedOffset
  pub payload : Json

pub record StreamOffsets : Type 0 where
  pub event_count : Option ℤ
  pub offset_start : Option ℤ
  pub offset_end : Option ℤ
  pub partitions : Option ℤ
  pub partition_offsets : List PartitionOffsets
  pub payload : Json

pub record TargetFrontier : Type 0 where
  pub available : Bool
  pub applied_offsets : List AppliedOffset
  pub payload : Json

pub record Positions : Type 0 where
  pub source_lsn : Option String
  pub source_watermark : Option String
  pub outbox : Option Outbox
  pub offsets : StreamOffsets
  pub stream_topic : String
  pub target_read_at : Instant
  pub target_frontier : Option TargetFrontier

pub data FrontierStatus : Type 0 where
  bounded partial unavailable : FrontierStatus

-- The variables `status` and `reasons`.
pub record Progress : Type 0 where
  pub status : FrontierStatus
  pub reasons : List String

abbrev pub start : Progress
start = record { status = bounded; reasons = [] }

abbrev pub degrade : String → Progress → Progress
degrade reason p = record { status = partial; reasons = p.reasons ++ reason ∷ [] }

abbrev pub has_text : Option String → Bool
has_text none = false
has_text (some s) = not (s == "")

abbrev pub outbox_available : Option Outbox → Bool
outbox_available none = false
outbox_available (some o) = o.available

abbrev pub target_available : Option TargetFrontier → Bool
target_available none = false
target_available (some t) = t.available

abbrev pub published_count : Option Outbox → ℤ
published_count none = pos 0
published_count (some o) = o.published_count

abbrev pub unpublished_count : Option Outbox → ℤ
unpublished_count none = pos 0
unpublished_count (some o) = o.unpublished_count

abbrev pub offset_recorded_count : Option Outbox → ℤ
offset_recorded_count none = pos 0
offset_recorded_count (some o) = o.offset_recorded_count

abbrev pub published_offsets : Option Outbox → List PublishedOffset
published_offsets none = []
published_offsets (some o) = o.published_offsets

abbrev pub applied_offsets : Option TargetFrontier → List AppliedOffset
applied_offsets none = []
applied_offsets (some t) = t.applied_offsets

abbrev pub same_number : Option ℤ → Option ℤ → Bool
same_number none none = true
same_number (some a) (some b) = eqb_ℤ a b
same_number _ _ = false

abbrev pub same_topic : Option String → Option String → Bool
same_topic none none = true
same_topic (some a) (some b) = a == b
same_topic _ _ = false

-- `partition_ends.get((stream_topic, partition))`: the last entry for a partition counts.
unfoldable pub end_of : Option ℤ → List PartitionOffsets → Option ℤ → Option ℤ
end_of partition [] found = found
end_of partition (p ∷ ps) found =
    end_of partition ps (if same_number p.partition partition then p.end_offset else found)

-- `target_offsets.get((topic, partition))`
unfoldable pub applied_of : Option String → Option ℤ → List AppliedOffset → Option ℤ → Option ℤ
applied_of topic partition [] found = found
applied_of topic partition (a ∷ as') found = applied_of topic partition as' (
    if same_topic a.topic topic && same_number a.partition partition
    then a.max_applied_offset
    else found)

abbrev pub shown_number : Option ℤ → String
shown_number none = "None"
shown_number (some i) = int_text i

unfoldable pub check_lsn : Option String → Progress → Progress
check_lsn source_lsn p = if has_text source_lsn then p else degrade "source WAL LSN unavailable" p

unfoldable pub check_outbox : Option Outbox → Progress → Progress
check_outbox outbox p =
    if outbox_available outbox then p else degrade "source outbox frontier unavailable" p

unfoldable pub check_unpublished : Option Outbox → Progress → Progress
unfolding int_text
check_unpublished outbox p =
    if outbox_available outbox && ltb_ℤ (pos 0) (unpublished_count outbox)
    then degrade (int_text (unpublished_count outbox) & " eligible outbox events are unpublished") p
    else p

unfoldable pub check_recorded : Option Outbox → Progress → Progress
unfolding int_text ◌-ℤ◌
check_recorded outbox p =
    if outbox_available outbox && ltb_ℤ (offset_recorded_count outbox) (published_count outbox)
    then degrade
        (int_text (published_count outbox -ℤ offset_recorded_count outbox)
          & " published outbox events have no Kafka offset evidence")
        p
    else p

abbrev pub count_message : ℤ → ℤ → String
count_message events published =
    "Kafka topic exposes "
    & int_text events
    & " events but outbox has "
    & int_text published
    & " published events"

unfoldable pub check_stream : Option Outbox → Option ℤ → Option ℤ → Option ℤ → Progress → Progress
unfolding int_text
check_stream outbox (some count) (some first) (some last) p =
    if outbox_available outbox && ltb_ℤ count (published_count outbox)
    then degrade (count_message count (published_count outbox)) p
    else p
check_stream outbox _ _ _ p = degrade "Kafka topic offset frontier unavailable" p

unfoldable pub check_target : Option TargetFrontier → Progress → Progress
check_target target p =
    if target_available target then p else degrade "target applied-offset frontier unavailable" p

abbrev pub covered_message : String → Option ℤ → String → ℤ → ℤ → String
covered_message what partition which offset published =
    what
    & shown_number partition
    & which
    & int_text offset
    & " does not cover published outbox offset "
    & int_text published

-- What the target has applied of a partition with that published offset.
unfoldable pub check_applied :
    Option TargetFrontier → Option String → Option ℤ → ℤ → Progress → Progress
unfolding applied_of int_text
check_applied target topic partition published p =
    if target_available target
    then elim (applied_of topic partition (applied_offsets target) none) [
      | none ↦
          degrade
            ("target partition " & shown_number partition & " applied-offset frontier unavailable")
            p
      | some applied ↦
          if ltb_ℤ applied published
          then degrade
              (covered_message "target partition " partition " applied offset " applied published) p
          else p
    ]
    else p

-- One partition of the outbox's frontier: `continue` leaves the rest of the round out.
unfoldable pub check_covered :
    Option TargetFrontier → PublishedOffset → Option ℤ → Option ℤ → Progress → Progress
unfolding check_applied
check_covered target item (some end_offset) (some published) p =
    check_applied target item.topic item.partition published (
      if ltb_ℤ published end_offset
      then p
      else degrade
          (covered_message "Kafka partition " item.partition " end offset " end_offset published) p)
check_covered target item _ _ p =
    degrade ("Kafka partition " & shown_number item.partition & " frontier unavailable") p

-- The reason leaves out the two topics that the code quotes in it.
unfoldable pub check_published : Positions → PublishedOffset → Progress → Progress
unfolding check_covered end_of
check_published c item p =
    if same_topic item.topic (some c.stream_topic)
    then check_covered c.target_frontier item
        (end_of item.partition c.offsets.partition_offsets none) item.max_published_offset p
    else degrade "outbox event frontier is for another topic than the configured topic" p

unfoldable pub check_all_published : Positions → List PublishedOffset → Progress → Progress
unfolding check_published
check_all_published c [] p = p
check_all_published c (item ∷ items) p = check_all_published c items (check_published c item p)

-- The variables when all the checks are made.
unfoldable pub gather : Positions → Progress
unfolding check_lsn check_outbox check_unpublished check_recorded check_stream check_target
    check_all_published
gather c = check_all_published c (published_offsets c.outbox) (
    check_target c.target_frontier (
      check_stream c.outbox c.offsets.event_count c.offsets.offset_start c.offsets.offset_end (
        check_recorded c.outbox
          (check_unpublished c.outbox (check_outbox c.outbox (check_lsn c.source_lsn start))))))

abbrev pub is_absent : Option ℤ → Bool
is_absent none = true
is_absent (some i) = false

unfoldable pub frontier_status : Positions → FrontierStatus
unfolding gather
frontier_status c =
    if not (has_text c.source_lsn)
      && (not (outbox_available c.outbox) && is_absent c.offsets.event_count)
    then unavailable
    else (gather c).status

abbrev pub status_text : FrontierStatus → String
status_text bounded = "bounded"
status_text partial = "partial"
status_text unavailable = "unavailable"

-- `"; ".join(reasons)`
abbrev pub join_reasons : List String → String
join_reasons [] = ""
join_reasons (r ∷ []) = r
join_reasons (r ∷ s ∷ rs) = r & "; " & join_reasons (s ∷ rs)

abbrev pub outbox_payload : Option Outbox → Json
outbox_payload none = null
outbox_payload (some o) = o.payload

abbrev pub target_payload : Option TargetFrontier → Json
target_payload none = null
target_payload (some t) = t.payload

abbrev pub reason_text : List String → String
reason_text reasons =
    if is_empty reasons
    then "source WAL, outbox, Kafka topic, and target applied-offset frontiers bound this check"
    else join_reasons reasons

unfoldable pub build_cdc_frontier : Positions → JsonFields
unfolding frontier_status iso
build_cdc_frontier c = field "mode" (text "postgres-wal+outbox+kafka") (
    field "status" (text (status_text (frontier_status c))) (
      field "reason" (text (reason_text (gather c).reasons)) (
        field "source"
          (object (
            field "system" (text "postgres") (
              field "lsn" (text? c.source_lsn)
                (field "watermark" (text? c.source_watermark) no_fields))))
          (field "outbox" (outbox_payload c.outbox) (
            field "stream"
              (object (
                field "system" (text "kafka") (
                  field "topic" (text c.stream_topic) (
                    field "offset_start" (integer? c.offsets.offset_start) (
                      field "offset_end" (integer? c.offsets.offset_end) (
                        field "partitions" (integer? c.offsets.partitions) (
                          field "event_count" (integer? c.offsets.event_count)
                            (field "partition_offsets" c.offsets.payload no_fields))))))))
              (field "target"
                (object (
                  field "read_at" (text (iso c.target_read_at)) (
                    field "frontier" (target_payload c.target_frontier)
                      (field "offset_gap_proof" (text "max-offset-watermark-only") no_fields))))
                no_fields))))))
