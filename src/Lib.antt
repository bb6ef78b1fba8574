-- ===== src/Lib.antt =====
-- KubeDataGuard compares a source of truth, the orders in Postgres, with the views derived from it, and
-- repairs what differs. This library models the Python program under src/dataguard and proves what its
-- checks, scans and repairs promise.
--
-- The parts and how they meet. A check reads rows of the source, through a keyset scan where the query
-- is the user's, reads the target, and compares the two: each comparison returns a report. The report
-- carries an observation window with the evidence of the check, of which the frontier of the change
-- stream is one. A repair job reads the report's JSON, repairs the orders that it names, checks again,
-- and reports whether the verification is healthy.
--
-- Common: Booleans, lists, texts and integers that all parts share.
-- Python: what the program uses of Python: exceptions as values (`Outcome`), scalar values, dictionaries
--   in insertion order, JSON values, `sorted`, and instants as microseconds since year 1. A row is a
--   dictionary of scalars; floats and nested values are no cells. Interpolated parts of exception
--   messages are left out.
-- Invariants: src/dataguard/invariants.py. Report holds `DriftReport` and its items, Status the
--   counterexamples and JSON forms, Window `build_observation_window`; Existence, Query, Aggregate,
--   Checksum and Freshness hold one comparison each, with a function for one round of its loop and a
--   `traverse` for the loop. The keyword arguments of the window are the record `WindowArgs`, which also
--   holds the reading of the clock. Instants are unbounded: the OverflowError of a lag that reaches
--   before year 1 or past year 9999 is left out.
-- Merkle: src/dataguard/merkle.py. The digest is a parameter.
-- Frontier: `build_cdc_frontier` of src/dataguard/checker.py. The dictionaries that it reads are records;
--   the variables `status` and `reasons` are the record `Progress`, and each `if` is one function of it.
-- Scan: `execute_source_query_keyset` of src/dataguard/db.py and the checks of its arguments. The answer
--   of the database to a page's query is a parameter. The loop runs on fuel and gives `none` where the
--   fuel does not last; more fuel than there are rows left is enough, since each round that goes on has
--   read a row.
-- Repair: src/dataguard/repair.py. A repair is the list of the actions that it does, in order, and what
--   it returns or raises. `World` holds the settings, the clock, the environment and the answers of
--   Postgres, OpenSearch, Kafka, ClickHouse and the webhook. The rounds of `batches` are bounded by the
--   length of the list.
-- LocalDemo: src/dataguard/local_demo.py, without the JSON form of its result. Indexes are keyed by texts.
-- Target: the derived views, src/dataguard/search.py and src/dataguard/cache.py: the documents stored for an
--   order and the lookup of orders. The store is the interface `Store`, documents by key; a write that
--   fails leaves the state before. CacheOffsets is the frontier of the cache.
-- Pipeline: the consumers of the event topic, src/dataguard/indexer.py and src/dataguard/cache_indexer.py,
--   with `consume_events` of src/dataguard/events.py: one loop over the messages, with the counts, the
--   state of the store and the committed messages as the record `Progress`. What the broker gives is
--   `Polled`, messages and how the iteration over them ends; a write, a commit and the iteration may raise.
-- Events: `topic_offset_range` of src/dataguard/events.py. What the consumer answers is a parameter.
-- Search: the target queries of src/dataguard/search.py and its frontier of offsets. The search runs on
--   fuel; more than there are hits is enough, since each round that goes on has read a hit.
-- Checkpoints: src/dataguard/checkpoints.py, over the interface `Blobs` of files and S3 objects.
-- Checker: the checks of src/dataguard/checker.py. `Services` and `QueryServices` hold what the services
--   answer; the checks call the models above. Query is `check_query_invariant`, whose state is that of the
--   checkpoints. A check that raises tells no state: what it saved before is not followed.
-- Outbox: the tables of orders and of outbox events in src/dataguard/db.py, as lists, and the loop of
--   src/dataguard/generator.py, over what it draws. The SQL statements are functions of the tables.
-- Reporting: src/dataguard/reporting.py: the compact report, the objects in S3, and the retention of files.
-- KubeReport: src/dataguard/k8s_report.py: the repair candidates, and the requests for the ConfigMap.
-- Jobs: `check_invariant`, `guarantee_for_invariant` and the job results of src/dataguard/cli.py; CheckJob is
--   `run_check_job`, whose report is written by what is a parameter.
-- Tests: concrete inputs for the theorems.
--
-- Not modelled: the clients of OpenSearch, Redis, ClickHouse, Kafka and S3, the bodies of aggregations and
-- the other SQL of db.py, which are queries to services; the text and writing of report files, settings,
-- metrics, argument parsing, and the operator, which is in Go.
pub mod Common
pub mod Python
pub mod Invariants
pub mod Merkle
pub mod Frontier
pub mod Scan
pub mod Repair
pub mod LocalDemo
pub mod Jobs
pub mod Target
pub mod Pipeline
pub mod Events
pub mod Search
pub mod Checkpoints
pub mod Checker
pub mod KubeReport
pub mod Outbox
pub mod Reporting
pub mod Tests
