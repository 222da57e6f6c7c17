-- ===== src/Metrics.antt =====
-- src/store/metrics.rs: the gauges of a node, and the task that sets them from the reports of openraft.
-- A gauge is an i64 that is never negative here, and a number from 2 ^ 63 on is not set.
pub mod Shown
pub mod Families
pub mod Latest
use distribd.Prelude.{ℕ, ◌^◌, String, Option, none, some, List, [], ◌∷◌, if◌then◌else◌, ltb, nat_eq}
use distribd.Prelude.Map
use distribd.Prelude.Map.{Map}
use distribd.Raft.{LogId}

-- what the task reads of openraft's `RaftMetrics`: only a leader reports on replication
pub record RaftMetrics : Type 0 where
  pub id : ℕ
  pub current_term : ℕ
  pub last_log_index : Option ℕ
  pub last_applied : Option LogId
  pub snapshot : Option LogId
  pub replication : Option (Map ℕ (Option LogId))

-- the families by the node of their labels
pub record StorageMetrics : Type 0 where
  pub hs_index : ℕ
  pub hs_term : ℕ
  pub applied_index : ℕ
  pub applied_term : ℕ
  pub matched_term : Map ℕ ℕ
  pub matched_index : Map ℕ ℕ
  pub snapshot_index : ℕ
  pub snapshot_term : ℕ
  pub flushed_bytes : ℕ

abbrev pub new_metrics : StorageMetrics
new_metrics = record {
  hs_index = 0;
  hs_term = 0;
  applied_index = 0;
  applied_term = 0;
  matched_term = [];
  matched_index = [];
  snapshot_index = 0;
  snapshot_term = 0;
  flushed_bytes = 0;
}

-- The gauges as `new` registers them, under the prefix "distribd_storage".
pub record Gauge : Type 0 where
  pub name : String
  pub help : String
  pub value : ℕ

abbrev pub registered : StorageMetrics → List Gauge
registered m =
    record { name = "commit_index"; help = "The most recently commit"; value = m.hs_index }
    ∷ record { name = "term"; help = "The most recent term"; value = m.hs_term }
    ∷ record {
      name = "applied_index";
      help = "The latest applied log entry in the journal";
      value = m.applied_index;
    }
    ∷ record { name = "applied_term"; help = "The latest applied term"; value = m.applied_term }
    ∷ record {
      name = "snapshot_index";
      help = "The last log entry of the most recent snapshot";
      value = m.snapshot_index;
    }
    ∷ record {
      name = "snapshot_term";
      help = "The term of the most recent snapshot";
      value = m.snapshot_term;
    }
    ∷ []

-- the families of gauges, by the labels
pub record Family : Type 0 where
  pub name : String
  pub help : String
  pub values : Map ℕ ℕ

abbrev pub registered_families : StorageMetrics → List Family
registered_families m =
    record { name = "matched_index"; help = "Agreed indexes"; values = m.matched_index }
    ∷ record { name = "matched_term"; help = "Agreed terms"; values = m.matched_term }
    ∷ []

-- `if let Ok(value) = value.try_into() { gauge.set(value) }`
abbrev pub set : ℕ → ℕ → ℕ
set value gauge = if ltb value (2 ^ 63) then value else gauge

abbrev pub set_index : Option ℕ → ℕ → ℕ
set_index none gauge = gauge
set_index (some index) gauge = set index gauge

abbrev pub set_log_index : Option LogId → ℕ → ℕ
set_log_index none gauge = gauge
set_log_index (some log) gauge = set log.index gauge

abbrev pub set_log_term : Option LogId → ℕ → ℕ
set_log_term none gauge = gauge
set_log_term (some log) gauge = set log.leader_id.term gauge

abbrev pub set_node : ℕ → ℕ → Map ℕ ℕ → Map ℕ ℕ
set_node node value family = if ltb value (2 ^ 63) then Map.insert node value family else family

abbrev pub set_own : ℕ → Option ℕ → Map ℕ ℕ → Map ℕ ℕ
set_own node none family = family
set_own node (some index) family = set_node node index family

-- the `for` loop over the peers
unfoldable pub set_peers : Map ℕ (Option LogId) → Map ℕ ℕ → Map ℕ ℕ
set_peers [] family = family
set_peers ((peer, none) ∷ peers) family = set_peers peers family
set_peers ((peer, some log) ∷ peers) family = set_peers peers (set_node peer log.index family)

-- the families, which a node that does not lead clears
abbrev pub terms : RaftMetrics → Option (Map ℕ (Option LogId)) → Map ℕ ℕ → Map ℕ ℕ
terms report none family = []
terms report (some peers) family = set_node report.id report.current_term family

abbrev pub indexes : RaftMetrics → Option (Map ℕ (Option LogId)) → Map ℕ ℕ → Map ℕ ℕ
indexes report none family = []
indexes report (some peers) family =
    set_peers peers (set_own report.id report.last_log_index family)

abbrev pub observe : RaftMetrics → StorageMetrics → StorageMetrics
observe report m = record {
  hs_index = set_index report.last_log_index m.hs_index;
  hs_term = set report.current_term m.hs_term;
  applied_index = set_log_index report.last_applied m.applied_index;
  applied_term = set_log_term report.last_applied m.applied_term;
  matched_term = terms report report.replication m.matched_term;
  matched_index = indexes report report.replication m.matched_index;
  snapshot_index = set_log_index report.snapshot m.snapshot_index;
  snapshot_term = set_log_term report.snapshot m.snapshot_term;
  flushed_bytes = m.flushed_bytes;
}

-- the `while` loop, over the reports that the task gets to see
unfoldable pub start_watching_metrics : List RaftMetrics → StorageMetrics → StorageMetrics
start_watching_metrics [] m = m
start_watching_metrics (report ∷ reports) m = start_watching_metrics reports (observe report m)
