-- ===== src/Metrics/Shown.antt =====
-- What the gauges should show after a list of reports, said by the reports alone.
use distribd.Prelude.{
  ℕ, ◌^◌, String, Option, none, some, List, [], ◌∷◌, Bool, true, false, if◌then◌else◌, ltb, nat_eq,
  ◌==◌, ◌≡◌,
}
use distribd.Prelude.Map
use distribd.Prelude.Map.{Map, or_else, lookup-insert, lookup-nil, HasUniqueKeys}
use distribd.Raft.{LogId}
use distribd.Metrics.{RaftMetrics, StorageMetrics, Gauge, registered, Family, registered_families}

-- a number that an i64 holds
abbrev pub fits : ℕ → Option ℕ
fits value = if ltb value (2 ^ 63) then some value else none

abbrev pub fitting : Option ℕ → Option ℕ
fitting none = none
fitting (some value) = fits value

abbrev pub index_of : Option LogId → Option ℕ
index_of none = none
index_of (some log) = fits log.index

abbrev pub term_of : Option LogId → Option ℕ
term_of none = none
term_of (some log) = fits log.leader_id.term

abbrev pub value_or : ℕ → Option ℕ → ℕ
value_or gauge none = gauge
value_or gauge (some value) = value

-- the number of the last report that has one
abbrev pub latest : (RaftMetrics → Option ℕ) → List RaftMetrics → Option ℕ
latest read [] = none
latest read (report ∷ reports) = or_else (latest read reports) (read report)

abbrev pub leads : Option (Map ℕ (Option LogId)) → Bool
leads none = false
leads (some peers) = true

abbrev pub all_lead : List RaftMetrics → Bool
all_lead [] = true
all_lead (report ∷ reports) = if leads report.replication then all_lead reports else false

-- the reports after the last one in which the node did not lead
abbrev pub reign : List RaftMetrics → List RaftMetrics
reign [] = []
reign (report ∷ reports) = if all_lead (report ∷ reports) then report ∷ reports else reign reports

-- what a leader's report says of a node: as a peer, or of itself
abbrev pub peer_index : Option (Option LogId) → Option ℕ
peer_index none = none
peer_index (some log) = index_of log

abbrev pub reported : ℕ → Option (Map ℕ (Option LogId)) → Option ℕ
reported node none = none
reported node (some peers) = peer_index (Map.lookup node peers)

abbrev pub own : ℕ → ℕ → Option ℕ → Option ℕ
own node id value = if id == node then value else none

abbrev pub node_index : ℕ → RaftMetrics → Option ℕ
node_index node report =
    or_else (reported node report.replication) (own node report.id (fitting report.last_log_index))

abbrev pub node_term : ℕ → RaftMetrics → Option ℕ
node_term node report = own node report.id (fits report.current_term)

-- The gauge of that name and help text shows the last number that the reports have, or 0.
abbrev pub gauge_of : String → String → (RaftMetrics → Option ℕ) → List RaftMetrics → Gauge
gauge_of name help read reports = record {
  name = name;
  help = help;
  value = value_or 0 (latest read reports);
}

-- The family of that name and help text shows, for each node, the last number of the current reign.
pub record IsFamily (name help : String) (read : ℕ → RaftMetrics → Option ℕ)
    (reports : List RaftMetrics) (family : Family) : Type 0 where
  pub named : family.name ≡ name
  pub described : family.help ≡ help
  pub shown : (node : ℕ) → Map.lookup node family.values ≡ latest (read node) (reign reports)

pub record IsShown (reports : List RaftMetrics) (m : StorageMetrics) : Type 0 where
  pub gauges :
      registered m
      ≡ gauge_of "commit_index" "The most recently commit" (λ r. fitting r.last_log_index) reports
        ∷ gauge_of "term" "The most recent term" (λ r. fits r.current_term) reports
        ∷ gauge_of "applied_index" "The latest applied log entry in the journal"
            (λ r. index_of r.last_applied)
            reports
        ∷ gauge_of "applied_term" "The latest applied term" (λ r. term_of r.last_applied) reports
        ∷ gauge_of "snapshot_index" "The last log entry of the most recent snapshot"
            (λ r. index_of r.snapshot)
            reports
        ∷ gauge_of "snapshot_term" "The term of the most recent snapshot"
            (λ r. term_of r.snapshot)
            reports
        ∷ []
  pub families :
      (indexes terms : Family) × (registered_families m ≡ indexes ∷ terms ∷ [])
      × IsFamily "matched_index" "Agreed indexes" node_index reports indexes
      × IsFamily "matched_term" "Agreed terms" node_term reports terms

-- each report on replication has a peer at most once
abbrev pub HasUniquePeers : RaftMetrics → Type 0
HasUniquePeers report = Unique report.replication
  where
    Unique : Option (Map ℕ (Option LogId)) → Type 0
    Unique none = Unit
    Unique (some peers) = HasUniqueKeys peers
