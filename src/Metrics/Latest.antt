-- ===== src/Metrics/Latest.antt =====
-- What the gauges show after a list of reports.
use distribd.Prelude.{
  ℕ, ◌^◌, Option, none, some, List, [], ◌∷◌, ltb, nat_eq, ◌≡◌, refl, ap, ◌∙◌, inl, inr, Bool-cases,
  All,
}
use distribd.Prelude.Map
use distribd.Prelude.Map.{Map, or_else, lookup-insert, lookup-nil, HasUniqueKeys}
use distribd.Raft.{LogId}
use distribd.Metrics.{
  registered, RaftMetrics, StorageMetrics, new_metrics, set, set_index, set_log_index, set_log_term,
  observe, start_watching_metrics,
}
use distribd.Metrics.Shown.{
  fits, fitting, index_of, term_of, value_or, latest, node_index, node_term, IsShown,
  HasUniquePeers,
}
use distribd.Metrics.Families.{terms-step, indexes-step, family_latest}

gauge_latest :
    (gauge : StorageMetrics → ℕ) (read : RaftMetrics → Option ℕ)
    → ((r : RaftMetrics) (m : StorageMetrics) → gauge (observe r m) ≡ value_or (gauge m) (read r))
    → (reports : List RaftMetrics) (m : StorageMetrics)
    → gauge (start_watching_metrics reports m) ≡ value_or (gauge m) (latest read reports)
unfolding start_watching_metrics
gauge_latest gauge read step [] m = refl
gauge_latest gauge read step (r ∷ rs) m =
    gauge_latest gauge read step rs (observe r m)
    ∙ ap (λ g. value_or g (latest read rs)) (step r m)
    ∙ both (gauge m) (latest read rs) (read r)
  where
    both :
        (g : ℕ) (late early : Option ℕ)
        → value_or (value_or g early) late ≡ value_or g (or_else late early)
    both g none early = refl
    both g (some v) early = refl

set_value : (value gauge : ℕ) → set value gauge ≡ value_or gauge (fits value)
set_value value gauge = elim (Bool-cases (ltb value (2 ^ 63))) [
  | inl small ↦ rw small refl
  | inr large ↦ rw large refl
]

set_index_value : (i : Option ℕ) (gauge : ℕ) → set_index i gauge ≡ value_or gauge (fitting i)
set_index_value none gauge = refl
set_index_value (some i) gauge = set_value i gauge

set_log_index_value :
    (l : Option LogId) (gauge : ℕ) → set_log_index l gauge ≡ value_or gauge (index_of l)
set_log_index_value none gauge = refl
set_log_index_value (some l) gauge = set_value l.index gauge

set_log_term_value :
    (l : Option LogId) (gauge : ℕ) → set_log_term l gauge ≡ value_or gauge (term_of l)
set_log_term_value none gauge = refl
set_log_term_value (some l) gauge = set_value l.leader_id.term gauge

-- Each gauge, by the name and help text that it is registered with, shows the number of the last
-- report that has one which an i64 holds, and 0 before; what is registered as the commit index is the
-- index of the last log entry, committed or not. The two families show, for each node, the last such
-- number of the reports since the node last followed: its own term and index, and the indexes of its
-- peers, also of those that later reports do not have.
pub start_watching_metrics-IsShown :
    (reports : List RaftMetrics)
    → All HasUniquePeers reports
    → IsShown reports (start_watching_metrics reports new_metrics)
start_watching_metrics-IsShown reports u = record {
  gauges =
      let hs_index =
        gauge_latest (λ m. m.hs_index) (λ r. fitting r.last_log_index)
          (λ r m. set_index_value r.last_log_index m.hs_index) reports new_metrics in
      let hs_term =
        gauge_latest (λ m. m.hs_term) (λ r. fits r.current_term)
          (λ r m. set_value r.current_term m.hs_term) reports new_metrics in
      let applied_index =
        gauge_latest (λ m. m.applied_index) (λ r. index_of r.last_applied)
          (λ r m. set_log_index_value r.last_applied m.applied_index) reports new_metrics in
      let applied_term =
        gauge_latest (λ m. m.applied_term) (λ r. term_of r.last_applied)
          (λ r m. set_log_term_value r.last_applied m.applied_term) reports new_metrics in
      let snapshot_index =
        gauge_latest (λ m. m.snapshot_index) (λ r. index_of r.snapshot)
          (λ r m. set_log_index_value r.snapshot m.snapshot_index) reports new_metrics in
      let snapshot_term =
        gauge_latest (λ m. m.snapshot_term) (λ r. term_of r.snapshot)
          (λ r m. set_log_term_value r.snapshot m.snapshot_term) reports new_metrics in
      λ i. registered (record (start_watching_metrics reports new_metrics) {
        hs_index = hs_index i;
        hs_term = hs_term i;
        applied_index = applied_index i;
        applied_term = applied_term i;
        snapshot_index = snapshot_index i;
        snapshot_term = snapshot_term i;
      });
  families = (
    _,
    _,
    refl,
    record {
      named = refl;
      described = refl;
      shown = λ node.
          family_latest (λ m. Map.lookup node m.matched_index) (node_index node) (indexes-step node)
            reports new_metrics u (lookup-nil node);
    },
    record {
      named = refl;
      described = refl;
      shown = λ node.
          family_latest (λ m. Map.lookup node m.matched_term) (node_term node)
            (λ r m v. terms-step node r m) reports new_metrics u (lookup-nil node);
    },
  );
}
