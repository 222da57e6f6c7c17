-- ===== src/Tests/Gauges.antt =====
-- The gauges of the store.
use distribd.Prelude.{◌^◌, none, some, List, [], ◌∷◌, nat_eq, ◌≡◌, refl}
use distribd.Prelude.Map
use distribd.Metrics.{registered, RaftMetrics, new_metrics, set_peers, start_watching_metrics}
use distribd.Metrics.Shown.{IsShown}
use distribd.Metrics.Latest.{start_watching_metrics-IsShown}
use native.Mathlib.Decide
use distribd.Tests.{log_id_at}

-- a follower, then a leader of two peers, then of one
abbrev reports : List RaftMetrics
reports =
    record {
      id = 1;
      current_term = 1;
      last_log_index = some 3;
      last_applied = none;
      snapshot = none;
      replication = none;
    }
    ∷ record {
      id = 1;
      current_term = 2;
      last_log_index = some 5;
      last_applied = some (log_id_at 4);
      snapshot = none;
      replication = some ((2, some (log_id_at 4)) ∷ (3, some (log_id_at 2)) ∷ []);
    }
    ∷ record {
      id = 1;
      current_term = 2 ^ 63;
      last_log_index = some 6;
      last_applied = none;
      snapshot = none;
      replication = some ((2, some (log_id_at 6)) ∷ []);
    }
    ∷ []

start_watching_metrics-IsShown_example :
    IsShown reports (start_watching_metrics reports new_metrics)
unfolding Map.lookup native.Mathlib.Decide.ℕ_discrete
start_watching_metrics-IsShown_example =
    start_watching_metrics-IsShown reports (tt, ((refl, (refl, tt)), ((refl, tt), tt)))

departed :
    (start_watching_metrics reports new_metrics).matched_index ≡ (1, 6) ∷ (2, 6) ∷ (3, 2) ∷ []
unfolding start_watching_metrics set_peers Map.insert native.Mathlib.Decide.ℕ_discrete
departed = refl

too_large : (start_watching_metrics reports new_metrics).hs_term ≡ 2
unfolding start_watching_metrics
too_large = refl

-- the last entry that the reports say is applied is the fourth
commit_index :
    registered (start_watching_metrics reports new_metrics)
    ≡ record { name = "commit_index"; help = "The most recently commit"; value = 6 }
      ∷ record { name = "term"; help = "The most recent term"; value = 2 }
      ∷ record {
        name = "applied_index";
        help = "The latest applied log entry in the journal";
        value = 4;
      }
      ∷ record { name = "applied_term"; help = "The latest applied term"; value = 1 }
      ∷ record {
        name = "snapshot_index";
        help = "The last log entry of the most recent snapshot";
        value = 0;
      }
      ∷ record { name = "snapshot_term"; help = "The term of the most recent snapshot"; value = 0 }
      ∷ []
unfolding start_watching_metrics
commit_index = refl
