-- ===== src/Metrics/Families.antt =====
-- The families of gauges, node by node.
use distribd.Prelude.{
  ℕ, ◌^◌, Option, none, some, List, [], ◌∷◌, true, if◌then◌else◌, ltb, nat_eq, ◌==◌, ==_eq, ◌≡◌,
  refl, sym, ap, ◌∙◌, inl, inr, Bool-cases, All,
}
use distribd.Prelude.Map
use distribd.Prelude.Map.{Map, or_else, lookup-insert, lookup-nil, HasUniqueKeys}
use distribd.Raft.{LogId}
use distribd.Metrics.{
  RaftMetrics, StorageMetrics, set_node, set_own, set_peers, terms, indexes, observe,
  start_watching_metrics,
}
use distribd.Metrics.Shown.{
  fits, fitting, latest, leads, all_lead, reign, peer_index, reported, own, node_index, node_term,
  HasUniquePeers,
}

set_node-lookup :
    (node value j : ℕ) (family : Map ℕ ℕ)
    → Map.lookup j (set_node node value family)
      ≡ or_else (own j node (fits value)) (Map.lookup j family)
set_node-lookup node value j family = elim (Bool-cases (ltb value (2 ^ 63))) [
  | inl small ↦ elim (Bool-cases (node == j)) [
    | inl same ↦ rw (small, same, lookup-insert node j value family, same) refl
    | inr differ ↦ rw (small, differ, lookup-insert node j value family, differ) refl
  ]
  | inr large ↦ elim (Bool-cases (node == j)) [
    | inl same ↦ rw (large, same) refl
    | inr differ ↦ rw (large, differ) refl
  ]
]

set_own-lookup :
    (node : ℕ) (index : Option ℕ) (j : ℕ) (family : Map ℕ ℕ)
    → Map.lookup j (set_own node index family)
      ≡ or_else (own j node (fitting index)) (Map.lookup j family)
set_own-lookup node none j family = elim (Bool-cases (node == j)) [
  | inl same ↦ rw same refl
  | inr differ ↦ rw differ refl
]
set_own-lookup node (some index) j family = set_node-lookup node index j family

set_peers-lookup :
    (peers : Map ℕ (Option LogId)) (j : ℕ) (family : Map ℕ ℕ)
    → HasUniqueKeys peers
    → Map.lookup j (set_peers peers family)
      ≡ or_else (peer_index (Map.lookup j peers)) (Map.lookup j family)
unfolding set_peers Map.lookup
set_peers-lookup [] j family u = refl
set_peers-lookup ((peer, none) ∷ peers) j family u = elim (Bool-cases (peer == j)) [
  | inl same ↦
      set_peers-lookup peers j family u.1
      ∙ rw (same, sym (ap (λ x. Map.lookup x peers) (==_eq peer j same)) ∙ u.0) refl
  | inr differ ↦ set_peers-lookup peers j family u.1 ∙ rw differ refl
]
set_peers-lookup ((peer, some log) ∷ peers) j family u = elim (Bool-cases (peer == j)) [
  | inl same ↦
      set_peers-lookup peers j (set_node peer log.index family) u.1
      ∙ rw (same, sym (ap (λ x. Map.lookup x peers) (==_eq peer j same)) ∙ u.0)
          (set_node-lookup peer log.index j family ∙ rw same refl)
  | inr differ ↦
      set_peers-lookup peers j (set_node peer log.index family) u.1
      ∙ rw differ (
          ap (or_else (peer_index (Map.lookup j peers)))
            (set_node-lookup peer log.index j family ∙ rw differ refl))
]

or_else_assoc : (a b c : Option ℕ) → or_else a (or_else b c) ≡ or_else (or_else a b) c
or_else_assoc none b c = refl
or_else_assoc (some v) b c = refl

or_else-none : (a : Option ℕ) → or_else a none ≡ a
or_else-none none = refl
or_else-none (some v) = refl

reign_all : (reports : List RaftMetrics) → all_lead reports ≡ true → reign reports ≡ reports
reign_all [] h = refl
reign_all (r ∷ rs) h = rw h refl

module _ (shown : StorageMetrics → Option ℕ) (read : RaftMetrics → Option ℕ)
    (step : (r : RaftMetrics) (m : StorageMetrics)
      → HasUniquePeers r
      → shown (observe r m)
        ≡ (if leads r.replication then or_else (read r) (shown m) else none)) where
  family_all :
      (reports : List RaftMetrics) (m : StorageMetrics)
      → All HasUniquePeers reports
      → shown (start_watching_metrics reports m) ≡ (
          if all_lead reports
          then or_else (latest read reports) (shown m)
          else latest read (reign reports))
  unfolding start_watching_metrics
  family_all [] m u = refl
  family_all (r ∷ rs) m u = elim (Bool-cases (leads r.replication)) [
    | inr follows ↦ elim (Bool-cases (all_lead rs)) [
      | inl lead ↦
          family_all rs (observe r m) u.1
          ∙ rw (lead, step r m u.0, follows, reign_all rs lead) (or_else-none (latest read rs))
      | inr some_follow ↦ family_all rs (observe r m) u.1 ∙ rw (some_follow, follows) refl
    ]
    | inl led ↦ elim (Bool-cases (all_lead rs)) [
      | inl lead ↦
          family_all rs (observe r m) u.1
          ∙ rw (lead, step r m u.0, led) (or_else_assoc (latest read rs) (read r) (shown m))
      | inr some_follow ↦ family_all rs (observe r m) u.1 ∙ rw (some_follow, led) refl
    ]
  ]

  pub family_latest :
      (reports : List RaftMetrics) (m : StorageMetrics)
      → All HasUniquePeers reports
      → shown m ≡ none
      → shown (start_watching_metrics reports m) ≡ latest read (reign reports)
  family_latest reports m u empty = elim (Bool-cases (all_lead reports)) [
    | inl lead ↦
        family_all reports m u
        ∙ rw (lead, empty, reign_all reports lead) (or_else-none (latest read reports))
    | inr some_follow ↦ family_all reports m u ∙ rw some_follow refl
  ]

pub terms-step :
    (node : ℕ) (r : RaftMetrics) (m : StorageMetrics)
    → Map.lookup node (observe r m).matched_term ≡ (
        if leads r.replication
        then or_else (node_term node r) (Map.lookup node m.matched_term)
        else none)
terms-step node r m = from r.replication
  where
    from :
        (peers : Option (Map ℕ (Option LogId)))
        → Map.lookup node (terms r peers m.matched_term) ≡ (
            if leads peers
            then or_else (node_term node r) (Map.lookup node m.matched_term)
            else none)
    from none = lookup-nil node
    from (some peers) = set_node-lookup r.id r.current_term node m.matched_term

pub indexes-step :
    (node : ℕ) (r : RaftMetrics) (m : StorageMetrics)
    → HasUniquePeers r
    → Map.lookup node (observe r m).matched_index ≡ (
        if leads r.replication
        then or_else (node_index node r) (Map.lookup node m.matched_index)
        else none)
indexes-step node r m u = from r.replication u
  where
    from :
        (peers : Option (Map ℕ (Option LogId)))
        → HasUniquePeers (record r { replication = peers })
        → Map.lookup node (indexes r peers m.matched_index) ≡ (
            if leads peers
            then or_else
                (or_else (reported node peers) (own node r.id (fitting r.last_log_index)))
                (Map.lookup node m.matched_index)
            else none)
    from none u = lookup-nil node
    from (some peers) u =
        set_peers-lookup peers node (set_own r.id r.last_log_index m.matched_index) u
        ∙ ap (or_else (peer_index (Map.lookup node peers)))
            (set_own-lookup r.id r.last_log_index node m.matched_index)
        ∙ or_else_assoc (peer_index (Map.lookup node peers))
            (own node r.id (fitting r.last_log_index)) (Map.lookup node m.matched_index)
