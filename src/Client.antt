-- ===== src/Client.antt =====
-- src/client.rs and the writes of src/app.rs: a request that follows the cluster's leader, and the
-- wait until a write is applied on this node. What the other nodes answer is a parameter, and so is
-- what openraft's `client_write` gives; `network` stands for every `NetworkError`.
pub mod Leader
pub mod Writes
use distribd.Prelude.{
  ℕ, zero, suc, String, Option, none, some, List, [], ◌∷◌, Outcome, ok, panic, Bool, true, false,
  leb,
}

-- `RaftError`, as the client reads it: `ForwardToLeader`, or another error
pub data RaftError (E : Type 0) : Type 0 where
  forward : (leader_id : Option ℕ) (leader_node : Option String) → RaftError E
  other : E → RaftError E

pub data RpcError (E : Type 0) : Type 0 where
  network : RpcError E
  remote_error : (target : ℕ) → RaftError E → RpcError E

pub data Result (A E : Type 0) : Type 0 where
  done : A → Result A E
  failed : E → Result A E

-- How one attempt goes, a call of `do_send_rpc_to_leader`: it times out after three seconds, it cannot
-- be sent, the answer's body is not what was expected, or the node answers. The HTTP client `inner`,
-- with the retry middleware where `new` is given a policy, is behind it: within an attempt it may send
-- its HTTP request again, and what it gives in the end is the exchange.
pub data Exchange (A E : Type 0) : Type 0 where
  timed_out unsent unreadable : Exchange A E
  answered : Result A (RaftError E) → Exchange A E

-- the node's id and address
abbrev pub Leader : Type 0
Leader = ℕ × String

-- `forward_to_leader` with the pattern that both of its fields are there
abbrev pub new_leader : {E : Type 0} → RaftError E → Option Leader
new_leader (forward (some leader_id) (some leader_node)) = some (leader_id, leader_node)
new_leader (forward _ _) = none
new_leader (other error) = none

abbrev pub forwarded : {E : Type 0} → RpcError E → Option Leader
forwarded network = none
forwarded (remote_error target error) = new_leader error

-- The client after a call: the leader that it holds, the attempts that it made, and the result.
pub record Sent (A E : Type 0) : Type 0 where
  pub leader : Leader
  pub attempts : ℕ
  pub result : Result A (RpcError E)

module _ {A E : Type 0} where
  -- `do_send_rpc_to_leader`, from how the attempt goes
  abbrev pub do_send_rpc_to_leader : Leader → Exchange A E → Result A (RpcError E)
  do_send_rpc_to_leader leader timed_out = failed network
  do_send_rpc_to_leader leader unsent = failed network
  do_send_rpc_to_leader leader unreadable = failed network
  do_send_rpc_to_leader leader (answered (done resp)) = done resp
  do_send_rpc_to_leader leader (answered (failed error)) = failed (remote_error leader.0 error)

  -- `respond k leader` is how the k-th attempt goes, which is made at that leader.
  module _ (respond : ℕ → Leader → Exchange A E) where
    -- The loop, after `k` attempts and with `left` retries left, that is `n_retry - 1`.
    unfoldable pub retry : (left k : ℕ) → Leader → Sent A E
    retry zero k leader = elim (do_send_rpc_to_leader leader (respond k leader)) [
      | done resp ↦ record { leader = leader; attempts = suc k; result = done resp }
      | failed error ↦ elim (forwarded error) [
        | none ↦ record { leader = leader; attempts = suc k; result = failed error }
        | some leader' ↦ record { leader = leader'; attempts = suc k; result = failed error }
      ]
    ]
    retry (suc left) k leader = elim (do_send_rpc_to_leader leader (respond k leader)) [
      | done resp ↦ record { leader = leader; attempts = suc k; result = done resp }
      | failed error ↦ elim (forwarded error) [
        | none ↦ record { leader = leader; attempts = suc k; result = failed error }
        | some leader' ↦ retry left (suc k) leader'
      ]
    ]

    unfoldable pub send_rpc_to_leader : Leader → Sent A E
    unfolding retry
    send_rpc_to_leader leader = retry 2 0 leader

-- `client_write` of this node's raft, and a write's answer: the index of its entry
abbrev pub Write : Type 0 → Type 0
Write E = Result ℕ (RaftError E)

module _ {E : Type 0} (local : Write E) (respond : ℕ → Leader → Exchange ℕ E) where
  -- The write here, or at the leader that the error names; the index of the entry if it goes through.
  abbrev pub forward_write : Option Leader → Option ℕ
  forward_write none = none
  forward_write (some leader) = elim ((send_rpc_to_leader respond leader).result) [
    | done index ↦ some index
    | failed error ↦ none
  ]

  unfoldable pub submit_write : Bool
  unfolding send_rpc_to_leader
  submit_write = elim local [
    | done index ↦ true
    | failed error ↦ elim (forward_write (new_leader error)) [ none ↦ false | some index ↦ true ]
  ]

  abbrev pub write : Option ℕ
  write = elim local [ done index ↦ some index | failed error ↦ forward_write (new_leader error) ]

  -- The loop over the metrics. `applied` lists the indexes of `last_applied` that the receiver shows,
  -- until its sender is gone and `changed` an error, which the code unwraps.
  unfoldable pub wait_for : ℕ → List (Option ℕ) → Outcome Bool
  wait_for target_index [] = panic
  wait_for target_index (none ∷ applied) = wait_for target_index applied
  wait_for target_index (some index ∷ applied) = elim (leb target_index index) [
    | true ↦ ok true
    | false ↦ wait_for target_index applied
  ]

  unfoldable pub consistent_write : List (Option ℕ) → Outcome Bool
  unfolding wait_for send_rpc_to_leader
  consistent_write applied = elim write [
    | none ↦ ok false
    | some target_index ↦ wait_for target_index applied
  ]
