-- ===== src/Client/Leader.antt =====
-- Whom `send_rpc_to_leader` asks, how often, and whose answer it gives.
use distribd.Prelude.{
  ℕ, zero, suc, ◌+◌, ◌≤◌, none, some, ◌≡◌, refl, sym, ap, subst, arith, ◌⊎◌, inl, inr, Option-cases,
}
use distribd.Client.{
  RpcError, Result, done, failed, Exchange, Leader, forwarded, Sent, do_send_rpc_to_leader, retry,
  send_rpc_to_leader,
}

module _ {A E : Type 0} (respond : ℕ → Leader → Exchange A E) where
  -- The k-th attempt, made at one node, is answered with the name of another.
  abbrev pub Forwards : ℕ → Leader → Leader → Type 0
  Forwards k leader leader' =
      (error : RpcError E) × (do_send_rpc_to_leader leader (respond k leader) ≡ failed error)
      × (forwarded error ≡ some leader')

  -- `n` attempts from the k-th on, each of which is forwarded to the node of the next
  pub data Chain : (k : ℕ) → Leader → (n : ℕ) → Leader → Type 0 where
    here : {k : ℕ} {leader : Leader} → Chain k leader zero leader
    next :
        {k n : ℕ} {leader leader' last : Leader}
        → Forwards k leader leader'
        → Chain (suc k) leader' n last
        → Chain k leader (suc n) last

  -- The call follows a chain of at most `left` forwards, and gives the answer of the node at its end;
  -- either that answer names no leader, or the retries are used up and the client keeps the name.
  pub record Follows (left k : ℕ) (leader : Leader) (sent : Sent A E) : Type 0 where
    pub n : ℕ
    pub last : Leader
    pub chain : Chain k leader n last
    pub few : n ≤ left
    -- the number of the last attempt
    pub final : ℕ
    pub reached : final ≡ k + n
    pub counted : sent.attempts ≡ suc final
    pub answer : sent.result ≡ do_send_rpc_to_leader last (respond final last)
    pub end :
        ((sent.leader ≡ last) × (¬ ((leader' : Leader) × Forwards final last leader')))
        ⊎ ((n ≡ left) × Forwards final last sent.leader)

  Result-cases :
      {X Y : Type 0} (r : Result X Y) → ((x : X) × (r ≡ done x)) ⊎ ((y : Y) × (r ≡ failed y))
  Result-cases (done x) = inl (x, refl)
  Result-cases (failed y) = inr (y, refl)

  -- the last attempt, when its answer names no leader
  stop :
      (left k : ℕ) (leader : Leader)
      → (¬ ((leader' : Leader) × Forwards k leader leader'))
      → Follows left k leader (record {
        leader = leader;
        attempts = suc k;
        result = do_send_rpc_to_leader leader (respond k leader);
      })
  stop left k leader end = record {
    n = 0;
    last = leader;
    chain = here;
    few = ground arith;
    final = k;
    reached = omega arith;
    counted = refl;
    answer = refl;
    end = inl (refl, end);
  }

  -- one more attempt before the others
  onward :
      (left k : ℕ) (leader leader' : Leader) (sent : Sent A E)
      → Forwards k leader leader'
      → Follows left (suc k) leader' sent
      → Follows (suc left) k leader sent
  onward left k leader leader' sent first f = record {
    n = suc f.n;
    last = f.last;
    chain = next first f.chain;
    few = ground (arith, f.few);
    final = f.final;
    reached = omega (arith, f.reached);
    counted = f.counted;
    answer = f.answer;
    end = elim f.end [ inl stopped ↦ inl stopped | inr (used, end) ↦ inr (ap suc used, end) ];
  }

  no_more :
      (k : ℕ) (leader : Leader) (error : RpcError E)
      → do_send_rpc_to_leader leader (respond k leader) ≡ failed error
      → forwarded error ≡ none
      → ¬ ((leader' : Leader) × Forwards k leader leader')
  no_more k leader error p q (leader', (error', p', q')) = ground (arith, p, p', q, q')

  replied :
      (left k : ℕ) (leader : Leader) (resp : A)
      → do_send_rpc_to_leader leader (respond k leader) ≡ done resp
      → retry respond left k leader ≡ record {
        leader = leader;
        attempts = suc k;
        result = do_send_rpc_to_leader leader (respond k leader);
      }
  unfolding retry
  replied zero k leader resp p = rw (p, retry) refl
  replied (suc left) k leader resp p = rw (p, retry) refl

  refused :
      (left k : ℕ) (leader : Leader) (error : RpcError E)
      → do_send_rpc_to_leader leader (respond k leader) ≡ failed error
      → forwarded error ≡ none
      → retry respond left k leader ≡ record {
        leader = leader;
        attempts = suc k;
        result = do_send_rpc_to_leader leader (respond k leader);
      }
  unfolding retry
  refused zero k leader error p q = rw (p, retry) (rw q refl)
  refused (suc left) k leader error p q = rw (p, retry) (rw q refl)

  exhausted :
      (k : ℕ) (leader leader' : Leader) (error : RpcError E)
      → do_send_rpc_to_leader leader (respond k leader) ≡ failed error
      → forwarded error ≡ some leader'
      → Follows 0 k leader (record { leader = leader'; attempts = suc k; result = failed error })
  exhausted k leader leader' error p q = record {
    n = 0;
    last = leader;
    chain = here;
    few = ground arith;
    final = k;
    reached = omega arith;
    counted = refl;
    answer = sym p;
    end = inr (refl, (error, p, q));
  }

  -- the answers that end the call
  settled :
      (left k : ℕ) (leader : Leader)
      → Follows left k leader (retry respond left k leader)
        ⊎ ((error : RpcError E) × (leader' : Leader) × (do_send_rpc_to_leader leader
                (respond k leader)
              ≡ failed error)
            × (forwarded error ≡ some leader'))
  settled left k leader = elim (Result-cases (do_send_rpc_to_leader leader (respond k leader))) [
    | inl (resp, p) ↦ inl (
        subst (Follows left k leader) (sym (replied left k leader resp p))
          (stop left k leader (λ (l, (e, q, r)). ground (arith, p, q))))
    | inr (error, p) ↦ elim (Option-cases (forwarded error)) [
      | inl q ↦ inl (
          subst (Follows left k leader) (sym (refused left k leader error p q))
            (stop left k leader (no_more k leader error p q)))
      | inr (leader', q) ↦ inr (error, leader', p, q)
    ]
  ]

  retry-Follows :
      (left k : ℕ) (leader : Leader) → Follows left k leader (retry respond left k leader)
  unfolding retry
  retry-Follows zero k leader = elim (settled zero k leader) [
    | inl f ↦ f
    | inr (error, leader', p, q) ↦
        subst (Follows 0 k leader)
          {x = record { leader = leader'; attempts = suc k; result = failed error }}
          (ground (arith, p, q)) (exhausted k leader leader' error p q)
  ]
  retry-Follows (suc left) k leader = elim (settled (suc left) k leader) [
    | inl f ↦ f
    | inr (error, leader', p, q) ↦
        subst (Follows (suc left) k leader) {x = retry respond left (suc k) leader'}
          (ground (arith, p, q))
          (onward left k leader leader' (retry respond left (suc k) leader') (error, p, q)
            (retry-Follows left (suc k) leader'))
  ]

  -- A call makes at least one attempt and at most three, each at the node that the answer before it
  -- named as the leader, and gives the last attempt's answer. Either that answer names no leader and
  -- the client keeps the node that gave it, or it was the third attempt and the client keeps the node
  -- that it names. How often the HTTP client sends its request again within an attempt is left open.
  pub send_rpc_to_leader-Follows :
      (leader : Leader)
      → Follows 2 0 leader (send_rpc_to_leader respond leader)
        × (1 ≤ (send_rpc_to_leader respond leader).attempts)
        × ((send_rpc_to_leader respond leader).attempts ≤ 3)
  unfolding send_rpc_to_leader
  send_rpc_to_leader-Follows leader =
      let f = retry-Follows 2 0 leader in
      (f, omega (arith, f.counted), omega (arith, f.counted, f.reached, f.few))
