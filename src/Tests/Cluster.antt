-- ===== src/Tests/Cluster.antt =====
-- The client, the wait for a write, the list of tags and the requests that wait.
use distribd.Prelude.{
  ℕ, zero, suc, ◌==◌, ==_eq, ==_refl, Bool-cases, subst, All, ◌≤◌, String, none, some, [], ◌∷◌,
  ◌++◌, ok, ◌≡◌, refl, arith, List, true, false, str_dec, string_eq, ◌↔◌, inl, inr, In, head, tail,
}
use distribd.Prelude.Set
use distribd.Prelude.Map
use distribd.Prelude.Map.{Map}
use distribd.Types.{tag_key_eq, digest_eq, Digest, TagKey, RegistryAction, RepositoryName-discrete}
use distribd.StateMachine.{fresh}
use distribd.StateMachine.Refinement.{Agrees}
use distribd.Token.{Token, has_permission, has_access}
use distribd.Client.{
  forward, Exchange, answered, Leader, done, failed, Write, write, send_rpc_to_leader, retry,
  wait_for, consistent_write,
}
use distribd.Client.Leader.{Follows, send_rpc_to_leader-Follows}
use distribd.Client.Writes.{consistent_write-Agrees}
use distribd.Tests.Layout.{serialize, written_text, IsLayout-serialize}
use distribd.Prelude.Bytes.{Bytes, precedes}
use distribd.Store.Tags.{IsRange, first_key, get_tags}
use distribd.Http.Tags.{TagQuery, get}
use distribd.Http.Tags.Order.{IsAscending}
use distribd.Http.Tags.Pages.{IsListed, get-Lists}
use distribd.StateMachine.Artifacts.{blob_change, manifest_change}
use distribd.StateMachine.Batches.{log_actions}
use distribd.Store.{RegistryStore, new_watch, add_waiter, apply_to_state_machine}
use distribd.Store.Waiters.{IsServed}
use distribd.Store.Notes.{stored_on}
use distribd.Store.Waiters.Served.{apply_to_state_machine-IsServed}
use native.Mathlib.Decide
use distribd.Tests.Machine.{one_answer, entry_one_applied}
use distribd.Tests.{
  layer, library, latest, other, log_id_at, mount_and_store, entry_one, after_entry,
}

-- the first two nodes name the next as the leader
abbrev nodes : ℕ → Leader → Exchange ℕ ℕ
nodes zero leader = answered (failed (forward (some 2) (some "two")))
nodes (suc zero) leader = answered (failed (forward (some 3) (some "three")))
nodes (suc (suc k)) leader = answered (done 1)

send_rpc_to_leader-Follows_example :
    Follows nodes 2 0 (1, "one") (send_rpc_to_leader nodes (1, "one"))
    × (1 ≤ (send_rpc_to_leader nodes (1, "one")).attempts)
    × ((send_rpc_to_leader nodes (1, "one")).attempts ≤ 3)
send_rpc_to_leader-Follows_example = send_rpc_to_leader-Follows nodes (1, "one")

-- a follower's write, that is forwarded
abbrev here : Write ℕ
here = failed (forward (some 1) (some "one"))

written : write here nodes ≡ some 1
unfolding send_rpc_to_leader retry
written = refl

waited : consistent_write here nodes (none ∷ some 1 ∷ []) ≡ ok true
unfolding consistent_write wait_for send_rpc_to_leader retry
waited = refl

consistent_write-Agrees_example :
    (index : ℕ) × In (some index) (none ∷ some 1 ∷ [])
    × (before : List RegistryAction) × (after : List RegistryAction) × Agrees
        (before ++ (mount_and_store ++ after))
        fresh
        after_entry
consistent_write-Agrees_example =
    consistent_write-Agrees here nodes mount_and_store (entry_one ∷ []) (none ∷ some 1 ∷ [])
      (λ index. after_entry) (ground arith, tt)
      (λ target p. (log_id_at 1, ground (arith, p, written), head refl))
      (λ index seen. (
        log_id_at 1,
        shown index seen,
        entry_one ∷ [],
        [],
        refl,
        refl,
        (one_answer, entry_one_applied),
      ))
      waited
  where
    shown : (index : ℕ) → In (some index) (none ∷ some 1 ∷ []) → 1 ≡ index
    shown index (head e) = absurd (ground (arith, e))
    shown index (tail (head e)) = ground (arith, e)
    shown index (tail (tail m)) = elim m [ ]

abbrev one_row : Bytes → List TagKey
one_row from = latest ∷ []

abbrev one_tag : Map TagKey Digest
one_tag = (latest, other) ∷ []

one_row-IsRange :
    IsRange serialize one_tag
      (serialize (first_key library))
      (one_row (serialize (first_key library)))
unfolding precedes serialize written_text Map.lookup native.Mathlib.Decide.ℕ_discrete
one_row-IsRange = record {
  sorted = (tt, tt);
  once = ((λ m. elim m [ ]), tt);
  present = λ key m. elim m [
    | head e ↦
        (other, subst (λ k. Map.lookup k one_tag ≡ some other) e (ground (arith, ==_refl latest)))
    | tail later ↦ elim later [ ]
  ];
  above = (refl, tt);
  complete = λ key digest found above. elim (Bool-cases (latest == key)) [
    | inl same ↦ head (==_eq latest key same)
    | inr differ ↦ absurd (ground (arith, found, differ))
  ];
}

abbrev reader : Token
reader = record {
  access = record { repository = library; permissions = "pull" ∷ [] } ∷ [];
  sub = "bob";
  validated_token = true;
  admin = false;
  realm = none;
  service = none;
}

may_read : has_permission reader library "pull" ≡ true
unfolding has_permission has_access Set.contains RepositoryName-discrete str_dec
may_read = refl

abbrev second_page : TagQuery
second_page = record { last = some "latest"; n = some 1 }

get-Lists_example :
    (all : List String) × IsAscending all
    × ((tag : String)
        → In tag all ↔ (
            (digest : Digest) × (Map.lookup (record { repository = library; tag = tag }) one_tag
              ≡ some digest)))
    × IsListed reader library second_page may_read
        (get reader library (get_tags serialize one_row library) second_page)
        all
get-Lists_example =
    get-Lists reader library second_page may_read serialize written_text one_row one_tag
      IsLayout-serialize one_row-IsRange

all_open : (channels : List ℕ) → All (λ c. true ≡ true) channels
all_open [] = tt
all_open (c ∷ channels) = (refl, all_open channels)

abbrev awaiting : RegistryStore
awaiting = record {
  id = 1;
  db = fresh;
  watch = record (new_watch [] []) {
    blob_waiters = add_waiter layer 7 [];
    manifest_waiters = add_waiter layer 7 [];
  };
}

apply_to_state_machine-IsServed_example :
    (s' : RegistryStore) × (apply_to_state_machine (λ c. true) (entry_one ∷ []) awaiting
      ≡ ok (s', one_answer))
    × (s'.db ≡ after_entry)
    × (awaiting.watch.blob_waiters ≡ add_waiter layer 7 []
        → IsServed
            (stored_on blob_change 1 layer (log_actions (entry_one ∷ [])))
            layer
            7
            s'.watch.blob_waiters
            s'.watch.woken)
    × (awaiting.watch.manifest_waiters ≡ add_waiter layer 7 []
        → IsServed
            (stored_on manifest_change 1 layer (log_actions (entry_one ∷ [])))
            layer
            7
            s'.watch.manifest_waiters
            s'.watch.woken)
apply_to_state_machine-IsServed_example =
    apply_to_state_machine-IsServed (λ c. true) (entry_one ∷ []) awaiting after_entry one_answer
      layer 7 [] [] entry_one_applied (λ d channels p. all_open channels)
      (λ d channels p. all_open channels)
