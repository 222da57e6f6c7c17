-- ===== src/Garbage.antt =====
-- src/garbage.rs: the two sweeps of the garbage collector. Each reading of the
-- clock is one of `Clock`, in seconds. `cleaned` says for each digest whether `cleanup_object` removed its file. The write that
-- a sweep submits goes through raft, and is the list of its actions; an empty list is not submitted.
pub mod Sweeps
pub mod Safety
pub mod Files
pub mod Rounds
use distribd.Prelude.{
  ltb, ℕ, ◌+◌, ◌*◌, String, Option, none, some, List, [], ◌∷◌, ◌++◌, if◌then◌else◌, Bool, true,
  false, not, ◌||◌, nat_eq,
}
use distribd.Prelude.Set
use distribd.Types.{
  Digest, RepositoryName, Artifact, RegistryAction, blob_unstored, blob_unmounted,
  manifest_unstored, manifest_unmounted,
}
use distribd.StateMachine.{Tree, Db}
use distribd.Orphans.{get_orphaned_blobs, get_orphaned_manifests}

abbrev pub minimum_garbage_age : ℕ
minimum_garbage_age = 60 * 60 * 12

abbrev pub system_user : String
system_user = "$system"

-- `now - created < minimum_age`, where the difference may be negative
abbrev pub is_young : ℕ → Artifact → Bool
is_young now artifact = ltb now (artifact.created + minimum_garbage_age)

-- the actions of one orphan's loop over its repositories
unfoldable pub unmounts_of :
    (RepositoryName → RegistryAction) → List RepositoryName → List RegistryAction
unmounts_of action [] = []
unmounts_of action (repository ∷ repositories) = action repository ∷ unmounts_of action repositories

-- What the clock says where a sweep reads it: for the age of an orphan, and for the timestamp of an
-- action about it.
pub record Clock : Type 0 where
  pub manifest_age : Digest → ℕ
  pub blob_age : Digest → ℕ
  pub manifest_unmount : Digest → RepositoryName → ℕ
  pub blob_unmount : Digest → RepositoryName → ℕ
  pub manifest_unstore : Digest → ℕ
  pub blob_unstore : Digest → ℕ

module _ (clock : Clock) where
  unfoldable pub unmount_manifests : Tree → List RegistryAction
  unfolding unmounts_of
  unmount_manifests [] = []
  unmount_manifests ((digest, manifest) ∷ manifests) =
      (if is_young (clock.manifest_age digest) manifest
        then []
        else unmounts_of
            (λ r. manifest_unmounted (clock.manifest_unmount digest r) digest r system_user)
            manifest.repositories)
      ++ unmount_manifests manifests

  unfoldable pub unmount_blobs : Tree → List RegistryAction
  unfolding unmounts_of
  unmount_blobs [] = []
  unmount_blobs ((digest, blob) ∷ blobs) =
      (if is_young (clock.blob_age digest) blob
        then []
        else unmounts_of (λ r. blob_unmounted (clock.blob_unmount digest r) digest r system_user)
            blob.repositories)
      ++ unmount_blobs blobs

  unfoldable pub do_garbage_collect_phase1 :
      (List Digest → Option Digest) → Db → Option (List RegistryAction)
  unfolding unmount_manifests unmount_blobs
  do_garbage_collect_phase1 pick db = elim (get_orphaned_blobs pick db) [
    | none ↦ none
    | some orphans ↦ some (unmount_manifests (get_orphaned_manifests db) ++ unmount_blobs orphans)
  ]

-- The tests of the second sweep: the object is here, and no repository has it.
abbrev pub is_left : ℕ → Artifact → Bool
is_left id artifact =
    if Set.contains artifact.locations id then Set.is_empty artifact.repositories else false

module _ (clock : Clock) (id : ℕ) (cleaned : Digest → Bool) where
  unfoldable pub unstore_manifests : Tree → List RegistryAction
  unstore_manifests [] = []
  unstore_manifests ((digest, manifest) ∷ manifests) =
      let rest = unstore_manifests manifests in
      if is_left id manifest
      then if cleaned digest
        then manifest_unstored (clock.manifest_unstore digest) digest id system_user ∷ rest
        else rest
      else rest

  unfoldable pub unstore_blobs : Tree → List RegistryAction
  unstore_blobs [] = []
  unstore_blobs ((digest, blob) ∷ blobs) =
      let rest = unstore_blobs blobs in
      if is_left id blob
      then if cleaned digest
        then blob_unstored (clock.blob_unstore digest) digest id system_user ∷ rest
        else rest
      else rest

module _ (clock : Clock) (id : ℕ) (manifest_cleaned blob_cleaned : Digest → Bool) where
  unfoldable pub do_garbage_collect_phase2 :
      (List Digest → Option Digest) → Db → Option (List RegistryAction)
  unfolding unstore_manifests unstore_blobs
  do_garbage_collect_phase2 pick db = elim (get_orphaned_blobs pick db) [
    | none ↦ none
    | some orphans ↦ some (
        unstore_manifests clock id manifest_cleaned (get_orphaned_manifests db)
        ++ unstore_blobs clock id blob_cleaned orphans)
  ]

-- `openraft::ServerState`, and the sweeps that one round of `do_garbage_collect` makes
pub data ServerState : Type 0 where
  learner follower candidate leader shutdown : ServerState

abbrev pub runs_phase1 : ServerState → Bool
runs_phase1 leader = true
runs_phase1 _ = false

abbrev pub runs_phase2 : ServerState → Bool
runs_phase2 leader = true
runs_phase2 follower = true
runs_phase2 _ = false

-- What one round of the loop meets: the state of the node's raft, and what the two sweeps read.
pub record Tick : Type 0 where
  pub state : ServerState
  pub clock : Clock
  pub phase1_db : Db
  pub phase2_db : Db
  pub manifest_cleaned : Digest → Bool
  pub blob_cleaned : Digest → Bool

-- a transaction that was submitted, with the database that it was computed from
abbrev pub Sweep : Type 0
Sweep = Db × List RegistryAction

-- `if !actions.is_empty()`
abbrev pub submit : Db → Option (List RegistryAction) → Option (List Sweep)
submit db none = none
submit db (some []) = some []
submit db (some (action ∷ actions)) = some ((db, action ∷ actions) ∷ [])

abbrev pub and_then : Option (List Sweep) → Option (List Sweep) → Option (List Sweep)
and_then none more = none
and_then (some sweeps) none = none
and_then (some sweeps) (some more) = some (sweeps ++ more)

abbrev pub is_shutdown : ServerState → Bool
is_shutdown shutdown = true
is_shutdown _ = false

module _ (id : ℕ) (pick : List Digest → Option Digest) where
  -- the two sweeps of one round
  abbrev pub sweep : Tick → Option (List Sweep)
  sweep t =
      and_then
        (if runs_phase1 t.state
          then submit t.phase1_db (do_garbage_collect_phase1 t.clock pick t.phase1_db)
          else some [])
        (if runs_phase2 t.state
          then submit t.phase2_db (
              do_garbage_collect_phase2 t.clock id t.manifest_cleaned t.blob_cleaned pick
                t.phase2_db)
          else some [])

  -- the rounds of the loop, up to the one that finds the node shut down
  unfoldable pub do_garbage_collect : List Tick → Option (List Sweep)
  unfolding do_garbage_collect_phase1 do_garbage_collect_phase2
  do_garbage_collect [] = some []
  do_garbage_collect (tick ∷ ticks) =
      let rest = do_garbage_collect ticks in
      if is_shutdown tick.state then sweep tick else and_then (sweep tick) rest
