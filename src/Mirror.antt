-- ===== src/Mirror.antt =====
-- src/mirror.rs: one transfer of a blob or a manifest from another node, and the loop that waits for
-- changes of the set of objects to mirror. What the network and the disk answer is a `Download`; the
-- random choice of a source and the hash function are parameters.
pub mod Transfers
pub mod Changes
pub mod Passes
use distribd.Prelude.{
  ℕ, String, Option, none, some, List, [], ◌∷◌, ◌++◌, if◌then◌else◌, Bool, true, false, not, ◌==◌,
  ◌||◌, nat_eq, Outcome, ok, ◌>>=◌,
}
use distribd.Prelude.Set
use distribd.Prelude.Map
use distribd.Types.{digest_eq, Digest, Artifact, RegistryAction, blob_stored, manifest_stored}
use distribd.Raft.{Membership}
use distribd.StateMachine.{Tree, Db, apply_actions}

pub data MirrorRequest : Type 0 where
  blob manifest : (digest : Digest) → MirrorRequest

pub data MirrorResult : Type 0 where
  retry : MirrorRequest → MirrorResult
  success : MirrorRequest → (action : RegistryAction) → MirrorResult
  nothing : MirrorResult

abbrev pub internal_user : String
internal_user = "$internal"

abbrev pub succeed : ℕ → ℕ → MirrorRequest → MirrorResult
succeed now location (blob digest) =
    success (blob digest) (blob_stored now digest location internal_user)
succeed now location (manifest digest) =
    success (manifest digest) (manifest_stored now digest location internal_user)

-- The answers while one file is fetched: none where the request, the status, the file or a chunk
-- failed, or else the bytes that arrived, the bytes that are read back from the file, and whether the
-- file could be moved to its place.
pub record Download : Type 0 where
  pub received : List ℕ
  pub read_back : Option (List ℕ)
  pub renamed : Bool

-- the nodes of the membership that have the object
unfoldable pub sources : List ℕ → Membership → List (ℕ × String)
sources locations [] = []
sources locations ((nid, address) ∷ peers) =
    let rest = sources locations peers in
    if Set.contains locations nid then (nid, address) ∷ rest else rest

abbrev pub digest_of : MirrorRequest → Digest
digest_of (blob digest) = digest
digest_of (manifest digest) = digest

abbrev pub entry_of : Db → MirrorRequest → Option Artifact
entry_of db (blob digest) = Map.lookup digest db.blobs
entry_of db (manifest digest) = Map.lookup digest db.manifests

module _ (hash : List ℕ → Digest) (choose : List (ℕ × String) → Option (ℕ × String))
    (fetch : ℕ × String → Option Download) where
  -- `validate_hash` of the file
  abbrev pub validate : Digest → Option (List ℕ) → Bool
  validate digest none = false
  validate digest (some file) = hash file == digest

  abbrev pub finish : ℕ → ℕ → MirrorRequest → Option Download → MirrorResult
  finish now id request none = retry request
  finish now id request (some download) =
      if not (digest_of request == hash download.received)
      then retry request
      else if not (validate (digest_of request) download.read_back)
      then retry request
      else if not download.renamed
      then retry request
      else succeed now id request

  abbrev pub transfer_from : ℕ → ℕ → MirrorRequest → Option (ℕ × String) → MirrorResult
  transfer_from now id request none = nothing
  transfer_from now id request (some source) = finish now id request (fetch source)

  unfoldable pub do_transfer : ℕ → ℕ → Db → MirrorRequest → MirrorResult
  unfolding sources
  do_transfer now id db request = elim (entry_of db request) [
    | none ↦ nothing
    | some artifact ↦
        if Set.contains artifact.locations id
        then nothing
        else if Set.is_empty artifact.locations
        then nothing
        else transfer_from now id request
            (choose (sources artifact.locations db.last_membership.nodes))
  ]

-- One request of a round, as the round comes to it: the database that the node shows then, which other
-- entries of the log may have changed since the request before, the source that is chosen, how the
-- fetch goes, and the clock.
pub record Look : Type 0 where
  pub request : MirrorRequest
  pub db : Db
  pub choose : List (ℕ × String) → Option (ℕ × String)
  pub fetch : ℕ × String → Option Download
  pub now : ℕ

-- what is given to `submit_write`
abbrev pub log_action : MirrorResult → List (List RegistryAction)
log_action (success request action) = (action ∷ []) ∷ []
log_action (retry request) = []
log_action nothing = []

-- The transactions that a round submits, in order. It does not wait until they are applied here, and
-- goes on whether they were written or not.
module _ (hash : List ℕ → Digest) (id : ℕ) where
  unfoldable pub mirror_all : List Look → List (List RegistryAction)
  unfolding do_transfer
  mirror_all [] = []
  mirror_all (look ∷ looks) =
      log_action (do_transfer hash look.choose look.fetch look.now id look.db look.request)
      ++ mirror_all looks

-- The waiters of one of the two tasks: `wait_for_change` and `wait_for_time`, whether they run.
pub record Waiters : Type 0 where
  pub change : Bool
  pub time : Bool

-- what is spawned before the loop
abbrev pub spawned : List Digest → Waiters
spawned pending = record { change = true; time = not (Set.is_empty pending) }

-- One round of the `while` loop, in which one of the running waiters ends: the round reads the set
-- `pending` and spawns the waiter again by its own rule.
pub data Round : Waiters → Waiters → Type 0 where
  changed :
      (pending : List Digest) {time : Bool}
      → Round (record { change = true; time = time }) (record { change = true; time = time })
  timeout :
      (pending : List Digest) {change : Bool}
      → Round
          (record { change = change; time = true })
          (record { change = change; time = not (Set.is_empty pending) })

pub data Rounds : Waiters → Waiters → Type 0 where
  start : {w : Waiters} → Rounds w w
  next : {w w' w'' : Waiters} → Round w w' → Rounds w' w'' → Rounds w w''
