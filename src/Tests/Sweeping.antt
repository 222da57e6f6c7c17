-- ===== src/Tests/Sweeping.antt =====
-- Garbage collection, snapshots and imports.
use distribd.Prelude.{
  ℕ, String, none, some, List, [], ◌∷◌, ok, panic, ◌≡◌, refl, arith, nat_eq, Option, Bool, true,
  ◌⊎◌, ==_refl,
}
use distribd.Prelude.Set
use distribd.Prelude.Set.{contains-cons}
use distribd.Prelude.Map
use distribd.Prelude.Map.{AllRows}
use distribd.Types.{digest_eq, tag_key_eq, Digest, Digest-discrete, Artifact}
use distribd.Raft.{LogId}
use distribd.StateMachine.{Tree, Db, fresh, apply_actions}
use distribd.StateMachine.Keys.{IsKeyed}
use distribd.Store.Pending.{IsCovered}
use distribd.Store.{new}
use distribd.Orphans.{get_orphaned_blobs, roots}
use distribd.Orphans.Reach.{Reach, Picks}
use distribd.Orphans.Worklist.{get_orphaned_blobs-Reach}
use distribd.Garbage.Rounds.{AreSpared, do_garbage_collect-AreSpared}
use distribd.Garbage.{Clock, Tick, leader, do_garbage_collect}
use distribd.Snapshot.{Serializable, Node, build_snapshot, install_snapshot}
use distribd.Snapshot.Install.{
  IsOverlay, IsSameState, install_snapshot-IsOverlay, install_snapshot-fresh,
}
use distribd.Management.{ImportBody, import_actions, export}
use distribd.Management.Export.{AreImportable, IsClone, import_actions-export, import_actions-panic}
use distribd.Tests.{with_layer, layer, mounted_layer}

abbrev first : List Digest → Option Digest
first [] = none
first (d ∷ ds) = some d

first_member : (s : List Digest) (d : Digest) → first s ≡ some d → Set.contains s d ≡ true
unfolding Set.contains
first_member [] d e = absurd (ground arith)
first_member (x ∷ s) d e = ground (arith, ==_refl x)

first_nothing : (s : List Digest) → first s ≡ none → s ≡ []
first_nothing [] e = refl
first_nothing (x ∷ s) e = absurd (ground arith)

first-Picks : Picks first
first-Picks = record { member = first_member; nothing = first_nothing }

with_layer-IsKeyed : IsKeyed with_layer
unfolding Map.lookup
with_layer-IsKeyed = record { blobs = (refl, tt); manifests = tt; tags = (refl, tt) }

abbrev late : Clock
late = record {
  manifest_age = λ d. 90000;
  blob_age = λ d. 90000;
  manifest_unmount = λ d r. 90001;
  blob_unmount = λ d r. 90001;
  manifest_unstore = λ d. 90001;
  blob_unstore = λ d. 90001;
}

abbrev all_cleaned : Digest → Bool
all_cleaned d = true

get_orphaned_blobs-Reach_example :
    (orphans : Tree) × (get_orphaned_blobs first with_layer ≡ some orphans)
    × ((Reach (roots with_layer) with_layer.blobs layer × (Map.lookup layer orphans ≡ none))
        ⊎ ((¬ Reach (roots with_layer) with_layer.blobs layer)
            × (Map.lookup layer orphans ≡ Map.lookup layer with_layer.blobs)))
get_orphaned_blobs-Reach_example = get_orphaned_blobs-Reach first first-Picks with_layer layer

abbrev ticks : List Tick
ticks =
    record {
      state = leader;
      clock = late;
      phase1_db = with_layer;
      phase2_db = with_layer;
      manifest_cleaned = all_cleaned;
      blob_cleaned = all_cleaned;
    }
    ∷ []

do_garbage_collect-AreSpared_example : AreSpared (do_garbage_collect 1 first ticks)
do_garbage_collect-AreSpared_example =
    do_garbage_collect-AreSpared 1 first first-Picks ticks
      ((with_layer-IsKeyed, with_layer-IsKeyed), tt)

-- The bytes are the value itself.
abbrev sender : Node Serializable
sender = record { store = new with_layer 1; snapshot_index = 7; snapshot = none }

abbrev receiver : Node Serializable
receiver = record { store = new fresh 2; snapshot_index = 0; snapshot = none }

abbrev same : Serializable → Serializable
same s = s

abbrev an_id : Option LogId → ℕ → String
an_id l n = "snapshot"

sender-IsKeyed : IsKeyed sender.store.db
unfolding new
sender-IsKeyed = with_layer-IsKeyed

receiver-fresh : receiver.store.db ≡ fresh
unfolding new
receiver-fresh = refl

install_snapshot-IsOverlay_example :
    (b' : Node Serializable) × (install_snapshot some (build_snapshot same an_id sender).1 receiver
      ≡ some b')
    × IsOverlay sender.store.db receiver.store.db b'.store.db
    × (b'.snapshot ≡ some (build_snapshot same an_id sender).1)
    × (b'.store.id ≡ receiver.store.id)
install_snapshot-IsOverlay_example =
    install_snapshot-IsOverlay same some an_id sender receiver sender-IsKeyed refl

install_snapshot-fresh_example :
    (b' : Node Serializable) × (install_snapshot some (build_snapshot same an_id sender).1 receiver
      ≡ some b')
    × IsSameState sender.store.db b'.store.db
    × IsCovered b'.store
install_snapshot-fresh_example =
    install_snapshot-fresh same some an_id sender receiver sender-IsKeyed refl receiver-fresh

abbrev ticking : ℕ → ℕ
ticking k = k

layer_importable : AreImportable with_layer.blobs
unfolding Map.lookup
layer_importable d a e = ground arith

no_manifest_importable : AreImportable with_layer.manifests
unfolding Map.lookup
no_manifest_importable d a e = absurd (ground arith)

import_actions-export_example :
    (db : Db) × (apply_actions (import_actions ticking (export with_layer)) fresh ≡ ok db)
    × IsClone ticking with_layer db
import_actions-export_example =
    import_actions-export ticking with_layer with_layer-IsKeyed layer_importable
      no_manifest_importable

abbrev unmounted_layer : Artifact
unmounted_layer = record mounted_layer { repositories = [] }

abbrev swept : ImportBody
swept = record { blobs = (layer, unmounted_layer) ∷ []; manifests = []; tags = [] }

swept_found : Map.lookup layer swept.blobs ≡ some unmounted_layer
unfolding Map.lookup Digest-discrete
swept_found = ground (arith, ==_refl layer)

import_actions-panic_example : apply_actions (import_actions ticking swept) fresh ≡ panic
import_actions-panic_example =
    import_actions-panic ticking swept layer unmounted_layer swept_found refl refl
