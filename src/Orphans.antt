-- ===== src/Orphans.antt =====
-- `get_orphaned_blobs` and `get_orphaned_manifests` of src/store/mod.rs: what no tag, and no
-- manifest through its dependencies, refers to. The next element of a `HashSet` is whatever `pick`
-- says. The `while` loop takes fuel, `none` being that it ran out; `enough` is always enough.
pub mod Reach
pub mod Worklist
pub mod Tags
use distribd.Prelude.{
  length, filter, ℕ, suc, zero, ◌+◌, Option, none, some, List, [], ◌∷◌, ◌++◌, if◌then◌else◌, Bool,
  not, map,
}
use distribd.Prelude.Set
use distribd.Prelude.Map
use distribd.Prelude.Map.{Map}
use distribd.Types.{digest_eq, Digest, TagKey, Artifact}
use distribd.StateMachine.{Tree, Db}

abbrev pub or_nothing : Option (List Digest) → List Digest
or_nothing none = []
or_nothing (some ds) = ds

-- the dependencies of a blob that is there; a dangling one has none
abbrev pub dependencies_of : Option Artifact → List Digest
dependencies_of none = []
dependencies_of (some a) = or_nothing a.dependencies

-- the first loop: the dependencies of all manifests
unfoldable pub manifest_dependencies : Tree → List Digest → List Digest
manifest_dependencies [] visiting = visiting
manifest_dependencies ((digest, manifest) ∷ manifests) visiting =
    manifest_dependencies manifests (Set.extend (or_nothing manifest.dependencies) visiting)

module _ (pick : List Digest → Option Digest) (blobs : Tree) where
  unfoldable pub visit : ℕ → List Digest → List Digest → Option (List Digest)
  visit zero visiting visited = none
  visit (suc fuel) visiting visited = elim (pick visiting) [
    | none ↦ some visited
    | some digest ↦
        visit fuel
          (Set.remove digest (
            Set.extend
              (filter (λ d. not (Set.contains visited d))
                (dependencies_of (Map.lookup digest blobs)))
              visiting))
          (Set.insert digest visited)
  ]

-- all the digests that the loop can meet
abbrev pub blob_dependencies : Tree → List Digest
blob_dependencies [] = []
blob_dependencies ((digest, blob) ∷ blobs) = or_nothing blob.dependencies ++ blob_dependencies blobs

abbrev pub roots : Db → List Digest
roots db = manifest_dependencies db.manifests []

abbrev pub enough : Db → ℕ
enough db = suc (length (roots db ++ blob_dependencies db.blobs))

unfoldable pub get_orphaned_blobs : (List Digest → Option Digest) → Db → Option Tree
unfolding visit manifest_dependencies
get_orphaned_blobs pick db = elim (visit pick db.blobs (enough db) (roots db) []) [
  | none ↦ none
  | some visited ↦ some (Map.retain (λ k. not (Set.contains visited k)) db.blobs)
]

abbrev pub tagged : Db → List Digest
tagged db = Set.extend (map (λ (row : TagKey × Digest). row.1) db.tags) []

unfoldable pub get_orphaned_manifests : Db → Tree
get_orphaned_manifests db = Map.retain (λ k. not (Set.contains (tagged db) k)) db.manifests
