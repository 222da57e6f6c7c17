-- ===== src/Fsck/Repair.antt =====
-- What `fsck --repair` does to the database that it checked.
use distribd.Prelude.{
  ℕ, String, Option, none, some, List, [], ◌++◌, Outcome, ok, Bool, true, ==_refl, nat_eq, ◌≡◌,
  refl, sym, subst, ◌∙◌, arith, inl, inr, Outcome-cases, All, All-append,
}
use distribd.Prelude.Set
use distribd.Prelude.Set.{contains-remove}
use distribd.Prelude.Map
use distribd.Prelude.Map.{
  HasUniqueKeys, AllRows, AllRows-mono, rows_found, insert_all-HasUniqueKeys,
}
use distribd.Types.{
  digest_eq, repository_eq, tag_key_eq, Digest, TagKey, Artifact, RegistryAction, blob_unstored,
  manifest_unstored,
}
use distribd.StateMachine.{Tree, Db, apply_actions}
use distribd.StateMachine.Artifacts.{Change, unstores, blob_change, manifest_change}
use distribd.StateMachine.Refinement.{evolve, apply_actions-Agrees, apply_actions-panic}
use distribd.StateMachine.Keys.{IsKeyed}
use distribd.Management.{Unstamped, stamp, export}
use distribd.Management.Stamps.{Ignores, evolve-Ignores}
use distribd.Management.Retags.{Skips, retag-Skips}
use distribd.Management.Export.{copied_rows}
use distribd.Paths.{FilePath, get_blob_path, get_manifest_path}
use distribd.Paths.Apart.{IsHash, objects-AreApart}
use distribd.Extractor.{Manifest, Extraction}
use distribd.Fsck.{Report, Checked, report_manifest, check_rows, look_at_manifest, fsck_user, fsck}
use distribd.Fsck.Loops.{
  mended, has_file, evolve-fixes, fixes-All, evolve-split, CanLook, check_rows_total,
}

module _ (from_str : String → Option Manifest) (is_valid : String → String → Bool)
    (drain : List Extraction → List Extraction) (exists : FilePath → Bool)
    (read : FilePath → Option String) (root : String) (id : ℕ) where
  -- What the node has has a hash, and its manifests have a type.
  pub record IsReadable (db : Db) : Type 0 where
    pub blobs :
        (d : Digest) (a : Artifact)
        → Map.lookup d db.blobs ≡ some a
        → Set.contains a.locations id ≡ true
        → IsHash d.hash
    pub manifests :
        (d : Digest) (a : Artifact)
        → Map.lookup d db.manifests ≡ some a
        → Set.contains a.locations id ≡ true
        → IsHash d.hash × (content_type : String) × (a.content_type ≡ some content_type)

  pub record IsRepaired (db db' : Db) : Type 0 where
    pub blobs :
        (d : Digest)
        → (t : ℕ) × (Map.lookup d db'.blobs
            ≡ mended exists id (get_blob_path root) d t (Map.lookup d db.blobs))
    pub manifests :
        (d : Digest)
        → (t : ℕ) × (Map.lookup d db'.manifests
            ≡ mended exists id (get_manifest_path root) d t (Map.lookup d db.manifests))
    pub tags : (k : TagKey) → Map.lookup k db'.tags ≡ Map.lookup k db.tags
    pub blobs_here :
        (d : Digest) (a : Artifact)
        → Map.lookup d db'.blobs ≡ some a
        → Set.contains a.locations id ≡ true
        → has_file exists (get_blob_path root d) ≡ true
    pub manifests_here :
        (d : Digest) (a : Artifact)
        → Map.lookup d db'.manifests ≡ some a
        → Set.contains a.locations id ≡ true
        → has_file exists (get_manifest_path root d) ≡ true

  mended_here :
      (path_of : Digest → Outcome FilePath) (d : Digest) (t : ℕ) (o : Option Artifact)
      (a : Artifact)
      → mended exists id path_of d t o ≡ some a
      → Set.contains a.locations id ≡ true
      → has_file exists (path_of d) ≡ true
  mended_here path_of d t none a h here = absurd (ground arith)
  mended_here path_of d t (some b) a h here =
      ground (arith, h, here, contains-remove id id b.locations, ==_refl id)

  -- An exported row is a row of the tree.
  exported :
      (tree : Tree)
      → HasUniqueKeys tree
      → AllRows (λ d a. Map.lookup d tree ≡ some a) (Map.insert_all tree [])
  exported tree u =
      AllRows-mono (λ d a. Map.lookup d (Map.insert_all tree []) ≡ some a)
        (λ d a. Map.lookup d tree ≡ some a) (Map.insert_all tree [])
        (λ d a found. sym (copied_rows tree u d) ∙ found)
        (rows_found (Map.insert_all tree []) (insert_all-HasUniqueKeys tree [] tt))

  module _ (path_of : Digest → Outcome FilePath)
      (unstored : ℕ → Digest → ℕ → String → RegistryAction)
      (look : Digest → FilePath → Artifact → Outcome (List Report)) (tree : Tree)
      (keyed : HasUniqueKeys tree) where
    tree_total :
        ((d : Digest) (a : Artifact)
          → Map.lookup d tree ≡ some a
          → CanLook exists id path_of look d a)
        → (checked : Checked) × (check_rows exists id path_of unstored look (Map.insert_all tree [])
            ≡ ok checked)
    tree_total can = check_rows_total exists id path_of unstored look (Map.insert_all tree []) (
        AllRows-mono (λ d a. Map.lookup d tree ≡ some a) (CanLook exists id path_of look)
          (Map.insert_all tree []) can (exported tree keyed))

    evolve-tree :
        (f : RegistryAction → Option (Digest × Change))
        → ((t : ℕ) (d : Digest) → f (unstored t d id fsck_user) ≡ some (d, unstores t id))
        → (d : Digest) (clock : ℕ → ℕ) (k : ℕ) {checked : Checked}
        → check_rows exists id path_of unstored look (Map.insert_all tree []) ≡ ok checked
        → (t : ℕ) × (evolve f d (stamp clock k checked.fixes) (Map.lookup d tree)
            ≡ ok (mended exists id path_of d t (Map.lookup d tree)))
    evolve-tree f reads d clock k {checked} h =
        subst
          (λ o.
            (t : ℕ) × (evolve f d (stamp clock k checked.fixes) o
              ≡ ok (mended exists id path_of d t o)))
          (copied_rows tree keyed d)
          (evolve-fixes exists id path_of unstored look f reads d clock (Map.insert_all tree []) k
            (insert_all-HasUniqueKeys tree [] tt) h)

  module _ (db : Db) (keyed : IsKeyed db) (readable : IsReadable db) (clock : ℕ → ℕ) where
    abbrev blob_seen : Digest → FilePath → Artifact → Outcome (List Report)
    blob_seen d path a = ok []

    look_blob_can :
        (d : Digest) (a : Artifact)
        → Map.lookup d db.blobs ≡ some a
        → CanLook exists id (get_blob_path root) (λ d path a. ok []) d a
    look_blob_can d a found here =
        let hash = readable.blobs d a found here in
        let apart = objects-AreApart root d d hash hash in (apart.blob_d, apart.at_blob_d, [], refl)

    look_manifest_can :
        (blobs : Tree) (d : Digest) (a : Artifact)
        → Map.lookup d db.manifests ≡ some a
        → CanLook exists id
            (get_manifest_path root)
            (look_at_manifest from_str is_valid drain exists read root id blobs)
            d
            a
    unfolding look_at_manifest
    look_manifest_can blobs d a found here =
        let (hash, content_type, typed) = readable.manifests d a found here in
        let apart = objects-AreApart root d d hash hash in
        (
          apart.manifest_d,
          apart.at_manifest_d,
          report_manifest from_str is_valid drain exists read root id blobs d apart.manifest_d a
              content_type,
          rw typed refl,
        )

    -- A check returns, and its fixes, blob by blob and manifest by manifest.
    record Fixes (fixes : List Unstamped) (reports : List Report) : Type 0 where
      pub returned :
          fsck from_str is_valid drain exists read root id (export db) ≡ ok (fixes, reports)
      pub blobs :
          (d : Digest)
          → (t : ℕ) × (evolve blob_change d (stamp clock 0 fixes) (Map.lookup d db.blobs)
              ≡ ok (mended exists id (get_blob_path root) d t (Map.lookup d db.blobs)))
      pub manifests :
          (d : Digest)
          → (t : ℕ) × (evolve manifest_change d (stamp clock 0 fixes) (Map.lookup d db.manifests)
              ≡ ok (mended exists id (get_manifest_path root) d t (Map.lookup d db.manifests)))
      pub tags : (k : TagKey) → All (Skips k) fixes

    fsck-Fixes : (fixes : List Unstamped) × (reports : List Report) × Fixes fixes reports
    unfolding fsck export
    fsck-Fixes =
        let (blobs, e) =
          tree_total (get_blob_path root) blob_unstored blob_seen db.blobs keyed.blobs
            look_blob_can in
        let look' = look_at_manifest from_str is_valid drain exists read root id blobs.rows in
        let (manifests, e') =
          tree_total (get_manifest_path root) manifest_unstored look' db.manifests keyed.manifests
            (look_manifest_can blobs.rows) in
        (
          blobs.fixes ++ manifests.fixes,
          manifests.reports,
          record {
            returned = rw e (rw e' refl);
            blobs = λ d.
                let (j, split) = evolve-split blob_change d clock blobs.fixes manifests.fixes 0 in
                let (t, q) =
                  evolve-tree (get_blob_path root) blob_unstored blob_seen db.blobs keyed.blobs
                    blob_change (λ t d. refl) d clock 0 e in
                (
                  t,
                  split _ _ q
                      ∙ evolve-Ignores blob_change d clock j manifests.fixes _ (
                          fixes-All exists id (get_manifest_path root) manifest_unstored look'
                            (Ignores blob_change d) (λ d' t o. refl)
                            (Map.insert_all db.manifests []) e'),
                );
            manifests = λ d.
                let (j, split) =
                  evolve-split manifest_change d clock blobs.fixes manifests.fixes 0 in
                let (t, q) =
                  evolve-tree (get_manifest_path root) manifest_unstored look' db.manifests
                    keyed.manifests manifest_change (λ t d. refl) d clock j e' in
                (
                  t,
                  split _ _ (
                        evolve-Ignores manifest_change d clock 0 blobs.fixes _ (
                          fixes-All exists id (get_blob_path root) blob_unstored blob_seen
                            (Ignores manifest_change d) (λ d' t o. refl)
                            (Map.insert_all db.blobs []) e))
                      ∙ q,
                );
            tags = λ k.
                All-append (Skips k) blobs.fixes manifests.fixes
                  (fixes-All exists id (get_blob_path root) blob_unstored blob_seen (Skips k)
                    (λ d' t o. refl) (Map.insert_all db.blobs []) e)
                  (fixes-All exists id (get_manifest_path root) manifest_unstored look' (Skips k)
                    (λ d' t o. refl) (Map.insert_all db.manifests []) e');
          },
        )

    repaired :
        (fixes : List Unstamped) (reports : List Report) (db' : Db)
        → Fixes fixes reports
        → apply_actions (stamp clock 0 fixes) db ≡ ok db'
        → IsRepaired db db'
    repaired fixes reports db' known applied =
        let agrees = apply_actions-Agrees (stamp clock 0 fixes) db applied in
        record {
          blobs = blob_after;
          manifests = manifest_after;
          tags = λ k.
              agrees.at_tag k ∙ retag-Skips clock k 0 fixes (Map.lookup k db.tags) (known.tags k);
          blobs_here = λ d a found here.
              let (t, p) = blob_after d in
              mended_here (get_blob_path root) d t (Map.lookup d db.blobs) a (sym p ∙ found) here;
          manifests_here = λ d a found here.
              let (t, p) = manifest_after d in
              mended_here (get_manifest_path root) d t (Map.lookup d db.manifests) a (sym p ∙ found)
                here;
        }
      where
        blob_after :
            (d : Digest)
            → (t : ℕ) × (Map.lookup d db'.blobs
                ≡ mended exists id (get_blob_path root) d t (Map.lookup d db.blobs))
        blob_after d =
            let agrees = apply_actions-Agrees (stamp clock 0 fixes) db applied in
            let (t, p) = known.blobs d in (t, ground (arith, agrees.at_blob d, p))

        manifest_after :
            (d : Digest)
            → (t : ℕ) × (Map.lookup d db'.manifests
                ≡ mended exists id (get_manifest_path root) d t (Map.lookup d db.manifests))
        manifest_after d =
            let agrees = apply_actions-Agrees (stamp clock 0 fixes) db applied in
            let (t, p) = known.manifests d in (t, ground (arith, agrees.at_manifest d, p))

    -- A check returns if what the database says is on the node has a hash as name, and its manifests
    -- a type. The transaction of a repair, applied to the database that was checked, goes through. It
    -- takes the node from the locations of the blobs and manifests that should be on it and have no
    -- file, drops those that are nowhere else, and leaves all else and the tags as they were, so that
    -- the file of every object that is then on the node is there.
    pub fsck-IsRepaired :
        (fixes : List Unstamped) × (reports : List Report) × (db' : Db) × (fsck from_str is_valid
            drain exists read root id
            (export db)
          ≡ ok (fixes, reports))
        × (apply_actions (stamp clock 0 fixes) db ≡ ok db')
        × IsRepaired db db'
    fsck-IsRepaired =
        let (fixes, reports, known) = fsck-Fixes in
        elim (Outcome-cases (apply_actions (stamp clock 0 fixes) db)) [
          | inl e ↦
              let (d, p) = apply_actions-panic (stamp clock 0 fixes) db e in
              absurd (ground (arith, p, (known.blobs d).1, (known.manifests d).1))
          | inr (db', e) ↦
              (fixes, reports, db', known.returned, e, repaired fixes reports db' known e)
        ]
