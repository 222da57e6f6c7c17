-- ===== src/Mirror/Changes.antt =====
-- What the action of a successful transfer changes.
use distribd.Prelude.{
  ℕ, some, ok, ◌≡◌, refl, sym, ap, arith, inl, inr, ◌⊎◌, Bool-cases, ◌==◌, ==_eq, ==_refl, nat_eq,
}
use distribd.Prelude.Set
use distribd.Prelude.Set.{contains-insert}
use distribd.Prelude.Map
use distribd.Prelude.Map.{lookup-insert}
use distribd.Types.{digest_eq, Digest, Artifact}
use distribd.StateMachine.{Tree, Db, stored, apply_action, apply_actions}
use distribd.Mirror.{MirrorRequest, blob, manifest, succeed, entry_of}
use distribd.Mirror.Transfers.{IsHere, action_of}

module _ (id : ℕ) where
  -- what a successful transfer's action does to any object
  pub record Stores (db db' : Db) (request : MirrorRequest) : Type 0 where
    pub nodes : db'.last_membership ≡ db.last_membership
    pub here : IsHere id (entry_of db' request)
    pub others : (q : MirrorRequest) → (q ≡ request) ⊎ (entry_of db' q ≡ entry_of db q)

  abbrev stored_here : ℕ → Artifact → Artifact
  stored_here now a = record a { updated = now; locations = Set.insert id a.locations }

  insert-IsHere :
      (now : ℕ) (d : Digest) (a : Artifact) (tree : Tree)
      → IsHere id (Map.lookup d (Map.insert d (stored_here now a) tree))
  insert-IsHere now d a tree =
      rw (lookup-insert d d (stored_here now a) tree, ==_refl d)
        (ground (arith, contains-insert id id a.locations, ==_refl id))

  insert_others :
      (now : ℕ) (d : Digest) (a : Artifact) (tree : Tree) (d' : Digest)
      → (d' ≡ d) ⊎ (Map.lookup d' (Map.insert d (stored_here now a) tree) ≡ Map.lookup d' tree)
  insert_others now d a tree d' = elim (Bool-cases (d == d')) [
    | inl same ↦ inl (sym (==_eq d d' same))
    | inr differ ↦ inr (ground (arith, lookup-insert d d' (stored_here now a) tree, differ))
  ]

  with_blob-Stores :
      (now : ℕ) (db : Db) (d : Digest) (a : Artifact)
      → Stores db (record db { blobs = Map.insert d (stored_here now a) db.blobs }) (blob d)
  with_blob-Stores now db d a = record {
    nodes = refl;
    here = insert-IsHere now d a db.blobs;
    others = others;
  }
    where
      others :
          (q : MirrorRequest)
          → (q ≡ blob d)
            ⊎ (entry_of (record db { blobs = Map.insert d (stored_here now a) db.blobs }) q
                ≡ entry_of db q)
      others (blob d') = elim (insert_others now d a db.blobs d') [
        | inl same ↦ inl (ap blob same)
        | inr kept ↦ inr kept
      ]
      others (manifest d') = inr refl

  with_manifest-Stores :
      (now : ℕ) (db : Db) (d : Digest) (a : Artifact)
      → Stores db
          (record db { manifests = Map.insert d (stored_here now a) db.manifests })
          (manifest d)
  with_manifest-Stores now db d a = record {
    nodes = refl;
    here = insert-IsHere now d a db.manifests;
    others = others;
  }
    where
      others :
          (q : MirrorRequest)
          → (q ≡ manifest d)
            ⊎ (entry_of (record db { manifests = Map.insert d (stored_here now a) db.manifests }) q
                ≡ entry_of db q)
      others (blob d') = inr refl
      others (manifest d') = elim (insert_others now d a db.manifests d') [
        | inl same ↦ inl (ap manifest same)
        | inr kept ↦ inr kept
      ]

  pub succeed-Stores :
      (now : ℕ) (db : Db) (request : MirrorRequest) (a : Artifact)
      → entry_of db request ≡ some a
      → (db' : Db) × (apply_actions (action_of (succeed now id request)) db ≡ ok db')
        × Stores db db' request
  unfolding apply_actions apply_action stored
  succeed-Stores now db (blob d) a e = (_, rw e refl, with_blob-Stores now db d a)
  succeed-Stores now db (manifest d) a e = (_, rw e refl, with_manifest-Stores now db d a)
