-- ===== src/Mirror/Transfers.antt =====
-- What a transfer that succeeds has checked, and when the mirror tries again.
use distribd.Prelude.{
  ℕ, String, Option, none, some, List, [], ◌∷◌, ok, true, false, ◌≡◌, refl, arith, subst, inl, inr,
  Bool-cases, Option-cases, ◌==◌, ==_eq, ==_refl, nat_eq,
}
use distribd.Prelude.Set
use distribd.Prelude.Set.{contains-insert}
use distribd.Prelude.Map
use distribd.Prelude.Map.{lookup-insert}
use distribd.Types.{digest_eq, Digest, Artifact, RegistryAction}
use distribd.StateMachine.{Db, stored, apply_action, apply_actions}
use distribd.Mirror.{
  MirrorRequest, blob, manifest, MirrorResult, success, succeed, Download, sources, digest_of,
  entry_of, validate, finish, do_transfer, Waiters, changed, timeout, Rounds, start, next,
}

-- the node has the object
abbrev pub IsHere : ℕ → Option Artifact → Type 0
IsHere id none = ⊥
IsHere id (some artifact) = Set.contains artifact.locations id ≡ true

abbrev pub action_of : MirrorResult → List RegistryAction
action_of (success request action) = action ∷ []
action_of _ = []

pub succeed_applied :
    (now id : ℕ) (db : Db) (request : MirrorRequest) (a : Artifact)
    → entry_of db request ≡ some a
    → (db' : Db) × (apply_actions (action_of (succeed now id request)) db ≡ ok db')
      × IsHere id (entry_of db' request)
unfolding apply_actions apply_action stored
succeed_applied now id db (blob d) a e = (
  record db {
    blobs =
        Map.insert d (record a { updated = now; locations = Set.insert id a.locations }) db.blobs;
  },
  rw e refl,
  rw
      (
        lookup-insert d d (record a { updated = now; locations = Set.insert id a.locations })
            db.blobs,
        ==_refl d,
      )
      (ground (arith, contains-insert id id a.locations, ==_refl id)),
)
succeed_applied now id db (manifest d) a e = (
  record db {
    manifests =
        Map.insert d (record a { updated = now; locations = Set.insert id a.locations })
          db.manifests;
  },
  rw e refl,
  rw
      (
        lookup-insert d d (record a { updated = now; locations = Set.insert id a.locations })
            db.manifests,
        ==_refl d,
      )
      (ground (arith, contains-insert id id a.locations, ==_refl id)),
)

module _ (hash : List ℕ → Digest) (choose : List (ℕ × String) → Option (ℕ × String))
    (fetch : ℕ × String → Option Download) where
  -- The node lacked the object, what the chosen source sent has its hash, and so has the file that was
  -- written, which is moved to its place.
  pub record IsVerified (id : ℕ) (db : Db) (request : MirrorRequest) : Type 0 where
    pub artifact : Artifact
    pub source : ℕ × String
    pub download : Download
    pub known : entry_of db request ≡ some artifact
    pub absent : Set.contains artifact.locations id ≡ false
    pub chosen : choose (sources artifact.locations db.last_membership.nodes) ≡ some source
    pub fetched : fetch source ≡ some download
    pub right : hash download.received ≡ digest_of request
    pub file : List ℕ
    pub back : download.read_back ≡ some file
    pub right_file : hash file ≡ digest_of request
    pub moved : download.renamed ≡ true

  abbrev HasHash : Digest → Option (List ℕ) → Type 0
  HasHash digest back = (file : List ℕ) × (back ≡ some file) × (hash file ≡ digest)

  validate-HasHash :
      (digest : Digest) (back : Option (List ℕ))
      → validate hash choose fetch digest back ≡ true
      → HasHash digest back
  validate-HasHash digest none v = absurd (ground (arith, v))
  validate-HasHash digest (some file) v = (file, refl, ==_eq (hash file) digest v)

  finish_success :
      (now id : ℕ) (request : MirrorRequest) (download : Download) (r : MirrorRequest)
      (action : RegistryAction)
      → finish hash choose fetch now id request (some download) ≡ success r action
      → (hash download.received ≡ digest_of request)
        × HasHash (digest_of request) download.read_back
        × (download.renamed ≡ true)
        × (succeed now id request ≡ success r action)
  finish_success now id request download r action h =
      elim (Bool-cases (digest_of request == hash download.received)) [
        | inr e ↦ absurd (ground arith)
        | inl e ↦
            elim (Bool-cases (validate hash choose fetch (digest_of request) download.read_back)) [
              | inr v ↦ absurd (ground arith)
              | inl v ↦ elim (Bool-cases download.renamed) [
                | inr m ↦ absurd (ground arith)
                | inl m ↦ (
                  cc (==_eq (digest_of request) (hash download.received) e),
                  validate-HasHash (digest_of request) download.read_back v,
                  m,
                  ground arith,
                )
              ]
            ]
      ]

  pub transfer_success :
      (now id : ℕ) (db : Db) (request r : MirrorRequest) (action : RegistryAction)
      → do_transfer hash choose fetch now id db request ≡ success r action
      → IsVerified id db request × (succeed now id request ≡ success r action)
  unfolding do_transfer
  transfer_success now id db request r action h = elim (Option-cases (entry_of db request)) [
    | inl e ↦ absurd (ground arith)
    | inr (a, e) ↦ elim (Bool-cases (Set.contains a.locations id)) [
      | inl here ↦ absurd (ground arith)
      | inr absent ↦ elim (Bool-cases (Set.is_empty a.locations)) [
        | inl empty ↦ absurd (ground arith)
        | inr some_one ↦
            elim (Option-cases (choose (sources a.locations db.last_membership.nodes))) [
              | inl c ↦ absurd (ground arith)
              | inr (source, c) ↦ elim (Option-cases (fetch source)) [
                | inl f ↦ absurd (ground arith)
                | inr (download, f) ↦
                    let (right, (file, back, right_file), moved, same) =
                      finish_success now id request download r action (ground arith) in
                    (
                      record {
                        artifact = a;
                        source = source;
                        download = download;
                        known = e;
                        absent = absent;
                        chosen = c;
                        fetched = f;
                        right = right;
                        file = file;
                        back = back;
                        right_file = right_file;
                        moved = moved;
                      },
                      same,
                    )
              ]
            ]
      ]
    ]
  ]

  -- A transfer that succeeds fetched an object that the node lacked, from the source chosen for the
  -- list of the nodes that have it. The bytes that arrived have the object's hash, and so has the file
  -- that was read back, which is then in place. Its action, applied to the same database, goes through,
  -- and the entry of the object then has this node among its locations.
  pub do_transfer-IsVerified :
      (now id : ℕ) (db : Db) (request r : MirrorRequest) (action : RegistryAction)
      → do_transfer hash choose fetch now id db request ≡ success r action
      → IsVerified id db request
        × ((db' : Db) × (apply_actions (action ∷ []) db ≡ ok db')
            × IsHere id (entry_of db' request))
  do_transfer-IsVerified now id db request r action h =
      let (verified, same) = transfer_success now id db request r action h in
      (
        verified,
        subst
            (λ x.
              (db' : Db) × (apply_actions (action_of x) db ≡ ok db')
              × IsHere id (entry_of db' request))
            same (succeed_applied now id db request verified.artifact verified.known),
      )

-- Once the timer of a mirror task has stopped it never runs again, whatever the rounds that follow
-- find pending: only a change of the set makes the task try again.
pub rounds-stopped : {w w' : Waiters} → Rounds w w' → w.time ≡ false → w'.time ≡ false
rounds-stopped start h = h
rounds-stopped (next (changed pending) rest) h = rounds-stopped rest h
rounds-stopped (next (timeout pending) rest) h = absurd (ground arith)
