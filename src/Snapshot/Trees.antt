-- ===== src/Snapshot/Trees.antt =====
-- The rows that a snapshot carries: copies of the trees, and the tags grouped by repository and
-- ungrouped again.
use distribd.Prelude.{
  String, Option, none, some, [], ◌∷◌, if◌then◌else◌, string_eq, ◌≡◌, refl, arith, ◌==◌,
}
use distribd.Prelude.Map
use distribd.Prelude.Map.{
  Map, HasUniqueKeys, or_else, lookup-insert, lookup-insert_all, insert-HasUniqueKeys,
  insert_all-HasUniqueKeys, lookup-nil,
}
use distribd.Types.{digest_eq, tag_key_eq, repository_eq, Digest, RepositoryName, TagKey}
use distribd.Snapshot.{Tags, inner_of, group_tags, repository_rows, insert_tags}

-- a tag in the grouped form
abbrev pub grouped : TagKey → Tags → Option Digest
grouped key tags = Map.lookup key.tag (inner_of (Map.lookup key.repository tags))

pub key_eq : (k j : TagKey) → k.repository ≡ j.repository → k.tag ≡ j.tag → k ≡ j
key_eq k j p q = λ i. record { repository = p i; tag = q i }

grouped-insert :
    (k j : TagKey) (d : Digest) (acc : Tags)
    → grouped j
        (Map.insert k.repository (Map.insert k.tag d (inner_of (Map.lookup k.repository acc))) acc)
      ≡ (if k == j then some d else grouped j acc)
grouped-insert k j d acc = ground (
  arith,
  lookup-insert k.repository j.repository
      (Map.insert k.tag d (inner_of (Map.lookup k.repository acc))) acc,
  lookup-insert k.tag j.tag d (inner_of (Map.lookup k.repository acc)),
  key_eq k j,
)

pub grouped-group_tags :
    (j : TagKey) (rows : Map TagKey Digest) (acc : Tags)
    → HasUniqueKeys rows
    → grouped j (group_tags rows acc) ≡ or_else (Map.lookup j rows) (grouped j acc)
unfolding group_tags Map.lookup
grouped-group_tags j [] acc u = refl
grouped-group_tags j ((k, d) ∷ rows) acc u = ground (
  arith,
  grouped-group_tags j rows
      (Map.insert k.repository (Map.insert k.tag d (inner_of (Map.lookup k.repository acc))) acc)
      u.1,
  grouped-insert k j d acc,
)

lookup-repository_rows :
    (r : RepositoryName) (inner : Map String Digest) (j : TagKey)
    → Map.lookup j (repository_rows r inner)
      ≡ (if r == j.repository then Map.lookup j.tag inner else none)
unfolding repository_rows Map.lookup
lookup-repository_rows r [] j = ground arith
lookup-repository_rows r ((t, d) ∷ inner) j =
    ground (arith, lookup-repository_rows r inner j, key_eq (record { repository = r; tag = t }) j)

repository_rows-HasUniqueKeys :
    (r : RepositoryName) (inner : Map String Digest)
    → HasUniqueKeys inner
    → HasUniqueKeys (repository_rows r inner)
unfolding repository_rows
repository_rows-HasUniqueKeys r [] u = tt
repository_rows-HasUniqueKeys r ((t, d) ∷ inner) u = ground (
  arith,
  lookup-repository_rows r inner (record { repository = r; tag = t }),
  repository_rows-HasUniqueKeys r inner u.1,
)

-- each repository once, and each of its tags once
abbrev pub AreKeyed : Tags → Type 0
AreKeyed [] = Unit
AreKeyed ((r, inner) ∷ tags) = (Map.lookup r tags ≡ none) × HasUniqueKeys inner × AreKeyed tags

pub lookup-insert_tags :
    (j : TagKey) (tags : Tags) (tree : Map TagKey Digest)
    → AreKeyed tags
    → Map.lookup j (insert_tags tags tree) ≡ or_else (grouped j tags) (Map.lookup j tree)
unfolding insert_tags Map.lookup
lookup-insert_tags j [] tree k = ground arith
lookup-insert_tags j ((r, inner) ∷ tags) tree k = ground (
  arith,
  lookup-insert_tags j tags (Map.insert_all (repository_rows r inner) tree) k.2,
  lookup-insert_all j (repository_rows r inner) tree (repository_rows-HasUniqueKeys r inner k.1),
  lookup-repository_rows r inner j,
)

inner-HasUniqueKeys :
    (r : RepositoryName) (tags : Tags)
    → AreKeyed tags
    → HasUniqueKeys (inner_of (Map.lookup r tags))
unfolding Map.lookup
inner-HasUniqueKeys r [] k = tt
inner-HasUniqueKeys r ((q, inner) ∷ tags) k = ground (arith, inner-HasUniqueKeys r tags k.2)

insert-AreKeyed :
    (r : RepositoryName) (inner : Map String Digest) (tags : Tags)
    → HasUniqueKeys inner
    → AreKeyed tags
    → AreKeyed (Map.insert r inner tags)
unfolding Map.insert Map.lookup
insert-AreKeyed r inner [] u k = ground arith
insert-AreKeyed r inner ((q, i) ∷ tags) u k =
    ground (arith, insert-AreKeyed r inner tags u k.2, lookup-insert r q inner tags)

pub group_tags-AreKeyed :
    (rows : Map TagKey Digest) (acc : Tags) → AreKeyed acc → AreKeyed (group_tags rows acc)
unfolding group_tags
group_tags-AreKeyed [] acc k = k
group_tags-AreKeyed ((key, d) ∷ rows) acc k = group_tags-AreKeyed rows _ (
    insert-AreKeyed key.repository _ acc
      (insert-HasUniqueKeys key.tag d _ (inner-HasUniqueKeys key.repository acc k)) k)
