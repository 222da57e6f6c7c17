-- ===== src/Types.antt =====
-- src/types: the values that the registry stores and the actions that the raft log carries.
-- `Blob` and `Manifest` have the same fields, so that one record models both. Times are seconds.
pub mod Digests
use mathlib.Core.Logic.{dite}
use distribd.Prelude.{ℕ, String, Option, List, Eq, str_dec, ap}

pub record Digest : Type 0 where
  pub algo : String
  pub hash : String

unfoldable pub Digest-discrete : Discrete Digest
Digest-discrete a b =
    dite (str_dec a.algo b.algo)
      (λ algo_eq.
        dite (str_dec a.hash b.hash)
          (λ hash_eq. yes (λ i. record { algo = algo_eq i; hash = hash_eq i }))
          (λ differ. no (λ p. differ (ap (λ (x : Digest). x.hash) p))))
      (λ differ. no (λ p. differ (ap (λ (x : Digest). x.algo) p)))

instance abbrev pub digest_eq : Eq Digest
digest_eq = record { dec = Digest-discrete }

pub record RepositoryName : Type 0 where
  pub name : String

unfoldable pub RepositoryName-discrete : Discrete RepositoryName
RepositoryName-discrete a b =
    dite (str_dec a.name b.name) (λ name_eq. yes (λ i. record { name = name_eq i }))
      (λ differ. no (λ p. differ (ap (λ (x : RepositoryName). x.name) p)))

instance abbrev pub repository_eq : Eq RepositoryName
repository_eq = record { dec = RepositoryName-discrete }

pub record TagKey : Type 0 where
  pub repository : RepositoryName
  pub tag : String

unfoldable pub TagKey-discrete : Discrete TagKey
TagKey-discrete a b =
    dite (RepositoryName-discrete a.repository b.repository)
      (λ repository_eq.
        dite (str_dec a.tag b.tag)
          (λ tag_eq. yes (λ i. record { repository = repository_eq i; tag = tag_eq i }))
          (λ differ. no (λ p. differ (ap (λ (x : TagKey). x.tag) p))))
      (λ differ. no (λ p. differ (ap (λ (x : TagKey). x.repository) p)))

instance abbrev pub tag_key_eq : Eq TagKey
tag_key_eq = record { dec = TagKey-discrete }

pub record Artifact : Type 0 where
  pub size : Option ℕ
  pub content_type : Option String
  pub dependencies : Option (List Digest)
  pub repositories : List RepositoryName
  pub locations : List ℕ
  pub created : ℕ
  pub updated : ℕ

abbrev pub Blob : Type 0
Blob = Artifact

abbrev pub Manifest : Type 0
Manifest = Artifact

-- The arguments stand in the order of the fields.
pub data RegistryAction : Type 0 where
  empty : RegistryAction
  blob_stored : (timestamp : ℕ) (digest : Digest) (location : ℕ) (user : String) → RegistryAction
  blob_unstored : (timestamp : ℕ) (digest : Digest) (location : ℕ) (user : String) → RegistryAction
  blob_mounted :
      (timestamp : ℕ) (digest : Digest) (repository : RepositoryName) (user : String)
      → RegistryAction
  blob_unmounted :
      (timestamp : ℕ) (digest : Digest) (repository : RepositoryName) (user : String)
      → RegistryAction
  blob_info :
      (timestamp : ℕ) (digest : Digest) (dependencies : List Digest) (content_type : String)
      → RegistryAction
  blob_stat : (timestamp : ℕ) (digest : Digest) (size : ℕ) → RegistryAction
  manifest_stored :
      (timestamp : ℕ) (digest : Digest) (location : ℕ) (user : String) → RegistryAction
  manifest_unstored :
      (timestamp : ℕ) (digest : Digest) (location : ℕ) (user : String) → RegistryAction
  manifest_mounted :
      (timestamp : ℕ) (digest : Digest) (repository : RepositoryName) (user : String)
      → RegistryAction
  manifest_unmounted :
      (timestamp : ℕ) (digest : Digest) (repository : RepositoryName) (user : String)
      → RegistryAction
  manifest_info :
      (timestamp : ℕ) (digest : Digest) (dependencies : List Digest) (content_type : String)
      → RegistryAction
  manifest_stat : (timestamp : ℕ) (digest : Digest) (size : ℕ) → RegistryAction
  hash_tagged :
      (timestamp : ℕ) (digest : Digest) (repository : RepositoryName) (tag : String) (user : String)
      → RegistryAction
