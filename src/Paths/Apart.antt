-- ===== src/Paths/Apart.antt =====
-- No two files of a node have one path.
use Prim.Native.Char.{Char, code}
use Prim.Native.String
use Prim.Native.String.append
use distribd.Prelude.{
  ℕ, suc, ◌<◌, String, [], ◌∷◌, ok, Bool, true, false, leb, ◌&&◌, ◌||◌, nat_eq, ◌≡◌, ◌≢◌, sym, ap,
  ◌∙◌, arith, Bool-cases,
}
use distribd.Types.{Digest}
use distribd.Paths.{
  FilePath, is_absolute, split_at, object_path, get_blob_path, get_manifest_path, get_upload_path,
  upload_path, get_temp_path, get_temp_mirror_path,
}

abbrev is_hex : Char → Bool
is_hex c = (leb 0x30 (code c) && leb (code c) 0x39) || (leb 0x61 (code c) && leb (code c) 0x66)

abbrev AllHex : String → Type 0
AllHex String.[] = Unit
AllHex (String.◌∷◌ c s) = (is_hex c ≡ true) × AllHex s

abbrev length : String → ℕ
length String.[] = 0
length (String.◌∷◌ c s) = suc (length s)

-- lower-case hexadecimal digits, more than the six that name the directories
pub record IsHash (hash : String) : Type 0 where
  pub hex : AllHex hash
  pub long : 6 < length hash

split_pair :
    (a b : Char) (s : String)
    → is_hex a ≡ true
    → is_hex b ≡ true
    → split_at 2 (String.◌∷◌ a (String.◌∷◌ b s)) ≡ ok (String.◌∷◌ a (String.◌∷◌ b String.[]), s)
unfolding split_at
split_pair a b s h k = ground arith

-- The path of an object, its names apart.
record Places (root kind : String) (digest : Digest) : Type 0 where
  pub first : String
  pub second : String
  pub third : String
  pub rest : String
  pub path : object_path root kind digest ≡ ok (rest ∷ third ∷ second ∷ first ∷ kind ∷ root ∷ [])
  pub whole : String.◌++◌ first (String.◌++◌ second (String.◌++◌ third rest)) ≡ digest.hash

pair_append :
    (a b : Char) (s : String)
    → String.◌++◌ (String.◌∷◌ a (String.◌∷◌ b String.[])) s ≡ String.◌∷◌ a (String.◌∷◌ b s)
pair_append a b s =
    append.cons a (String.◌∷◌ b String.[]) s
    ∙ ap (String.◌∷◌ a) (append.cons b String.[] s ∙ ap (String.◌∷◌ b) (append.nil s))

places :
    (root kind algo hash : String)
    → is_absolute kind ≡ false
    → AllHex hash
    → 6 < length hash
    → Places root kind (record { algo = algo; hash = hash })
unfolding object_path
places root kind algo
      (String.◌∷◌ a
        (String.◌∷◌ b (String.◌∷◌ c (String.◌∷◌ d (String.◌∷◌ e (String.◌∷◌ f (String.◌∷◌ g s)))))))
      k h l =
    record {
      first = String.◌∷◌ a (String.◌∷◌ b String.[]);
      second = String.◌∷◌ c (String.◌∷◌ d String.[]);
      third = String.◌∷◌ e (String.◌∷◌ f String.[]);
      rest = String.◌∷◌ g s;
      path = ground (
        arith,
        split_pair a b (String.◌∷◌ c (String.◌∷◌ d (String.◌∷◌ e (String.◌∷◌ f (String.◌∷◌ g s))))),
        split_pair c d (String.◌∷◌ e (String.◌∷◌ f (String.◌∷◌ g s))),
        split_pair e f (String.◌∷◌ g s),
      );
      whole = simp pair_append;
    }
places root kind algo _ k h l = absurd (omega arith)

-- The paths of two digests under one root, and when they are the same.
pub record AreApart (root : String) (d e : Digest) : Type 0 where
  pub blob_d : FilePath
  pub blob_e : FilePath
  pub manifest_d : FilePath
  pub manifest_e : FilePath
  pub at_blob_d : get_blob_path root d ≡ ok blob_d
  pub at_blob_e : get_blob_path root e ≡ ok blob_e
  pub at_manifest_d : get_manifest_path root d ≡ ok manifest_d
  pub at_manifest_e : get_manifest_path root e ≡ ok manifest_e
  pub blobs : blob_d ≡ blob_e → d.hash ≡ e.hash
  pub manifests : manifest_d ≡ manifest_e → d.hash ≡ e.hash
  pub kinds : blob_d ≢ manifest_e
  pub uploads :
      (id : String)
      → (blob_d ≢ get_upload_path root id)
        × (manifest_d ≢ get_upload_path root id)
        × (blob_d ≢ get_temp_path root id)
        × (manifest_d ≢ get_temp_path root id)
        × (blob_d ≢ get_temp_mirror_path root id)
        × (manifest_d ≢ get_temp_mirror_path root id)

-- the text that the four names above the object's kind make
abbrev joined : FilePath → String
joined (rest ∷ third ∷ second ∷ first ∷ path) =
    String.◌++◌ first (String.◌++◌ second (String.◌++◌ third rest))
joined _ = String.[]

abbrev kind_of : FilePath → String
kind_of (rest ∷ third ∷ second ∷ first ∷ kind ∷ path) = kind
kind_of _ = String.[]

-- a path of more than three names is not that of a file in `uploads`
deep-ne :
    (root prefix id r c b a : String) (path : FilePath)
    → r ∷ c ∷ b ∷ a ∷ path ≢ upload_path root prefix id
deep-ne root prefix id r c b a path p =
    ground (arith, p, Bool-cases (is_absolute (String.◌++◌ prefix id)))

abbrev head_code : String → ℕ
head_code String.[] = 0
head_code (String.◌∷◌ c s) = code c

different_kinds : ◌≢◌ {A = String} "blobs" "manifests"
different_kinds p = omega (arith, ap head_code p)

hash_at :
    (d : Digest) (root kind : String)
    → IsHash d.hash
    → is_absolute kind ≡ false
    → Places root kind d
hash_at d root kind h k = places root kind d.algo d.hash k h.hex h.long

-- Objects whose hashes are more than six lower-case hexadecimal digits have paths, and two have the
-- same only as two blobs or two manifests of one hash. No object's file is that of an upload, of a
-- manifest that is being pushed, or of a download.
pub objects-AreApart :
    (root : String) (d e : Digest) → IsHash d.hash → IsHash e.hash → AreApart root d e
unfolding get_blob_path get_manifest_path get_upload_path get_temp_path get_temp_mirror_path
objects-AreApart root d e h k =
    let b = hash_at d root "blobs" h (ground arith) in
    let b' = hash_at e root "blobs" k (ground arith) in
    let m = hash_at d root "manifests" h (ground arith) in
    let m' = hash_at e root "manifests" k (ground arith) in
    record {
      blob_d = _;
      blob_e = _;
      manifest_d = _;
      manifest_e = _;
      at_blob_d = b.path;
      at_blob_e = b'.path;
      at_manifest_d = m.path;
      at_manifest_e = m'.path;
      blobs = λ p. sym b.whole ∙ ap joined p ∙ b'.whole;
      manifests = λ p. sym m.whole ∙ ap joined p ∙ m'.whole;
      kinds = λ p. different_kinds (ap kind_of p);
      uploads = λ id. (
        deep-ne root "blob-" id _ _ _ _ _,
        deep-ne root "blob-" id _ _ _ _ _,
        deep-ne root "manifest-" id _ _ _ _ _,
        deep-ne root "manifest-" id _ _ _ _ _,
        deep-ne root "mirror-" id _ _ _ _ _,
        deep-ne root "mirror-" id _ _ _ _ _,
      );
    }
