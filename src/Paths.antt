-- ===== src/Paths.antt =====
-- src/utils.rs: where the files of a node are. A path is its names, the last one first, where no name
-- has a slash. `create_dir_all`, which makes an object's directories, is not part of the path. The
-- uuid of a new file is a parameter.
pub mod Apart
use mathlib.Core.List.{nil≢cons, head-eq_of_cons-eq, tail-eq_of_cons-eq}
use mathlib.Core.Logic.{dite}
use Prim.Native.Char.{Char, code}
use Prim.Native.String
use distribd.Prelude.{
  ℕ, zero, suc, ◌-◌, String, List, [], ◌∷◌, Outcome, ok, panic, ◌>>=◌, if◌then◌else◌, Bool, false,
  ltb, nat_eq, ◌==◌, Eq, str_dec, ◌≡◌, refl, sym,
}
use distribd.Types.{Digest}

abbrev pub FilePath : Type 0
FilePath = List String

unfoldable pub FilePath-discrete : Discrete FilePath
FilePath-discrete [] [] = yes refl
FilePath-discrete [] (y ∷ ys) = no (λ e. nil≢cons e)
FilePath-discrete (x ∷ xs) [] = no (λ e. nil≢cons (sym e))
FilePath-discrete (x ∷ xs) (y ∷ ys) =
    let rest = FilePath-discrete xs ys in
    dite (str_dec x y)
      (λ same.
        dite rest (λ same_rest. yes (λ i. same i ∷ same_rest i))
          (λ differ. no (λ e. differ (tail-eq_of_cons-eq e))))
      (λ differ. no (λ e. differ (head-eq_of_cons-eq e)))

instance abbrev pub file_path_eq : Eq FilePath
file_path_eq = record { dec = FilePath-discrete }

-- `PathBuf::push`: an absolute path takes the place of the old one
abbrev pub is_absolute : String → Bool
is_absolute String.[] = false
is_absolute (String.◌∷◌ c s) = code c == 0x2f

abbrev pub push : String → FilePath → FilePath
push name path = if is_absolute name then name ∷ [] else name ∷ path

-- the bytes of a character in UTF-8
abbrev pub width : Char → ℕ
width c =
    if ltb (code c) 0x80
    then 1
    else if ltb (code c) 0x800
    then 2
    else if ltb (code c) 0x10000
    then 3
    else 4

-- `&s[0..n]` and `&s[n..]`: a panic where the text is shorter, or where `n` is inside a character
unfoldable pub split_at : ℕ → String → Outcome (String × String)
split_at zero s = ok (String.[], s)
split_at (suc n) String.[] = panic
split_at (suc n) (String.◌∷◌ c s) =
    if ltb (suc n) (width c)
    then panic
    else (do (front, rest) ← split_at (suc n - width c) s; ok (String.◌∷◌ c front, rest))

unfoldable pub object_path : String → String → Digest → Outcome FilePath
unfolding split_at
object_path root kind digest = do
  (first, after_first) ← split_at 2 digest.hash
  (second, after_second) ← split_at 2 after_first
  (third, rest) ← split_at 2 after_second
  ok (push rest (push third (push second (push first (push kind (root ∷ []))))))

unfoldable pub get_blob_path : String → Digest → Outcome FilePath
unfolding object_path
get_blob_path root digest = object_path root "blobs" digest

unfoldable pub get_manifest_path : String → Digest → Outcome FilePath
unfolding object_path
get_manifest_path root digest = object_path root "manifests" digest

abbrev pub upload_path : String → String → String → FilePath
upload_path root prefix id = push (String.◌++◌ prefix id) (push "uploads" (root ∷ []))

unfoldable pub get_upload_path : String → String → FilePath
get_upload_path root upload_id = upload_path root "blob-" upload_id

unfoldable pub get_temp_path : String → String → FilePath
get_temp_path root upload_id = upload_path root "manifest-" upload_id

unfoldable pub get_temp_mirror_path : String → String → FilePath
get_temp_mirror_path root upload_id = upload_path root "mirror-" upload_id
