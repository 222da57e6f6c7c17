-- ===== src/Tests/Files.antt =====
-- Digests as texts, and the removal of an object's file.
use distribd.Prelude.{[], ◌∷◌, ok, ◌≡◌, refl, true, false, List, Bool, str_dec}
use distribd.Garbage.Files.{has_entry, cleanup_object, IsCleaned, cleanup_object-IsCleaned}
use distribd.Paths.{FilePath, FilePath-discrete}

-- two blobs that share their first directory
abbrev aabb : FilePath
aabb = "aa" ∷ "blobs" ∷ []

abbrev disk : List FilePath
disk =
    ("07" ∷ "cc" ∷ "bb" ∷ aabb)
    ∷ ("cc" ∷ "bb" ∷ aabb)
    ∷ ("bb" ∷ aabb)
    ∷ ("08" ∷ "dd" ∷ aabb)
    ∷ ("dd" ∷ aabb)
    ∷ aabb
    ∷ ("blobs" ∷ [])
    ∷ []

a_file : has_entry ("07" ∷ "cc" ∷ "bb" ∷ aabb) disk ≡ false
unfolding has_entry str_dec FilePath-discrete
a_file = refl

cleanup_object-IsCleaned_example :
    (result : List FilePath × Bool) × (cleanup_object
        (λ p. true)
        (λ p. true)
        ("07" ∷ "cc" ∷ "bb" ∷ aabb)
        disk
      ≡ ok result)
    × IsCleaned (λ p. true) (λ p. true) ("07" ∷ "cc" ∷ "bb" ∷ aabb) disk result
cleanup_object-IsCleaned_example =
    cleanup_object-IsCleaned (λ p. true) (λ p. true) "07" ("cc" ∷ "bb" ∷ aabb) disk a_file
