-- ===== src/Garbage/Files.antt =====
-- `cleanup_object` of src/garbage.rs: an object's file is removed, and then up to three directories
-- above it that have become empty. A path is its names, the last one first; the disk is the set of the
-- files and directories that are there. `can_read` and `can_remove` say for which paths the calls of
-- the file system go through.
use distribd.Prelude.{
  ℕ, zero, suc, String, List, [], ◌∷◌, Outcome, ok, panic, if◌then◌else◌, Bool, true, false, not,
  ◌||◌, ◌==◌, ==_eq, ==_refl, ◌≡◌, refl, sym, subst, ◌∙◌, arith, inl, inr, Bool-cases,
}
use distribd.Prelude.Set
use distribd.Prelude.Set.{contains-remove}
use distribd.Paths.{FilePath, file_path_eq}

abbrev pub is_in : FilePath → FilePath → Bool
is_in dir [] = false
is_in dir (name ∷ parent) = parent == dir

-- `read_dir` has an entry
unfoldable pub has_entry : FilePath → List FilePath → Bool
has_entry dir [] = false
has_entry dir (path ∷ disk) = is_in dir path || has_entry dir disk

module _ (can_read can_remove : FilePath → Bool) where
  -- the loop over the first `n` of a directory and those above it; whether it ends without an error
  unfoldable pub remove_dirs : ℕ → FilePath → List FilePath → List FilePath × Bool
  unfolding has_entry
  remove_dirs zero dir disk = (disk, true)
  remove_dirs (suc n) [] disk = (disk, true)
  remove_dirs (suc n) (name ∷ parent) disk =
      let above = remove_dirs n parent disk in
      let cleaned = remove_dirs n parent (Set.remove (name ∷ parent) disk) in
      if not (Set.contains disk (name ∷ parent))
      then above
      else if not (can_read (name ∷ parent))
      then (disk, false)
      else if has_entry (name ∷ parent) disk
      then (disk, true)
      else if not (can_remove (name ∷ parent))
      then (disk, false)
      else cleaned

  -- A path without a parent is a panic.
  unfoldable pub cleanup_object : FilePath → List FilePath → Outcome (List FilePath × Bool)
  unfolding remove_dirs
  cleanup_object [] disk = panic
  cleanup_object (name ∷ parent) disk =
      if not (Set.contains disk (name ∷ parent))
      then ok (remove_dirs 3 parent disk)
      else if not (can_remove (name ∷ parent))
      then ok (disk, false)
      else ok (remove_dirs 3 parent (Set.remove (name ∷ parent) disk))

-- everything is in a directory that is there
abbrev pub IsTree : List FilePath → Type 0
IsTree disk =
    (name : String) (parent : FilePath)
    → Set.contains disk (name ∷ parent) ≡ true
    → (Set.is_empty parent || Set.contains disk parent) ≡ true

-- one of the first `n` directories from `dir` up
abbrev pub is_above : ℕ → FilePath → FilePath → Bool
is_above zero dir path = false
is_above (suc n) [] path = false
is_above (suc n) (name ∷ parent) path = ((name ∷ parent) == path) || is_above n parent path

has_entry-contains :
    (name : String) (parent : FilePath) (disk : List FilePath)
    → Set.contains disk (name ∷ parent) ≡ true
    → has_entry parent disk ≡ true
unfolding has_entry Set.contains
has_entry-contains name parent [] h = absurd (ground arith)
has_entry-contains name parent (path ∷ disk) h = elim (Bool-cases (path == (name ∷ parent))) [
  | inl same ↦ rw (==_eq path (name ∷ parent) same, ==_refl parent) refl
  | inr differ ↦ ground (arith, has_entry-contains name parent disk, differ, h)
]

remove-IsTree :
    (path : FilePath) (disk : List FilePath)
    → has_entry path disk ≡ false
    → IsTree disk
    → IsTree (Set.remove path disk)
remove-IsTree path disk childless tree name parent h =
    let was : Set.contains disk (name ∷ parent) ≡ true =
      ground (arith, h, contains-remove path (name ∷ parent) disk) in
    elim (Bool-cases (path == parent)) [
      | inl same ↦ absurd (
          true_false (
            sym (
              subst (λ p. has_entry p disk ≡ true) (sym (==_eq path parent same))
                (has_entry-contains name parent disk was))
            ∙ childless))
      | inr differ ↦ ground (arith, tree name parent was, contains-remove path parent disk, differ)
    ]
  where
    true_false : ¬ (true ≡ false)
    true_false e = ground (arith, e)

-- What a cleaning does to the disk: nothing new, still a tree, and nothing but the directories.
pub record Cleans (n : ℕ) (dir : FilePath) (disk disk' : List FilePath) : Type 0 where
  pub shrinks : (path : FilePath) → Set.contains disk' path ≡ true → Set.contains disk path ≡ true
  pub tree : IsTree disk → IsTree disk'
  pub kept :
      (path : FilePath)
      → is_above n dir path ≡ false
      → Set.contains disk' path ≡ Set.contains disk path

same-Cleans : (n : ℕ) (dir : FilePath) (disk : List FilePath) → Cleans n dir disk disk
same-Cleans n dir disk = record { shrinks = λ p h. h; tree = λ t. t; kept = λ p h. refl }

above-Cleans :
    (n : ℕ) (name : String) (parent : FilePath) (disk disk' : List FilePath)
    → Cleans n parent disk disk'
    → Cleans (suc n) (name ∷ parent) disk disk'
above-Cleans n name parent disk disk' c = record {
  shrinks = c.shrinks;
  tree = c.tree;
  kept = λ p h. c.kept p (ground (arith, h));
}

removed-Cleans :
    (n : ℕ) (name : String) (parent : FilePath) (disk disk' : List FilePath)
    → has_entry (name ∷ parent) disk ≡ false
    → Cleans n parent (Set.remove (name ∷ parent) disk) disk'
    → Cleans (suc n) (name ∷ parent) disk disk'
removed-Cleans n name parent disk disk' childless c = record {
  shrinks = λ p h. ground (arith, c.shrinks p h, contains-remove (name ∷ parent) p disk);
  tree = λ t. c.tree (remove-IsTree (name ∷ parent) disk childless t);
  kept = λ p h. ground (arith, h, c.kept p, contains-remove (name ∷ parent) p disk);
}

module _ (can_read can_remove : FilePath → Bool) where
  remove_dirs-Cleans :
      (n : ℕ) (dir : FilePath) (disk : List FilePath)
      → Cleans n dir disk (remove_dirs can_read can_remove n dir disk).0
  unfolding remove_dirs
  remove_dirs-Cleans zero dir disk = same-Cleans zero dir disk
  remove_dirs-Cleans (suc n) [] disk = same-Cleans (suc n) [] disk
  remove_dirs-Cleans (suc n) (name ∷ parent) disk =
      elim (Bool-cases (Set.contains disk (name ∷ parent))) [
        | inr gone ↦ rw gone (above-Cleans n name parent disk _ (remove_dirs-Cleans n parent disk))
        | inl there ↦ elim (Bool-cases (can_read (name ∷ parent))) [
          | inr unread ↦ rw (there, unread) (same-Cleans (suc n) (name ∷ parent) disk)
          | inl read ↦ elim (Bool-cases (has_entry (name ∷ parent) disk)) [
            | inl shared ↦ rw (there, read, shared) (same-Cleans (suc n) (name ∷ parent) disk)
            | inr empty ↦ elim (Bool-cases (can_remove (name ∷ parent))) [
              | inr stuck ↦
                  rw (there, read, empty, stuck) (same-Cleans (suc n) (name ∷ parent) disk)
              | inl removed ↦
                  rw (there, read, empty, removed)
                    (removed-Cleans n name parent disk _ empty
                      (remove_dirs-Cleans n parent (Set.remove (name ∷ parent) disk)))
            ]
          ]
        ]
      ]

  -- What comes of the removal of an object's file: the disk is a tree as before, nothing is gone but the file
  -- and directories among the three above it, and the file is gone if there was no error.
  abbrev pub IsCleaned : FilePath → List FilePath → List FilePath × Bool → Type 0
  IsCleaned path disk (disk', cleaned) =
      Cleans 4 path disk disk' × (cleaned ≡ true → Set.contains disk' path ≡ false)

  absent :
      (path : FilePath) (disk disk' : List FilePath)
      → ((p : FilePath) → Set.contains disk' p ≡ true → Set.contains disk p ≡ true)
      → Set.contains disk path ≡ false
      → Set.contains disk' path ≡ false
  absent path disk disk' shrinks h = elim (Bool-cases (Set.contains disk' path)) [
    | inl there ↦ absurd (ground (arith, shrinks path there, h))
    | inr gone ↦ gone
  ]

  -- The removal of an object's file, which has a directory and is not one itself, ends without a panic.
  -- A disk on which everything is in a directory that is there stays so. Nothing comes to it, and
  -- nothing is taken but the file and those of the three directories above it that are then empty. The
  -- file is gone if no error is reported.
  pub cleanup_object-IsCleaned :
      (name : String) (parent : FilePath) (disk : List FilePath)
      → has_entry (name ∷ parent) disk ≡ false
      → (result : List FilePath × Bool) × (cleanup_object can_read can_remove (name ∷ parent) disk
          ≡ ok result)
        × IsCleaned (name ∷ parent) disk result
  unfolding cleanup_object
  cleanup_object-IsCleaned name parent disk file =
      elim (Bool-cases (Set.contains disk (name ∷ parent))) [
        | inr gone ↦
            let c = remove_dirs-Cleans 3 parent disk in
            (
              remove_dirs can_read can_remove 3 parent disk,
              rw gone refl,
              (
                above-Cleans 3 name parent disk _ c,
                (λ e. absent (name ∷ parent) disk _ c.shrinks gone),
              ),
            )
        | inl there ↦ elim (Bool-cases (can_remove (name ∷ parent))) [
          | inr stuck ↦ (
            (disk, false),
            rw (there, stuck) refl,
            (same-Cleans 4 (name ∷ parent) disk, (λ e. absurd (ground (arith, e)))),
          )
          | inl removed ↦
              let disk₁ = Set.remove (name ∷ parent) disk in
              let c = remove_dirs-Cleans 3 parent disk₁ in
              (
                remove_dirs can_read can_remove 3 parent disk₁,
                rw (there, removed) refl,
                (
                  removed-Cleans 3 name parent disk _ file c,
                  (λ e. absent (name ∷ parent) disk₁ _ c.shrinks (
                      ground (
                        arith,
                        contains-remove (name ∷ parent) (name ∷ parent) disk,
                        ==_refl (name ∷ parent),
                      ))),
                ),
              )
        ]
      ]
