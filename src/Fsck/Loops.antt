-- ===== src/Fsck/Loops.antt =====
-- What the fixes of one loop of a check do to one object.
use distribd.Prelude.{
  ℕ, String, Option, none, some, List, [], ◌∷◌, ◌++◌, Outcome, ok, panic, if◌then◌else◌, Bool, true,
  false, not, ◌&&◌, ◌==◌, ==_eq, ==_refl, nat_eq, ◌≡◌, refl, sym, subst, ◌∙◌, arith, ◌⊎◌, inl, inr,
  Bool-cases, Outcome-cases, All, All-append,
}
use distribd.Prelude.Set
use distribd.Prelude.Set.{contains-remove}
use distribd.Prelude.Map
use distribd.Prelude.Map.{HasUniqueKeys, AllRows, AllRows-mono, rows_found}
use distribd.Types.{digest_eq, repository_eq, tag_key_eq, Digest, Artifact, RegistryAction}
use distribd.StateMachine.{Tree}
use distribd.StateMachine.Artifacts.{Change, unstores, change}
use distribd.StateMachine.Refinement.{evolve}
use distribd.StateMachine.Batches.{evolve-append}
use distribd.Management.{Unstamped, stamp}
use distribd.Management.Stamps.{stamp-append, Ignores, evolve-Ignores}
use distribd.Paths.{FilePath}
use distribd.Fsck.{Report, Checked, both, present, missing, check_row, check_rows, fsck_user}

abbrev pub has_file : (FilePath → Bool) → Outcome FilePath → Bool
has_file exists (ok path) = exists path
has_file exists panic = false

-- the entry without the node among its locations
abbrev pub forgotten : ℕ → ℕ → Artifact → Option Artifact
forgotten id t a =
    let left = Set.remove id a.locations in
    if Set.is_empty left then none else some (record a { updated = t; locations = left })

pub evolve-split :
    (f : RegistryAction → Option (Digest × Change)) (d : Digest) (clock : ℕ → ℕ)
    (xs ys : List Unstamped) (k : ℕ)
    → (j : ℕ) × ((o o' : Option Artifact)
        → evolve f d (stamp clock k xs) o ≡ ok o'
        → evolve f d (stamp clock k (xs ++ ys)) o ≡ evolve f d (stamp clock j ys) o')
evolve-split f d clock xs ys k =
    let (j, split) = stamp-append clock k xs ys in
    (j, λ o o' h. rw split (evolve-append f d (stamp clock k xs) (stamp clock j ys) o ∙ rw h refl))

module _ (exists : FilePath → Bool) (id : ℕ) (path_of : Digest → Outcome FilePath) where
  -- The database says that the object is here, and its file is not.
  abbrev pub is_lost : Digest → Artifact → Bool
  is_lost d a = Set.contains a.locations id && not (has_file exists (path_of d))

  -- An object's entry after a repair: nothing but the node's loss of it has changed.
  abbrev pub mended : Digest → ℕ → Option Artifact → Option Artifact
  mended d t none = none
  mended d t (some a) = if is_lost d a then forgotten id t a else some a

  module _ (unstored : ℕ → Digest → ℕ → String → RegistryAction)
      (look : Digest → FilePath → Artifact → Outcome (List Report)) where
    abbrev Row : Digest → Artifact → Checked → Type 0
    Row d' a row =
        (is_lost d' a ≡ true) × (row.fixes ≡ (λ now. unstored now d' id fsck_user) ∷ [])
        ⊎ (is_lost d' a ≡ false) × (row.fixes ≡ [])

    row-fixes :
        (d' : Digest) (a : Artifact) {row : Checked}
        → check_row exists id path_of unstored look d' a ≡ ok row
        → Row d' a row
    unfolding check_row
    row-fixes d' a h = elim (Bool-cases (is_lost d' a)) [
      | inl lost ↦ inl (lost, ground arith)
      | inr safe ↦ inr (safe, ground arith)
    ]

    check_rows-cons :
        (d' : Digest) (a : Artifact) (rows : Tree) {checked : Checked}
        → check_rows exists id path_of unstored look ((d', a) ∷ rows) ≡ ok checked
        → (row : Checked) × (rest : Checked) × (check_row exists id path_of unstored look d' a
            ≡ ok row)
          × (check_rows exists id path_of unstored look rows ≡ ok rest)
          × (row.fixes ++ rest.fixes ≡ checked.fixes)
    unfolding check_rows
    check_rows-cons d' a rows h =
        elim (Outcome-cases (check_row exists id path_of unstored look d' a)) [
          | inl e ↦ absurd (ground arith)
          | inr (row, e) ↦ elim (Outcome-cases (check_rows exists id path_of unstored look rows)) [
            | inl e' ↦ absurd (ground arith)
            | inr (rest, e') ↦ (row, rest, e, e', ground arith)
          ]
        ]

    pub fixes-All :
        (P : Unstamped → Type 0)
        → ((d' : Digest) → P (λ now. unstored now d' id fsck_user))
        → (rows : Tree) {checked : Checked}
        → check_rows exists id path_of unstored look rows ≡ ok checked
        → All P checked.fixes
    unfolding check_rows
    fixes-All P holds [] h = subst (All P) {x = []} (ground arith) tt
    fixes-All P holds ((d', a) ∷ rows) h =
        let (row, rest, e, e', p) = check_rows-cons d' a rows h in
        subst (All P) p (
          All-append P row.fixes rest.fixes (own row d' a (row-fixes d' a e))
            (fixes-All P holds rows e'))
      where
        own : (row : Checked) (d' : Digest) (a : Artifact) → Row d' a row → All P row.fixes
        own row d' a (inl (lost, p)) = subst (All P) (sym p) (holds d', tt)
        own row d' a (inr (safe, p)) = subst (All P) (sym p) tt

    module _ (f : RegistryAction → Option (Digest × Change))
        (reads : (t : ℕ) (d : Digest) → f (unstored t d id fsck_user) ≡ some (d, unstores t id))
        (d : Digest) (clock : ℕ → ℕ) where
      ignored :
          (d' : Digest) → (d' == d) ≡ false → Ignores f d (λ now. unstored now d' id fsck_user)
      ignored d' differ t o = ground (arith, reads t d', differ)

      row-Ignores :
          (d' : Digest) (a : Artifact) (row : Checked)
          → (d' == d) ≡ false
          → Row d' a row
          → All (Ignores f d) row.fixes
      row-Ignores d' a row differ (inl (lost, p)) =
          subst (All (Ignores f d)) (sym p) (ignored d' differ, tt)
      row-Ignores d' a row differ (inr (safe, p)) = subst (All (Ignores f d)) (sym p) tt

      -- The fixes of a loop leave a digest that is not in the map.
      pub fixes-Ignores :
          (rows : Tree) {checked : Checked}
          → Map.lookup d rows ≡ none
          → check_rows exists id path_of unstored look rows ≡ ok checked
          → All (Ignores f d) checked.fixes
      unfolding check_rows Map.lookup
      fixes-Ignores [] absent h = subst (All (Ignores f d)) {x = []} (ground arith) tt
      fixes-Ignores ((d', a) ∷ rows) absent h =
          let (row, rest, e, e', p) = check_rows-cons d' a rows h in
          let differ : (d' == d) ≡ false = ground (arith, absent) in
          subst (All (Ignores f d)) p (
            All-append (Ignores f d) row.fixes rest.fixes
              (row-Ignores d' a row differ (row-fixes d' a e))
              (fixes-Ignores rows (ground (arith, absent)) e'))

      evolve-row :
          (a : Artifact) (row : Checked) (k : ℕ)
          → Row d a row
          → (t : ℕ) × (evolve f d (stamp clock k row.fixes) (some a) ≡ ok (mended d t (some a)))
      unfolding stamp change
      evolve-row a row k (inl (lost, p)) =
          (clock k, rw p (ground (arith, lost, reads (clock k) d, ==_refl d)))
      evolve-row a row k (inr (safe, p)) = (0, rw p (ground (arith, safe)))

      -- They mend a digest that is in it.
      pub evolve-fixes :
          (rows : Tree) (k : ℕ) {checked : Checked}
          → HasUniqueKeys rows
          → check_rows exists id path_of unstored look rows ≡ ok checked
          → (t : ℕ) × (evolve f d (stamp clock k checked.fixes) (Map.lookup d rows)
              ≡ ok (mended d t (Map.lookup d rows)))
      unfolding Map.lookup check_rows stamp
      evolve-fixes [] k u h = (
        0,
        subst (λ fs. evolve f d (stamp clock k fs) none ≡ ok none) {x = []} (ground arith) refl,
      )
      evolve-fixes ((d', a) ∷ rows) k u h =
          let (row, rest, e, e', p) = check_rows-cons d' a rows h in
          let (j, split) = evolve-split f d clock row.fixes rest.fixes k in
          elim (Bool-cases (d' == d)) [
            | inr differ ↦
                let (t, q) = evolve-fixes rows j u.1 e' in
                let none_here =
                  evolve-Ignores f d clock k row.fixes (Map.lookup d rows)
                    (row-Ignores d' a row differ (row-fixes d' a e)) in
                (t, rw (differ, sym p) (split _ _ none_here ∙ q))
            | inl same ↦
                let own = row-fixes d' a e in
                let (t, q) = evolve-row a row k (subst (λ x. Row x a row) (==_eq d' d same) own) in
                let absent = subst (λ x. Map.lookup x rows ≡ none) (==_eq d' d same) u.0 in
                (
                  t,
                  rw (same, sym p)
                      (split _ _ q
                        ∙ evolve-Ignores f d clock j rest.fixes _ (fixes-Ignores rows absent e')),
                )
          ]

  -- The loop can look at the object: it is not here, or its path and what is looked at are there.
  abbrev pub CanLook :
      (Digest → FilePath → Artifact → Outcome (List Report)) → Digest → Artifact → Type 0
  CanLook look d a =
      Set.contains a.locations id ≡ true
      → (path : FilePath) × (path_of d ≡ ok path)
        × (reports : List Report) × (look d path a ≡ ok reports)

  module _ (unstored : ℕ → Digest → ℕ → String → RegistryAction)
      (look : Digest → FilePath → Artifact → Outcome (List Report)) where
    check_row_total :
        (d : Digest) (a : Artifact)
        → CanLook look d a
        → (row : Checked) × (check_row exists id path_of unstored look d a ≡ ok row)
    unfolding check_row
    check_row_total d a can = elim (Bool-cases (Set.contains a.locations id)) [
      | inr other ↦ (present exists id path_of unstored look d a [], ground (arith, other))
      | inl here ↦
          let (path, at, reports, found) = can here in
          elim (Bool-cases (exists path)) [
            | inl file ↦ (
              present exists id path_of unstored look d a reports,
              ground (arith, here, at, found, file),
            )
            | inr lost ↦
                (missing exists id path_of unstored look d a, ground (arith, here, at, lost))
          ]
    ]

    pub check_rows_total :
        (rows : Tree)
        → AllRows (CanLook look) rows
        → (checked : Checked) × (check_rows exists id path_of unstored look rows ≡ ok checked)
    unfolding check_rows
    check_rows_total [] can = (_, refl)
    check_rows_total ((d, a) ∷ rows) can =
        let (row, e) = check_row_total d a can.0 in
        let (rest, e') = check_rows_total rows can.1 in (both row rest, rw e (rw e' refl))
