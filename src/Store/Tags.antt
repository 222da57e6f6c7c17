-- ===== src/Store/Tags.antt =====
-- `get_tags` of src/store/mod.rs: the rows of the tree `tags` from the first possible key of the
-- repository on, up to the first row of another one. sled's `range` is a parameter, with the keys
-- that it yields deserialized, and so is bincode's `serialize`.
use distribd.Prelude.{
  String, Option, some, List, [], ◌∷◌, ◌++◌, if◌then◌else◌, ◌==◌, ==_eq, ==_refl, true, false,
  nat_eq, ◌≡◌, refl, sym, ap, subst, ◌∙◌, arith, inl, inr, ◌↔◌, Bool-cases, In, head, tail, All,
  AreOnce, All-In,
}
use distribd.Prelude.Bytes.{Bytes, precedes}
use distribd.Prelude.Map
use distribd.Prelude.Map.{Map}
use distribd.Types.{repository_eq, tag_key_eq, Digest, RepositoryName, TagKey}

abbrev pub first_key : RepositoryName → TagKey
first_key repository = record { repository = repository; tag = "" }

-- the loop, up to its `break`
unfoldable pub tags_of : RepositoryName → List TagKey → List String
tags_of repository [] = []
tags_of repository (key ∷ rows) =
    let digests = tags_of repository rows in
    if key.repository == repository then key.tag ∷ digests else []

unfoldable pub get_tags :
    (TagKey → Bytes) → (Bytes → List TagKey) → RepositoryName → Option (List String)
unfolding tags_of
get_tags serialize range repository =
    some (tags_of repository (range (serialize (first_key repository))))

-- What bincode's layout promises: a key is its two texts, one after the other, each with its length
-- in front, so that where a text ends is read off its bytes, and the empty text comes first.
pub record IsLayout (serialize : TagKey → Bytes) (text : String → Bytes) : Type 0 where
  pub parts : (key : TagKey) → serialize key ≡ text key.repository.name ++ text key.tag
  pub prefix_free : (s s' : String) (xs ys : Bytes) → text s ++ xs ≡ text s' ++ ys → s ≡ s'
  pub empty_first : (s : String) → precedes (text "") (text s) ≡ true

abbrev pub IsSorted : (TagKey → Bytes) → List TagKey → Type 0
IsSorted serialize [] = Unit {0}
IsSorted serialize (key ∷ rows) =
    All (λ later. precedes (serialize key) (serialize later) ≡ true) rows × IsSorted serialize rows

-- What sled's `range` promises: the keys of the tree from the given bytes on, each once and in order.
pub record IsRange (serialize : TagKey → Bytes) (tags : Map TagKey Digest) (from : Bytes)
    (rows : List TagKey) : Type 0 where
  pub sorted : IsSorted serialize rows
  pub once : AreOnce rows
  pub present :
      (key : TagKey) → In key rows → (digest : Digest) × (Map.lookup key tags ≡ some digest)
  pub above : All (λ key. precedes from (serialize key) ≡ true) rows
  pub complete :
      (key : TagKey) (digest : Digest)
      → Map.lookup key tags ≡ some digest
      → precedes from (serialize key) ≡ true
      → In key rows

precedes-append :
    (common xs ys : Bytes) → precedes xs ys ≡ true → precedes (common ++ xs) (common ++ ys) ≡ true
unfolding precedes
precedes-append [] xs ys h = h
precedes-append (x ∷ common) xs ys h = ground (arith, ==_refl x, precedes-append common xs ys h)

-- what lies between two keys with a common beginning has it too
between :
    (common xs ys middle : Bytes)
    → precedes (common ++ xs) middle ≡ true
    → precedes middle (common ++ ys) ≡ true
    → (rest : Bytes) × (middle ≡ common ++ rest)
unfolding precedes
between [] xs ys middle low high = (middle, refl)
between (x ∷ common) xs ys [] low high = absurd (ground arith)
between (x ∷ common) xs ys (y ∷ middle) low high = elim (Bool-cases (x == y)) [
  | inl same ↦
      let e = ==_eq x y same in
      let (rest, p) =
        between common xs ys middle (ground (arith, e, low, ==_refl x))
          (ground (arith, e, high, ==_refl x)) in
      (rest, subst (λ z. z ∷ middle ≡ x ∷ (common ++ rest)) e (ap (λ l. x ∷ l) p))
  | inr differ ↦ absurd (ground (arith, low, high, differ))
]

module _ (serialize : TagKey → Bytes) (text : String → Bytes)
    (layout : IsLayout serialize text) where
  -- the keys up to one of the repository's are the repository's
  same_repository :
      (repository : RepositoryName) (tag : String) (key : TagKey)
      → precedes (serialize (first_key repository)) (serialize key) ≡ true
      → precedes (serialize key) (serialize (record { repository = repository; tag = tag })) ≡ true
      → key.repository ≡ repository
  same_repository repository tag key low high =
      let (rest, p) =
        between (text repository.name) (text "") (text tag) (serialize key)
          (subst (λ b. precedes b (serialize key) ≡ true) (layout.parts (first_key repository)) low)
          (subst (λ b. precedes (serialize key) b ≡ true)
            (layout.parts (record { repository = repository; tag = tag })) high) in
      ap (λ (n : String). record { name = n })
        (layout.prefix_free key.repository.name repository.name (text key.tag) rest
          (sym (layout.parts key) ∙ p))

  first :
      (repository : RepositoryName) (tag : String)
      → precedes
          (serialize (first_key repository))
          (serialize (record { repository = repository; tag = tag }))
        ≡ true
  first repository tag =
      rw
        (
          layout.parts (first_key repository),
          layout.parts (record { repository = repository; tag = tag }),
        )
        (precedes-append (text repository.name) (text "") (text tag) (layout.empty_first tag))

  taken :
      (repository : RepositoryName) (key : TagKey) (rows : List TagKey)
      → key.repository ≡ repository
      → tags_of repository (key ∷ rows) ≡ key.tag ∷ tags_of repository rows
  unfolding tags_of
  taken repository key rows p = ground (arith, p, ==_refl repository)

  stopped :
      (repository : RepositoryName) (key : TagKey) (rows : List TagKey)
      → ((key.repository == repository) ≡ false)
      → tags_of repository (key ∷ rows) ≡ []
  unfolding tags_of
  stopped repository key rows p = rw p refl

  In-tags_of :
      (repository : RepositoryName) (rows : List TagKey) (tag : String)
      → IsSorted serialize rows
      → All (λ key. precedes (serialize (first_key repository)) (serialize key) ≡ true) rows
      → In (record { repository = repository; tag = tag }) rows
      → In tag (tags_of repository rows)
  In-tags_of repository (key ∷ rows) tag sorted above (head same) =
      subst (In tag) (sym (taken repository key rows (ap (λ (k : TagKey). k.repository) same)))
        (head (ap (λ (k : TagKey). k.tag) same))
  In-tags_of repository (key ∷ rows) tag sorted above (tail later) =
      subst (In tag)
        (sym (
          taken repository key rows
            (same_repository repository tag key above.0 (All-In _ rows sorted.0 later))))
        (tail (In-tags_of repository rows tag sorted.1 above.1 later))
  In-tags_of repository [] tag sorted above m = elim m [ ]

  of-In :
      (repository : RepositoryName) (rows : List TagKey) (tag : String)
      → In tag (tags_of repository rows)
      → In (record { repository = repository; tag = tag }) rows
  unfolding tags_of
  of-In repository [] tag m = elim m [ ]
  of-In repository (key ∷ rows) tag m = elim (Bool-cases (key.repository == repository)) [
    | inl same ↦
        let e = ==_eq key.repository repository same in
        elim (subst (In tag) (taken repository key rows e) m) [
          | head p ↦ head (λ i. record { repository = e i; tag = p i })
          | tail later ↦ tail (of-In repository rows tag later)
        ]
    | inr differ ↦ elim (subst (In tag) (stopped repository key rows differ) m) [ ]
  ]

  of-AreOnce :
      (repository : RepositoryName) (rows : List TagKey)
      → AreOnce rows
      → AreOnce (tags_of repository rows)
  unfolding tags_of
  of-AreOnce repository [] once = tt
  of-AreOnce repository (key ∷ rows) once = elim (Bool-cases (key.repository == repository)) [
    | inr differ ↦ subst AreOnce (sym (stopped repository key rows differ)) tt
    | inl same ↦
        let e = ==_eq key.repository repository same in
        subst AreOnce (sym (taken repository key rows e)) (
          (λ again. once.0 (
              subst (λ r. In (record { repository = r; tag = key.tag }) rows) (sym e)
                (of-In repository rows key.tag again))),
          of-AreOnce repository rows once.1,
        )
  ]

  -- what is listed for a repository
  pub get_tags-In :
      (tags : Map TagKey Digest) (range : Bytes → List TagKey) (repository : RepositoryName)
      → IsRange serialize tags
          (serialize (first_key repository))
          (range (serialize (first_key repository)))
      → (names : List String) × (get_tags serialize range repository ≡ some names)
        × AreOnce names
        × ((tag : String)
            → (In tag names ↔ (
                (digest : Digest) × (Map.lookup (record { repository = repository; tag = tag }) tags
                  ≡ some digest))))
  unfolding get_tags
  get_tags-In tags range repository r = (
    _,
    refl,
    of-AreOnce repository _ r.once,
    (λ tag. (
      (λ m. r.present _ (of-In repository _ tag m)),
      (λ (digest, p).
          In-tags_of repository _ tag r.sorted r.above
            (r.complete _ digest p (first repository tag))),
    )),
  )
