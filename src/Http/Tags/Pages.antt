-- ===== src/Http/Tags/Pages.antt =====
-- Which tags a page of the list shows, and when a query panics.
use distribd.Prelude.{
  ℕ, suc, zero, ◌<◌, ◌+◌, String, Option, none, some, List, [], ◌∷◌, ◌++◌, Outcome, ok, panic, true,
  ◌==◌, string_eq, length, length-append, ltb, if◌then◌else◌, ◌≡◌, refl, sym, ap, subst, ◌∙◌, arith,
  ◌⊎◌, inl, inr, ◌↔◌, In, head, tail, Bool-cases, Option-cases, ==_eq, ==_refl,
}
use distribd.Prelude.Map
use distribd.Prelude.Map.{Map}
use distribd.Types.{tag_key_eq, RepositoryName, Digest, TagKey}
use distribd.Prelude.Bytes.{Bytes}
use distribd.Store.Tags.{first_key, get_tags, IsLayout, IsRange, get_tags-In}
use distribd.Token.{Token, has_permission}
use distribd.Token.Permissions.{has_permission-validated}
use distribd.Http.Tags.{
  TagQuery, Page, TagResult, listed, sort, position, drop, take, last_of, from_last, up_to,
  list_tags, get,
}
use distribd.Http.Tags.Order.{IsAscending, sort-In, sort-IsAscending}

-- the tags from the query's `last` on: it is the first of them
abbrev pub StartsFrom : Option String → List String → List String → Type 0
StartsFrom none all rest = rest ≡ all
StartsFrom (some last) all rest =
    (skipped : List String) × (more : List String) × (all ≡ skipped ++ rest)
    × (rest ≡ last ∷ more)
    × (¬ In last skipped)

-- the query's `last` is no tag of the list
abbrev pub IsUnknown : Option String → List String → Type 0
IsUnknown none all = ⊥
IsUnknown (some last) all = ¬ In last all

-- there are fewer tags than the query asks for
abbrev pub IsShort : Option ℕ → List String → Type 0
IsShort none rest = ⊥
IsShort (some n) rest = length rest < n

abbrev pub IsLinked : ℕ → Page → List String → Type 0
IsLinked n page [] = page.link ≡ none
IsLinked n page (tag ∷ left) = page.link ≡ some (record { last = last_of page.tags; n = some n })

-- the page is the first `n`, and links to its last tag if there are more
abbrev pub IsPage : Option ℕ → List String → Page → Type 0
IsPage none rest page = (page.tags ≡ rest) × (page.link ≡ none)
IsPage (some n) rest page =
    (left : List String) × (rest ≡ page.tags ++ left)
    × (length page.tags ≡ n)
    × IsLinked n page left

position-none : (last : String) (tags : List String) → position last tags ≡ none → ¬ In last tags
unfolding position
position-none last [] h m = elim m [ ]
position-none last (tag ∷ tags) h m = elim (Bool-cases (tag == last)) [
  | inl same ↦ ground (arith, h, same)
  | inr differ ↦ elim m [
    | head e ↦ ground (arith, e, ==_refl last, differ)
    | tail later ↦ elim (Option-cases (position last tags)) [
      | inl p ↦ position-none last tags p later
      | inr (i, p) ↦ ground (arith, h, differ, p)
    ]
  ]
]

position-some :
    (last : String) (tags : List String) (index : ℕ)
    → position last tags ≡ some index
    → StartsFrom (some last) tags (drop index tags)
unfolding position
position-some last [] index h = absurd (ground arith)
position-some last (tag ∷ tags) index h = elim (Bool-cases (tag == last)) [
  | inl same ↦
      subst (λ i. StartsFrom (some last) (tag ∷ tags) (drop i (tag ∷ tags))) {x = 0}
        (ground (arith, h, same))
        ([], tags, refl, ap (λ x. x ∷ tags) (==_eq tag last same), (λ m. elim m [ ]))
  | inr differ ↦ elim (Option-cases (position last tags)) [
    | inl p ↦ absurd (ground (arith, h, differ, p))
    | inr (i, p) ↦
        let (skipped, more, whole, start, fresh) = position-some last tags i p in
        subst (λ j. StartsFrom (some last) (tag ∷ tags) (drop j (tag ∷ tags))) {x = suc i}
          (ground (arith, h, differ, p))
          (
            tag ∷ skipped,
            more,
            ap (λ l. tag ∷ l) whole,
            start,
            (λ m. elim m [
              | head e ↦ ground (arith, e, ==_refl last, differ)
              | tail later ↦ fresh later
            ]),
          )
  ]
]

take-cases :
    (n : ℕ) (tags : List String)
    → ((take n tags ≡ panic) × (length tags < n))
      ⊎ ((shown : List String) × (left : List String) × (take n tags ≡ ok shown)
          × (tags ≡ shown ++ left)
          × (length shown ≡ n))
take-cases zero tags = inr ([], tags, refl, refl, refl)
take-cases (suc n) [] = inl (refl, ground arith)
take-cases (suc n) (tag ∷ tags) = elim (take-cases n tags) [
  | inl (p, short) ↦ inl (rw p refl, omega (arith, short))
  | inr (shown, left, p, whole, many) ↦
      inr (tag ∷ shown, left, rw p refl, ap (λ l. tag ∷ l) whole, ap suc many)
]

from_last-cases :
    (last : Option String) (all : List String)
    → ((from_last last all ≡ panic) × IsUnknown last all)
      ⊎ ((rest : List String) × (from_last last all ≡ ok rest) × StartsFrom last all rest)
from_last-cases none all = inr (all, refl, refl)
from_last-cases (some last) all = elim (Option-cases (position last all)) [
  | inl p ↦ inl (rw p refl, position-none last all p)
  | inr (index, p) ↦ inr (drop index all, rw p refl, position-some last all index p)
]

abbrev page_of : ℕ → List String → List String → Page
page_of n shown rest = record {
  tags = shown;
  link = if ltb n (length rest) then some (record { last = last_of shown; n = some n }) else none;
}

linked :
    (n : ℕ) (shown rest left : List String)
    → length rest ≡ n + length left
    → IsLinked n (page_of n shown rest) left
linked n shown rest [] h = ground (arith, h)
linked n shown rest (tag ∷ left) h = ground (arith, h)

up_to-cases :
    (n : Option ℕ) (rest : List String)
    → ((up_to n rest ≡ panic) × IsShort n rest)
      ⊎ ((page : Page) × (up_to n rest ≡ ok page) × IsPage n rest page)
up_to-cases none rest = inr (record { tags = rest; link = none }, refl, (refl, refl))
up_to-cases (some n) rest = elim (take-cases n rest) [
  | inl (p, short) ↦ inl (rw p refl, short)
  | inr (shown, left, p, whole, many) ↦ inr (
    page_of n shown rest,
    rw p refl,
    (
      left,
      whole,
      many,
      linked n shown rest left (omega (arith, many, length-append shown left, ap length whole)),
    ),
  )
]

module _ (token : Token) (repository : RepositoryName) (query : TagQuery)
    (allowed : has_permission token repository "pull" ≡ true) where
  -- the outcomes of the handler, all the tags being given in order
  abbrev pub IsListed : Outcome TagResult → List String → Type 0
  IsListed result all =
      ((result ≡ panic) × IsUnknown query.last all)
      ⊎ ((rest : List String) × StartsFrom query.last all rest
          × (((result ≡ panic) × IsShort query.n rest)
              ⊎ ((page : Page) × (result ≡ ok (listed page)) × IsPage query.n rest page)))

  get-list_tags :
      (names : List String) → get token repository (some names) query ≡ list_tags (some names) query
  unfolding get
  get-list_tags names = rw (allowed, has_permission-validated token repository "pull" allowed) refl

  get-IsListed :
      (names : List String) → IsListed (get token repository (some names) query) (sort names)
  get-IsListed names = elim (from_last-cases query.last (sort names)) [
    | inl (p, unknown) ↦ inl (get-list_tags names ∙ rw p refl, unknown)
    | inr (rest, p, starts) ↦ inr (
      rest,
      starts,
      elim (up_to-cases query.n rest) [
        | inl (q, short) ↦ inl (get-list_tags names ∙ rw (p, q) refl, short)
        | inr (page, q, right) ↦ inr (page, get-list_tags names ∙ rw (p, q) refl, right)
      ],
    )
  ]

  -- Over sled and bincode as documented, the handler lists, for a token that may pull from the
  -- repository, the repository's tags and no others, each once and in the order of their texts, from
  -- the query's `last` on, that tag included: all of them, or the first `n` with a link to the last of
  -- these if there are more. It panics when `last` is no tag of the repository and when fewer tags than `n` are left.
  pub get-Lists :
      (serialize : TagKey → Bytes) (text : String → Bytes) (range : Bytes → List TagKey)
      (tags : Map TagKey Digest)
      → IsLayout serialize text
      → IsRange serialize tags
          (serialize (first_key repository))
          (range (serialize (first_key repository)))
      → (all : List String) × IsAscending all
        × ((tag : String)
            → In tag all ↔ (
                (digest : Digest) × (Map.lookup (record { repository = repository; tag = tag }) tags
                  ≡ some digest)))
        × IsListed (get token repository (get_tags serialize range repository) query) all
  get-Lists serialize text range tags layout ranged =
      let (names, p, once, same) = get_tags-In serialize text layout tags range repository ranged in
      (
        sort names,
        sort-IsAscending names once,
        (λ tag. (
          (λ m. (same tag).0 ((sort-In names tag).0 m)),
          (λ found. (sort-In names tag).1 ((same tag).1 found)),
        )),
        subst (λ o. IsListed (get token repository o query) (sort names)) (sym p)
            (get-IsListed names),
      )
