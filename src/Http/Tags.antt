-- ===== src/Http/Tags.antt =====
-- src/registry/tags/get.rs: the list of a repository's tags, in pages. The query's texts are parsed,
-- and the response is the list in its body with the link in its headers.
pub mod Order
pub mod Pages
use distribd.Prelude.{
  ℕ, suc, zero, ◌<◌, ◌≤◌, String, Option, none, some, List, [], ◌∷◌, ◌++◌, Outcome, ok, panic,
  unwrap, ◌>>=◌, if◌then◌else◌, not, Bool, true, false, ◌==◌, str_dec, string_eq, ltb, leb, length,
  map_outcome, ◌≡◌, refl, sym, ap, subst, ◌∙◌, arith, ◌⊎◌, inl, inr, ◌↔◌, In, head, tail,
  Bool-cases, Option-cases, Outcome-cases, ==_eq, ==_refl,
}
use Prim.Native.Nat.{Ordering}
use Prim.Native.String.{compare}
use distribd.Types.{RepositoryName}
use distribd.Token.{Token, has_permission, get_pull_challenge}
use distribd.Http.{RegistryError, must_authenticate, access_denied, repository_not_found}

pub record TagQuery : Type 0 where
  pub last : Option String
  pub n : Option ℕ

-- The `Link` header: the `last` and the `n` of the next page's query.
pub record Link : Type 0 where
  pub last : Option String
  pub n : Option ℕ

pub record Page : Type 0 where
  pub tags : List String
  pub link : Option Link

pub data TagResult : Type 0 where
  listed : Page → TagResult
  failed : RegistryError → TagResult

-- `tag` before `x` and the others, or after it, `rest` having it further on
abbrev pub place : Ordering → String → String → List String → List String → List String
place Ordering.gt tag x tags rest = tag ∷ x ∷ tags
place _ tag x tags rest = x ∷ rest

-- `sort`
abbrev pub insert_tag : String → List String → List String
insert_tag tag [] = tag ∷ []
insert_tag tag (x ∷ tags) = place (compare x tag) tag x tags (insert_tag tag tags)

unfoldable pub sort : List String → List String
sort [] = []
sort (tag ∷ tags) = insert_tag tag (sort tags)

unfoldable pub position : String → List String → Option ℕ
position last [] = none
position last (tag ∷ tags) =
    let rest = position last tags in
    if tag == last then some 0 else elim rest [ none ↦ none | some index ↦ some (suc index) ]

-- `[index..]` and `[..n]`; the second panics past the end, and the first is only used within
abbrev pub drop : ℕ → List String → List String
drop zero tags = tags
drop (suc index) [] = []
drop (suc index) (tag ∷ tags) = drop index tags

abbrev pub take : ℕ → List String → Outcome (List String)
take zero tags = ok []
take (suc n) [] = panic
take (suc n) (tag ∷ tags) = map_outcome (λ rest. tag ∷ rest) (take n tags)

abbrev pub last_of : List String → Option String
last_of [] = none
last_of (tag ∷ []) = some tag
last_of (tag ∷ tag' ∷ tags) = last_of (tag' ∷ tags)

abbrev pub from_last : Option String → List String → Outcome (List String)
from_last none tags = ok tags
from_last (some last) tags = do index ← unwrap (position last tags); ok (drop index tags)

abbrev pub up_to : Option ℕ → List String → Outcome Page
up_to none tags = ok (record { tags = tags; link = none })
up_to (some n) tags = do
  shown ← take n tags
  ok (record {
    tags = shown;
    link = if ltb n (length tags) then some (record { last = last_of shown; n = some n }) else none;
  })

abbrev pub list_tags : Option (List String) → TagQuery → Outcome TagResult
list_tags none query = ok (failed repository_not_found)
list_tags (some tags) query = do
  rest ← from_last query.last (sort tags)
  page ← up_to query.n rest
  ok (listed page)

-- `tags` is what `get_tags` gives.
unfoldable pub get : Token → RepositoryName → Option (List String) → TagQuery → Outcome TagResult
unfolding sort position
get token repository tags query =
    if not token.validated_token
    then map_outcome (λ challenge. failed (must_authenticate challenge))
        (get_pull_challenge token repository)
    else if not (has_permission token repository "pull")
    then ok (failed access_denied)
    else list_tags tags query
