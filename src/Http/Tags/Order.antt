-- ===== src/Http/Tags/Order.antt =====
-- The order in which tags are listed.
use distribd.Prelude.{
  String, List, [], ◌∷◌, ◌≡◌, refl, subst, All-In, ◌↔◌, In, head, tail, All, AreOnce,
}
use Prim.Native.Nat.{Ordering}
use Prim.Native.String.{compare}
use text.Mathlib.TextEquality.{path_by_compare}
use distribd.Prelude.Texts.{flip, lt_trans}
use distribd.Http.Tags.{place, insert_tag, sort}

-- each tag before all that follow it, and so each once
abbrev pub IsAscending : List String → Type 0
IsAscending [] = Unit
IsAscending (x ∷ tags) = All (λ y. compare x y ≡ Ordering.lt) tags × IsAscending tags

later_In :
    (tag x t : String) (tags rest : List String)
    → In t rest ↔ In t (tag ∷ tags)
    → In t (x ∷ rest) ↔ In t (tag ∷ x ∷ tags)
later_In tag x t tags rest same = (onto, back)
  where
    onto : In t (x ∷ rest) → In t (tag ∷ x ∷ tags)
    onto (head e) = tail (head e)
    onto (tail m) = elim (same.0 m) [ head e ↦ head e | tail m' ↦ tail (tail m') ]

    back : In t (tag ∷ x ∷ tags) → In t (x ∷ rest)
    back (head e) = tail (same.1 (head e))
    back (tail m) = elim m [ head e ↦ head e | tail m' ↦ tail (same.1 (tail m')) ]

place-In :
    (o : Ordering) (tag x t : String) (tags rest : List String)
    → In t rest ↔ In t (tag ∷ tags)
    → In t (place o tag x tags rest) ↔ In t (tag ∷ x ∷ tags)
place-In Ordering.gt tag x t tags rest same = ((λ m. m), (λ m. m))
place-In Ordering.lt tag x t tags rest same = later_In tag x t tags rest same
place-In Ordering.eq tag x t tags rest same = later_In tag x t tags rest same

insert_tag-In :
    (tag : String) (tags : List String) (t : String)
    → In t (insert_tag tag tags) ↔ In t (tag ∷ tags)
insert_tag-In tag [] t = ((λ m. m), (λ m. m))
insert_tag-In tag (x ∷ tags) t =
    place-In (compare x tag) tag x t tags (insert_tag tag tags) (insert_tag-In tag tags t)

pub sort-In : (tags : List String) (t : String) → In t (sort tags) ↔ In t tags
unfolding sort
sort-In [] t = ((λ m. m), (λ m. m))
sort-In (tag ∷ tags) t =
    let same = insert_tag-In tag (sort tags) t in
    let rest = sort-In tags t in
    (
      (λ m. elim (same.0 m) [ head e ↦ head e | tail later ↦ tail (rest.0 later) ]),
      (λ m. same.1 (elim m [ head e ↦ head e | tail later ↦ tail (rest.1 later) ])),
    )

All-from :
    (P : String → Type 0) (tags : List String) → ((t : String) → In t tags → P t) → All P tags
All-from P [] h = tt
All-from P (x ∷ tags) h = (h x (head refl), All-from P tags (λ t m. h t (tail m)))

place-IsAscending :
    (o : Ordering) (tag x : String) (tags : List String)
    → compare x tag ≡ o
    → IsAscending (x ∷ tags)
    → (¬ In tag (x ∷ tags))
    → IsAscending (insert_tag tag tags)
    → IsAscending (place o tag x tags (insert_tag tag tags))
place-IsAscending Ordering.gt tag x tags o up fresh rest =
    let before = flip x tag o in
    ((before, All-from _ tags (λ t m. lt_trans tag x t before (All-In _ tags up.0 m))), up)
place-IsAscending Ordering.eq tag x tags o up fresh rest =
    absurd (fresh (head (path_by_compare x tag o)))
place-IsAscending Ordering.lt tag x tags o up fresh rest = (All-from _ _ later, rest)
  where
    later : (t : String) → In t (insert_tag tag tags) → compare x t ≡ Ordering.lt
    later t m = elim ((insert_tag-In tag tags t).0 m) [
      | head same ↦ subst (λ s. compare x s ≡ Ordering.lt) same o
      | tail m' ↦ All-In _ tags up.0 m'
    ]

insert_tag-IsAscending :
    (tag : String) (tags : List String)
    → IsAscending tags
    → (¬ In tag tags)
    → IsAscending (insert_tag tag tags)
insert_tag-IsAscending tag [] up fresh = (tt, tt)
insert_tag-IsAscending tag (x ∷ tags) up fresh =
    place-IsAscending (compare x tag) tag x tags refl up fresh
      (insert_tag-IsAscending tag tags up.1 (λ m. fresh (tail m)))

pub sort-IsAscending : (tags : List String) → AreOnce tags → IsAscending (sort tags)
unfolding sort
sort-IsAscending [] once = tt
sort-IsAscending (tag ∷ tags) once =
    insert_tag-IsAscending tag (sort tags) (sort-IsAscending tags once.1)
      (λ m. once.0 ((sort-In tags tag).0 m))
