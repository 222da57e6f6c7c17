-- ===== src/Prelude/Texts.antt =====
-- The order of texts, that of `Ord` for Rust's strings.
use Prim.Native.Nat.{ℕ, Ordering, compare as compare_numbers}
use Prim.Native.Char.{Char, code}
use Prim.Native.String.{String, [], ◌∷◌, then, compare}
use Prim.Native.String.compare as Clauses
use mathlib.Core.Path.{◌≡◌, refl, sym, ap, subst, ◌∙◌}
use mathlib.Core.Logic.{◌⊎◌, inl, inr}
use native.Mathlib.Omega.{arith}

Ordering-cases : (o : Ordering) → (o ≡ Ordering.lt) ⊎ ((o ≡ Ordering.eq) ⊎ (o ≡ Ordering.gt))
Ordering-cases Ordering.lt = inl refl
Ordering-cases Ordering.eq = inr (inl refl)
Ordering-cases Ordering.gt = inr (inr refl)

flip_numbers : (a b : ℕ) → compare_numbers a b ≡ Ordering.gt → compare_numbers b a ≡ Ordering.lt
flip_numbers a b h = ground (arith, h)

same_numbers : (a b : ℕ) → compare_numbers a b ≡ Ordering.eq → a ≡ b
same_numbers a b h = ground (arith, h)

trans_numbers :
    (a b c : ℕ)
    → compare_numbers a b ≡ Ordering.lt
    → compare_numbers b c ≡ Ordering.lt
    → compare_numbers a c ≡ Ordering.lt
trans_numbers a b c h k = ground (arith, h, k)

self_numbers : (a : ℕ) → compare_numbers a a ≡ Ordering.eq
self_numbers a = ground arith

same_codes : (c d : Char) → compare_numbers (code c) (code d) ≡ Ordering.eq → code c ≡ code d
same_codes c d h = same_numbers (code c) (code d) h

pub flip : (s t : String) → compare s t ≡ Ordering.gt → compare t s ≡ Ordering.lt
flip [] [] h = absurd (ground (arith, h, Clauses.nil-nil))
flip [] (d ∷ t) h = absurd (ground (arith, h, Clauses.nil-cons d t))
flip (c ∷ s) [] h = Clauses.nil-cons c s
flip (c ∷ s) (d ∷ t) h =
    let cons = Clauses.cons-cons c d s t in
    let snoc = Clauses.cons-cons d c t s in
    elim (Ordering-cases (compare_numbers (code c) (code d))) [
      | inl less ↦ absurd (ground (arith, h, cons, less))
      | inr (inr more) ↦ ground (arith, snoc, flip_numbers (code c) (code d) more)
      | inr (inl same) ↦
          let rest : compare s t ≡ Ordering.gt = ground (arith, h, cons, same) in
          ground (arith, snoc, same_codes c d same, self_numbers (code c), flip s t rest)
    ]

then-lt :
    (o r : Ordering)
    → then o r ≡ Ordering.lt
    → (o ≡ Ordering.lt) ⊎ ((o ≡ Ordering.eq) × (r ≡ Ordering.lt))
then-lt Ordering.lt r h = inl refl
then-lt Ordering.eq r h = inr (refl, h)
then-lt Ordering.gt r h = absurd (ground (arith, h))

-- the first codes differ
codes-lt :
    (c e : Char) (s u : String)
    → compare_numbers (code c) (code e) ≡ Ordering.lt
    → compare (c ∷ s) (e ∷ u) ≡ Ordering.lt
codes-lt c e s u less = Clauses.cons-cons c e s u ∙ ap (λ o. then o (compare s u)) less

codes-eq :
    (c e : Char) (s u : String)
    → compare_numbers (code c) (code e) ≡ Ordering.eq
    → compare s u ≡ Ordering.lt
    → compare (c ∷ s) (e ∷ u) ≡ Ordering.lt
codes-eq c e s u same less = Clauses.cons-cons c e s u ∙ ap (λ o. then o (compare s u)) same ∙ less

pub lt_trans :
    (s t u : String)
    → compare s t ≡ Ordering.lt
    → compare t u ≡ Ordering.lt
    → compare s u ≡ Ordering.lt
lt_trans [] [] [] h k = absurd (ground (arith, h, Clauses.nil-nil))
lt_trans [] (d ∷ t) [] h k = absurd (ground (arith, k, Clauses.cons-nil d t))
lt_trans [] t (e ∷ u) h k = Clauses.nil-cons e u
lt_trans (c ∷ s) [] u h k = absurd (ground (arith, h, Clauses.cons-nil c s))
lt_trans (c ∷ s) (d ∷ t) [] h k = absurd (ground (arith, k, Clauses.cons-nil d t))
lt_trans (c ∷ s) (d ∷ t) (e ∷ u) h k = elim (then-lt _ _ (sym (Clauses.cons-cons c d s t) ∙ h)) [
  | inl less ↦ elim (then-lt _ _ (sym (Clauses.cons-cons d e t u) ∙ k)) [
    | inl less' ↦ codes-lt c e s u (trans_numbers (code c) (code d) (code e) less less')
    | inr (same', rest') ↦
        codes-lt c e s u
          (subst (λ n. compare_numbers (code c) n ≡ Ordering.lt) (same_codes d e same') less)
  ]
  | inr (same, rest) ↦ elim (then-lt _ _ (sym (Clauses.cons-cons d e t u) ∙ k)) [
    | inl less' ↦
        codes-lt c e s u
          (subst (λ n. compare_numbers n (code e) ≡ Ordering.lt) (sym (same_codes c d same)) less')
    | inr (same', rest') ↦
        codes-eq c e s u
          (subst (λ n. compare_numbers (code c) n ≡ Ordering.eq) (same_codes d e same') same)
          (lt_trans s t u rest rest')
  ]
]
