-- ===== src/Prelude/Bytes.antt =====
-- Sled's keys: bytes in lexicographic order, and the numbers that they write, the high byte first.
use distribd.Prelude.Equality.{◌==◌, ==_eq, ==_refl, nat_eq, Bool-cases}
use distribd.Prelude.Lists.{ltb, leb, length, All}
use Prim.Native.Nat.{ℕ, suc, ◌+◌, ◌*◌, ◌^◌, ◌<◌}
use mathlib.Core.Bool.{Bool, true, false, ◌&&◌, ◌||◌}
use mathlib.Core.List.{List, [], ◌∷◌}
use mathlib.Core.Logic.{inl, inr}
use mathlib.Core.Path.{◌≡◌, subst}
use native.Mathlib.Nat.{mul-le-mul_right, suc-mul, mul_comm, pow-suc}
use native.Mathlib.Omega.{arith}

abbrev pub Bytes : Type 0
Bytes = List ℕ

-- the order of sled's keys
unfoldable pub precedes : Bytes → Bytes → Bool
precedes [] bytes = true
precedes (x ∷ xs) [] = false
precedes (x ∷ xs) (y ∷ ys) = let rest = precedes xs ys in ltb x y || ((x == y) && rest)

abbrev pub value : Bytes → ℕ
value [] = 0
value (x ∷ xs) = x * 256 ^ length xs + value xs

pub below : (x y p v : ℕ) → x < y → v < p → x * p + v < y * p
below x y p v less small =
    omega (arith, mul-le-mul_right {m = suc x} {n = y} p (omega (arith, less)), suc-mul x p)

value_bound : (xs : Bytes) → All (λ x. x < 256) xs → value xs < 256 ^ length xs
value_bound [] h = omega arith
value_bound (x ∷ xs) h = omega (
  arith,
  below x 256 (256 ^ length xs) (value xs) h.0 (value_bound xs h.1),
  pow-suc 256 (length xs),
  mul_comm 256 (256 ^ length xs),
)

leb-add : (a b c : ℕ) → leb b c ≡ leb (a + b) (a + c)
leb-add a b c = ground arith

-- For keys of one length the order is that of the numbers.
pub precedes-value :
    (xs ys : Bytes)
    → All (λ x. x < 256) xs
    → All (λ y. y < 256) ys
    → length xs ≡ length ys
    → precedes xs ys ≡ leb (value xs) (value ys)
unfolding precedes
precedes-value [] [] h k e = ground arith
precedes-value [] (y ∷ ys) h k e = absurd (omega (arith, e))
precedes-value (x ∷ xs) [] h k e = absurd (omega (arith, e))
precedes-value (x ∷ xs) (y ∷ ys) h k e =
    let same : length xs ≡ length ys = omega (arith, e) in
    let rest = precedes-value xs ys h.1 k.1 same in
    let small : value xs < 256 ^ length ys =
      subst (λ n. value xs < 256 ^ n) same (value_bound xs h.1) in
    rw same (elim (Bool-cases (ltb x y)) [
      | inl less ↦
          ground (arith, less, below x y (256 ^ length ys) (value xs) (ground (arith, less)) small)
      | inr more ↦ elim (Bool-cases (x == y)) [
        | inl equal ↦ ground (
          arith,
          more,
          equal,
          rest,
          leb-add (y * 256 ^ length ys) (value xs) (value ys),
          ==_eq x y equal,
        )
        | inr differ ↦ ground (
          arith,
          more,
          differ,
          below y x (256 ^ length ys) (value ys) (ground (arith, more, differ, ==_refl x))
              (value_bound ys k.1),
        )
      ]
    ])
