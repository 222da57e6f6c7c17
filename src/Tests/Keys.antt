-- ===== src/Tests/Keys.antt =====
-- The big-endian bytes of a number, and the keys of the log.
use distribd.Prelude.{
  ℕ, zero, suc, ◌%◌, ◌^◌, ◌<◌, ◌*◌, ◌+◌, [], ◌∷◌, All, length, leb, ok, ◌≡◌, refl, ap, ◌∙◌, sym,
  arith,
}
use Prim.Native.Nat.{◌/◌}
use native.Mathlib.Nat.{
  add-mul-mod_self_left, mod-eq_of_lt, pow-suc, div-add-mod', mul_comm, mod-lt,
}
use distribd.Prelude.Bytes.{Bytes, precedes, value, below}
use distribd.Logs.Keys.{IsBigEndian, id_to_bin, bin_to_id, id_to_bin-precedes}

-- the `n` bytes of a number, the high byte first
digits : ℕ → ℕ → Bytes
digits zero id = []
digits (suc n) id = (id / 256 ^ n) % 256 ∷ digits n id

length-digits : (n id : ℕ) → length (digits n id) ≡ n
unfolding digits
length-digits zero id = refl
length-digits (suc n) id = ap suc (length-digits n id)

digits_bytes : (n id : ℕ) → All (λ x. x < 256) (digits n id)
unfolding digits
digits_bytes zero id = tt
digits_bytes (suc n) id = (omega arith, digits_bytes n id)

arrange : (d m p r : ℕ) → (d * 256 + m) * p + r ≡ m * p + r + p * 256 * d
arrange d m p r = grind arith

-- the byte above the low ones
next_byte : (p id : ℕ) → 0 < p → (id / p) % 256 * p + id % p ≡ id % (p * 256)
next_byte p id h =
    let q = id / p in
    let w = q % 256 * p + id % p in
    let whole : id ≡ w + p * 256 * (q / 256) =
      sym (div-add-mod' id p)
      ∙ ap (λ x. x * p + id % p) (sym (div-add-mod' q 256))
      ∙ arrange (q / 256) (q % 256) p (id % p) in
    let small : w < p * 256 =
      omega (arith, below (q % 256) 256 p (id % p) (omega arith) (mod-lt id h), mul_comm p 256) in
    sym (
      ap (λ x. x % (p * 256)) whole
      ∙ add-mul-mod_self_left w (p * 256) (q / 256)
      ∙ mod-eq_of_lt small)

positive : (n : ℕ) → 0 < 256 ^ n
positive zero = omega arith
positive (suc n) = omega (arith, positive n, pow-suc 256 n)

value-digits : (n id : ℕ) → value (digits n id) ≡ id % 256 ^ n
unfolding digits
value-digits zero id = omega arith
value-digits (suc n) id =
    rw (length-digits n id, value-digits n id, pow-suc 256 n) (next_byte (256 ^ n) id (positive n))

digits-IsBigEndian : IsBigEndian (digits 8) value
digits-IsBigEndian = record {
  filled = length-digits 8;
  bytes = digits_bytes 8;
  high_first = λ id h. value-digits 8 id ∙ mod-eq_of_lt h;
  read = λ buf h. refl;
}

id_to_bin-precedes_example :
    (precedes (id_to_bin (digits 8) value 255) (id_to_bin (digits 8) value 256) ≡ leb 255 256)
    × (bin_to_id (digits 8) value (id_to_bin (digits 8) value 255) ≡ ok 255)
id_to_bin-precedes_example =
    id_to_bin-precedes (digits 8) value digits-IsBigEndian 255 256 (omega arith) (omega arith)
