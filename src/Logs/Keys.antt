-- ===== src/Logs/Keys.antt =====
-- The keys of the log's tree: `id_to_bin` and `bin_to_id` of src/store/mod.rs, over byteorder's
-- `write_u64` and `read_u64`, which are parameters.
use distribd.Prelude.{
  ℕ, ◌<◌, All, length, leb, Outcome, ok, panic, [], ◌∷◌, ◌≡◌, refl, sym, ap, ◌∙◌, arith, zero, suc,
}
use distribd.Prelude.Bytes.{Bytes, precedes, value, precedes-value}
use distribd.Logs.{u64_mod}

-- What byteorder documents: `write_u64` fills the eight bytes with the number, the high byte first, and
-- `read_u64` reads the number back from eight bytes.
pub record IsBigEndian (write_u64 : ℕ → Bytes) (read_u64 : Bytes → ℕ) : Type 0 where
  pub filled : (id : ℕ) → length (write_u64 id) ≡ 8
  pub bytes : (id : ℕ) → All (λ x. x < 256) (write_u64 id)
  pub high_first : (id : ℕ) → id < u64_mod → value (write_u64 id) ≡ id
  pub read : (buf : Bytes) → length buf ≡ 8 → read_u64 buf ≡ value buf

module _ (write_u64 : ℕ → Bytes) (read_u64 : Bytes → ℕ) where
  unfoldable pub id_to_bin : ℕ → Bytes
  id_to_bin id = write_u64 id

  -- `[0..8]`
  abbrev first : ℕ → Bytes → Outcome Bytes
  first zero buf = ok []
  first (suc n) [] = panic
  first (suc n) (x ∷ buf) = elim (first n buf) [ panic ↦ panic | ok rest ↦ ok (x ∷ rest) ]

  unfoldable pub bin_to_id : Bytes → Outcome ℕ
  bin_to_id buf = elim (first 8 buf) [ panic ↦ panic | ok bytes ↦ ok (read_u64 bytes) ]

  first_all : (n : ℕ) (buf : Bytes) → length buf ≡ n → first n buf ≡ ok buf
  first_all zero [] h = refl
  first_all zero (x ∷ buf) h = absurd (ground arith)
  first_all (suc n) [] h = absurd (ground arith)
  first_all (suc n) (x ∷ buf) h = rw (first_all n buf (ground arith)) refl

  -- Over byteorder as documented, the keys of the log's tree, compared byte by byte, come in the order
  -- of their indexes, and an index is read back from its key.
  pub id_to_bin-precedes :
      IsBigEndian write_u64 read_u64
      → (a b : ℕ) → a < u64_mod
      → b < u64_mod
      → (precedes (id_to_bin a) (id_to_bin b) ≡ leb a b) × (bin_to_id (id_to_bin a) ≡ ok a)
  unfolding id_to_bin bin_to_id
  id_to_bin-precedes e a b ha hb = (
    precedes-value (write_u64 a) (write_u64 b) (e.bytes a) (e.bytes b)
          (e.filled a ∙ sym (e.filled b))
        ∙ (λ i. leb (e.high_first a ha i) (e.high_first b hb i)),
    rw (first_all 8 (write_u64 a) (e.filled a), bin_to_id)
        (ap ok (e.read (write_u64 a) (e.filled a) ∙ e.high_first a ha)),
  )
