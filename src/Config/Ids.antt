-- ===== src/Config/Ids.antt =====
-- The numbers of nodes.
use Prim.Native.Char.{Char, code}
use Prim.Native.String
use Prim.Native.String.append
use distribd.Prelude.{
  ℕ, ◌+◌, ◌*◌, ◌-◌, ◌<◌, ◌≤◌, String, none, some, if◌then◌else◌, true, false, ltb, ◌==◌, nat_eq,
  ◌≡◌, refl, ap, ◌∙◌, arith, inl, inr, Bool-cases,
}
use distribd.Config.{
  u64_mod, is_dash, is_digit, rsplit_once, parse_digits, parse, not_a_number, is_node, failed,
  number, id,
}

abbrev pub AllDigits : String → Type 0
AllDigits String.[] = Unit
AllDigits (String.◌∷◌ c s) = (is_digit c ≡ true) × AllDigits s

abbrev pub HasNoDash : String → Type 0
HasNoDash String.[] = Unit
HasNoDash (String.◌∷◌ c s) = (is_dash c ≡ false) × HasNoDash s

-- the number that decimal digits stand for, behind those of `n`
abbrev pub value : ℕ → String → ℕ
value n String.[] = n
value n (String.◌∷◌ c s) = value (n * 10 + (code c - 0x30)) s

le-value : (n : ℕ) (s : String) → n ≤ value n s
le-value n String.[] = omega arith
le-value n (String.◌∷◌ c s) = omega (arith, le-value (n * 10 + (code c - 0x30)) s)

parse_digits-value :
    (n : ℕ) (s : String)
    → AllDigits s
    → n < u64_mod
    → parse_digits n s ≡ (if ltb (value n s) u64_mod then some (value n s) else none)
unfolding parse_digits
parse_digits-value n String.[] h l = ground arith
parse_digits-value n (String.◌∷◌ c s) h l =
    elim (Bool-cases (ltb (n * 10 + (code c - 0x30)) u64_mod)) [
      | inl fits ↦
          rw (h.0, fits) (parse_digits-value (n * 10 + (code c - 0x30)) s h.1 (ground arith))
      | inr large ↦ ground (arith, h.0, large, le-value (n * 10 + (code c - 0x30)) s)
    ]

AllDigits-HasNoDash : (s : String) → AllDigits s → HasNoDash s
AllDigits-HasNoDash String.[] h = tt
AllDigits-HasNoDash (String.◌∷◌ c s) h = (ground (arith, h.0), AllDigits-HasNoDash s h.1)

rsplit_once-none : (s : String) → HasNoDash s → rsplit_once s ≡ none
unfolding rsplit_once
rsplit_once-none String.[] h = refl
rsplit_once-none (String.◌∷◌ c s) h = rw (rsplit_once-none s h.1) (rw h.0 refl)

abbrev dash : Char
dash = "-"

dash-append : (u : String) → String.◌++◌ "-" u ≡ String.◌∷◌ dash u
dash-append u = append.cons dash String.[] u ∙ ap (λ v. String.◌∷◌ dash v) (append.nil u)

rsplit_once-append :
    (s u : String) → HasNoDash u → rsplit_once (String.◌++◌ s (String.◌++◌ "-" u)) ≡ some (s, u)
unfolding rsplit_once
rsplit_once-append String.[] u h =
    rw (append.nil (String.◌++◌ "-" u), dash-append u) (ground (arith, rsplit_once-none u h))
rsplit_once-append (String.◌∷◌ c s) u h =
    rw (append.cons c s (String.◌++◌ "-" u)) (rw (rsplit_once-append s u h) refl)

parse-value :
    (c : Char) (s : String)
    → AllDigits (String.◌∷◌ c s)
    → parse (String.◌∷◌ c s)
      ≡ (if ltb (value 0 (String.◌∷◌ c s)) u64_mod then some (value 0 (String.◌∷◌ c s)) else none)
unfolding parse
parse-value c s h = ground (arith, h.0, parse_digits-value 0 (String.◌∷◌ c s) h (omega arith))

id-split :
    (identifier front rest : String)
    → rsplit_once identifier ≡ some (front, rest)
    → id identifier ≡ number (parse rest)
unfolding id
id-split identifier front rest h = ground (arith, h)

-- An identifier that ends with a dash and decimal digits is that of the node one above their number.
-- The greatest u64 gives node 0, and a number that a u64 does not hold is refused.
pub id-value :
    (name : String) (c : Char) (s : String)
    → AllDigits (String.◌∷◌ c s)
    → let n = value 0 (String.◌∷◌ c s) in
      id (String.◌++◌ name (String.◌++◌ "-" (String.◌∷◌ c s))) ≡ (
        if ltb (n + 1) u64_mod
        then is_node (n + 1)
        else if n + 1 == u64_mod
        then is_node 0
        else failed not_a_number)
id-value name c s h =
    let split = rsplit_once-append name (String.◌∷◌ c s) (AllDigits-HasNoDash (String.◌∷◌ c s) h) in
    id-split _ name (String.◌∷◌ c s) split ∙ rw (parse-value c s h) (ground arith)
