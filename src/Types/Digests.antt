-- ===== src/Types/Digests.antt =====
-- src/types/digest.rs: how a digest is read from a text and written to one. `from_str` and
-- `try_from` are the same but for their errors.
use Prim.Native.Char.{Char, code}
use Prim.Native.String.append
use Prim.Native.String.{String, [], ◌∷◌, ◌++◌}
use text.Mathlib.Text.{starts_with}
use distribd.Prelude.{
  Option, none, some, Outcome, ok, unwrap, ◌>>=◌, if◌then◌else◌, Bool, ◌==◌, nat_eq, ◌≡◌,
}
use distribd.Types.{Digest}

abbrev is_colon : Char → Bool
is_colon c = code c == 58

-- `split(colon)`: the first piece, and what follows its colon
unfoldable pub piece : String → String
piece [] = []
piece (c ∷ s) = let rest = piece s in if is_colon c then [] else c ∷ rest

unfoldable pub after : String → Option String
after [] = none
after (c ∷ s) = let rest = after s in if is_colon c then some s else rest

unfoldable pub from_str : String → Outcome (Option Digest)
unfolding piece after
from_str s =
    if starts_with s "sha256:"
    then (do rest ← unwrap (after s); ok (some (record { algo = piece s; hash = piece rest })))
    else ok none

-- `fmt`
abbrev pub to_string : Digest → String
to_string digest = digest.algo ++ (":" ++ digest.hash)

-- no colon in the text
abbrev pub IsPlain : String → Type 0
IsPlain s = after s ≡ none

abbrev colon : Char
colon = ":"

abbrev digest_after : String → Digest
digest_after u = record { algo = "sha256"; hash = piece u }
