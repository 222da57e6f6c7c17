-- ===== src/Tests/Layout.antt =====
-- A layout of keys as the tag list relies on: each character after a 1, and a 0 at the end.
use Prim.Native.Char.{code}
use Prim.Native.String.{String, [], ◌∷◌}
use text.Mathlib.TextEquality.{Char-path}
use mathlib.Core.List.{[] as nil, ◌∷◌ as cons, ◌++◌}
use distribd.Prelude.{◌≡◌, refl, ap, ◌∙◌, arith, true}
use distribd.Types.{TagKey}
use distribd.Prelude.Bytes.{Bytes, precedes}
use distribd.Store.Tags.{IsLayout}

unfoldable pub written_text : String → Bytes
written_text [] = cons 0 nil
written_text (c ∷ s) = cons 1 (cons (code c) (written_text s))

unfoldable pub serialize : TagKey → Bytes
unfolding written_text
serialize key = written_text key.repository.name ++ written_text key.tag

prefix_free :
    (s s' : String) (xs ys : Bytes) → written_text s ++ xs ≡ written_text s' ++ ys → s ≡ s'
unfolding written_text
prefix_free [] [] xs ys h = refl
prefix_free [] (c ∷ s) xs ys h = absurd (ground (arith, h))
prefix_free (c ∷ s) [] xs ys h = absurd (ground (arith, h))
prefix_free (c ∷ s) (d ∷ s') xs ys h =
    ap (λ x. x ∷ s) (Char-path c d (ground (arith, h)))
    ∙ ap (λ t. d ∷ t) (prefix_free s s' xs ys (ground (arith, h)))

empty_first : (s : String) → precedes (written_text []) (written_text s) ≡ true
unfolding written_text precedes
empty_first [] = ground arith
empty_first (c ∷ s) = ground arith

pub IsLayout-serialize : IsLayout serialize written_text
unfolding serialize
IsLayout-serialize = record {
  parts = λ key. refl;
  prefix_free = prefix_free;
  empty_first = empty_first;
}
