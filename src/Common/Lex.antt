-- ===== src/Common/Lex.antt =====
-- Python's order on tuples of numbers: lexicographic, a proper prefix first.
use mathlib.Core.Bool.{Bool, true, false}
use mathlib.Core.List.{List, [], ◌∷◌, ◌++◌, map}
use mathlib.Core.Path.{◌≡◌, refl}
use native.Mathlib.Omega.{arith}
use coinoskobi_dexbot.Common.Tests.{if◌then◌else◌}
use coinoskobi_dexbot.Common.Lists.{length}
use coinoskobi_dexbot.Common.Int.{
  ℤ, neg, ltb_ℤ, ltb_ℤ-neg, ltb_ℤ_irrefl, ltb_ℤ_asymm, eq_of_not_ltb,
}

-- `a <= b` on tuples.
unfoldable pub lex_leb : List ℤ → List ℤ → Bool
lex_leb [] ys = true
lex_leb (x ∷ xs) [] = false
lex_leb (x ∷ xs) (y ∷ ys) = if ltb_ℤ x y then true else if ltb_ℤ y x then false else lex_leb xs ys

pub lex_leb_refl : (xs : List ℤ) → lex_leb xs xs ≡ true
unfolding lex_leb
lex_leb_refl [] = refl
lex_leb_refl (x ∷ xs) = rw ltb_ℤ_irrefl (lex_leb_refl xs)

pub lex_leb_total : (xs ys : List ℤ) → lex_leb xs ys ≡ false → lex_leb ys xs ≡ true
unfolding lex_leb
lex_leb_total [] ys h = cc
lex_leb_total (x ∷ xs) [] h = refl
lex_leb_total (x ∷ xs) (y ∷ ys) h = ground (arith, lex_leb_total xs ys)

pub lex_leb_antisymm : (xs ys : List ℤ) → lex_leb xs ys ≡ true → lex_leb ys xs ≡ true → xs ≡ ys
unfolding lex_leb
lex_leb_antisymm [] [] h k = refl
lex_leb_antisymm [] (y ∷ ys) h k = cc
lex_leb_antisymm (x ∷ xs) [] h k = cc
lex_leb_antisymm (x ∷ xs) (y ∷ ys) h k = ground (arith, lex_leb_antisymm xs ys, eq_of_not_ltb x y)

lex_leb_tail : (x y : ℤ) (xs ys : List ℤ) → lex_leb (x ∷ xs) (y ∷ ys) ≡ true → ltb_ℤ y x ≡ false
unfolding lex_leb
lex_leb_tail x y xs ys h = ground (arith, ltb_ℤ_asymm x y)

pub lex_leb_trans :
    (xs ys zs : List ℤ) → lex_leb xs ys ≡ true → lex_leb ys zs ≡ true → lex_leb xs zs ≡ true
unfolding lex_leb
lex_leb_trans [] ys zs h k = refl
lex_leb_trans (x ∷ xs) [] zs h k = cc
lex_leb_trans (x ∷ xs) (y ∷ ys) [] h k = cc
lex_leb_trans (x ∷ xs) (y ∷ ys) (z ∷ zs) h k = ground (arith, lex_leb_trans xs ys zs)

-- Tuples of one length are compared by their first parts, and by what follows if those agree.
pub lex_leb-append :
    (xs ys rs ss : List ℤ)
    → length xs ≡ length ys
    → lex_leb (xs ++ rs) (ys ++ ss) ≡ true
    → lex_leb xs ys ≡ true
unfolding lex_leb
lex_leb-append [] ys rs ss e h = refl
lex_leb-append (x ∷ xs) [] rs ss e h = absurd (omega arith)
lex_leb-append (x ∷ xs) (y ∷ ys) rs ss e h = ground (arith, lex_leb-append xs ys rs ss)

pub lex_leb-append_same : (xs rs ss : List ℤ) → lex_leb (xs ++ rs) (xs ++ ss) ≡ lex_leb rs ss
unfolding lex_leb
lex_leb-append_same [] rs ss = refl
lex_leb-append_same (x ∷ xs) rs ss = rw ltb_ℤ_irrefl (lex_leb-append_same xs rs ss)

-- Negating every part reverses the order.
pub lex_leb-map-neg :
    (xs ys : List ℤ) → length xs ≡ length ys → lex_leb (map neg xs) (map neg ys) ≡ lex_leb ys xs
unfolding lex_leb
lex_leb-map-neg [] [] e = refl
lex_leb-map-neg [] (y ∷ ys) e = absurd (omega arith)
lex_leb-map-neg (x ∷ xs) [] e = absurd (omega arith)
lex_leb-map-neg (x ∷ xs) (y ∷ ys) e =
    rw (ltb_ℤ-neg x y, ltb_ℤ-neg y x, lex_leb-map-neg xs ys (omega arith)) refl
