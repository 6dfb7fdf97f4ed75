-- ===== src/Common/Text/Strip.antt =====
-- Stripping and lowering a text twice is doing so once.
use Prim.Native.Nat.{ℕ}
use mathlib.Core.Bool.{false}
use mathlib.Core.List.{[], ◌∷◌}
use mathlib.Core.Logic.{inl, inr}
use mathlib.Core.Path.{◌≡◌, refl, ap, ◌∙◌}
use native.Mathlib.Omega.{arith}
use coinoskobi_dexbot.Common.Tests.{Bool-cases}
use coinoskobi_dexbot.Common.Text.{
  Text, lower, lower_char, is_space, lstrip, rstrip_cons, rstrip, strip,
}

-- The text does not begin with white space.
abbrev NoLead : Text → Type 0
NoLead [] = Unit
NoLead (c ∷ s) = is_space c ≡ false

lstrip-NoLead : (s : Text) → NoLead (lstrip s)
unfolding lstrip
lstrip-NoLead [] = tt
lstrip-NoLead (c ∷ s) = elim (Bool-cases (is_space c)) [
  | inl e ↦ rw e (lstrip-NoLead s)
  | inr e ↦ rw e e
]

lstrip_of_NoLead : (s : Text) → NoLead s → lstrip s ≡ s
unfolding lstrip
lstrip_of_NoLead [] h = refl
lstrip_of_NoLead (c ∷ s) h = rw h

rstrip_cons-NoLead : (c : ℕ) (s : Text) → is_space c ≡ false → NoLead (rstrip_cons c s)
unfolding rstrip_cons
rstrip_cons-NoLead c [] h = rw h h
rstrip_cons-NoLead c (d ∷ s) h = h

rstrip-NoLead : (s : Text) → NoLead s → NoLead (rstrip s)
unfolding rstrip
rstrip-NoLead [] h = tt
rstrip-NoLead (c ∷ s) h = rstrip_cons-NoLead c (rstrip s) h

rstrip-rstrip_cons : (c : ℕ) (s : Text) → rstrip s ≡ s → rstrip (rstrip_cons c s) ≡ rstrip_cons c s
unfolding rstrip
rstrip-rstrip_cons c [] h = elim (Bool-cases (is_space c)) [
  | inl e ↦ rw (e, rstrip)
  | inr e ↦ rw (e, rstrip) (rw e)
]
rstrip-rstrip_cons c (d ∷ s) h = ap (rstrip_cons c) h

pub rstrip_idem : (s : Text) → rstrip (rstrip s) ≡ rstrip s
unfolding rstrip
rstrip_idem [] = refl
rstrip_idem (c ∷ s) = rstrip-rstrip_cons c (rstrip s) (rstrip_idem s)

pub strip_idem : (s : Text) → strip (strip s) ≡ strip s
unfolding strip
strip_idem s =
    ap rstrip (lstrip_of_NoLead (rstrip (lstrip s)) (rstrip-NoLead (lstrip s) (lstrip-NoLead s)))
    ∙ rstrip_idem (lstrip s)

is_space-lower : (c : ℕ) → is_space (lower_char c) ≡ is_space c
unfolding is_space lower_char
is_space-lower c = ground arith

lstrip-lower : (s : Text) → lstrip (lower s) ≡ lower (lstrip s)
unfolding lstrip lower
lstrip-lower [] = refl
lstrip-lower (c ∷ s) = elim (Bool-cases (is_space c)) [
  | inl e ↦ rw (is_space-lower c, e) (lstrip-lower s)
  | inr e ↦ rw (is_space-lower c, e)
]

rstrip_cons-lower :
    (c : ℕ) (s : Text) → rstrip_cons (lower_char c) (lower s) ≡ lower (rstrip_cons c s)
unfolding rstrip_cons lower
rstrip_cons-lower c [] = elim (Bool-cases (is_space c)) [
  | inl e ↦ rw (is_space-lower c, e)
  | inr e ↦ rw (is_space-lower c, e)
]
rstrip_cons-lower c (d ∷ s) = refl

rstrip-lower : (s : Text) → rstrip (lower s) ≡ lower (rstrip s)
unfolding rstrip lower
rstrip-lower [] = refl
rstrip-lower (c ∷ s) =
    ap (rstrip_cons (lower_char c)) (rstrip-lower s) ∙ rstrip_cons-lower c (rstrip s)

pub strip-lower : (s : Text) → strip (lower s) ≡ lower (strip s)
unfolding strip
strip-lower s = ap rstrip (lstrip-lower s) ∙ rstrip-lower (lstrip s)

lower_char_idem : (c : ℕ) → lower_char (lower_char c) ≡ lower_char c
unfolding lower_char
lower_char_idem c = ground arith

pub lower_idem : (s : Text) → lower (lower s) ≡ lower s
unfolding lower
lower_idem [] = refl
lower_idem (c ∷ s) = λ i. lower_char_idem c i ∷ lower_idem s i

-- `s.strip().lower()` done twice.
pub lower-strip_idem : (s : Text) → lower (strip (lower (strip s))) ≡ lower (strip s)
lower-strip_idem s =
    ap lower (strip-lower (strip s) ∙ ap lower (strip_idem s)) ∙ lower_idem (strip s)
