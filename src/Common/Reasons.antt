-- ===== src/Common/Reasons.antt =====
-- Lists of reasons, one for each test that holds.
use mathlib.Core.Bool.{Bool, true, false, ◌||◌}
use mathlib.Core.List.{List, [], ◌∷◌, ◌++◌}
use mathlib.Core.Logic.{◌↔◌, ◌⊎◌, inl, inr}
use mathlib.Core.Path.{◌≡◌, refl}
use coinoskobi_dexbot.Common.Text.{Text}

-- One more reason, if the test holds.
abbrev pub reason_if : Bool → Text → List Text
reason_if true label = label ∷ []
reason_if false label = []

-- `bool(reasons)`
abbrev pub any_reason : List Text → Bool
any_reason [] = false
any_reason (x ∷ xs) = true

pub any_reason_front :
    (b : Bool) (label : Text) (xs : List Text)
    → any_reason (reason_if b label ++ xs) ≡ (b || any_reason xs)
any_reason_front true label xs = refl
any_reason_front false label xs = refl

pub any_reason_if : (b : Bool) (label : Text) → any_reason (reason_if b label) ≡ b
any_reason_if true label = refl
any_reason_if false label = refl

pub or_iff :
    {A B : Type 0} (a b : Bool) → (a ≡ true) ↔ A → (b ≡ true) ↔ B → ((a || b) ≡ true) ↔ (A ⊎ B)
or_iff true b f g = (λ e. inl (f.0 refl), λ _. refl)
or_iff false b f g =
    (λ e. inr (g.0 e), λ s. elim s [ inl x ↦ absurd (let e = f.1 x in cc) | inr x ↦ g.1 x ])
