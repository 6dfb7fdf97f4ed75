-- ===== src/Gate/Laws.antt =====
-- The verdicts of app/risk/gate.py against the facts.
use coinoskobi_dexbot.Common.{sym, Bool, true, false, ◌||◌, ◌≡◌, ◌↔◌, refl, ◌⊎◌, if◌then◌else◌}
use mathlib.Core.Path.{subst}
use coinoskobi_dexbot.Common.Reasons.{any_reason, any_reason_front, any_reason_if, or_iff}
use coinoskobi_dexbot.Gate.Evaluate.{
  Fact, yes, no, unclear, Risk, block, caution, passed, is_true, is_false, hard_block_reasons_of,
  warning_reasons_of, evaluate,
}

abbrev warns : Risk → Bool
warns r =
    is_true r.mint
    || (is_true r.pause
        || (is_true r.blacklist
            || (is_true r.set_blacklist || (is_true r.max_tx || is_true r.max_wallet))))

blocks_lem :
    (r : Risk) → any_reason (hard_block_reasons_of r) ≡ (is_true r.honeypot || is_false r.sellable)
unfolding hard_block_reasons_of
blocks_lem r = simp (any_reason_front, any_reason_if)

warns_lem : (r : Risk) → any_reason (warning_reasons_of r) ≡ warns r
unfolding warning_reasons_of
warns_lem r = simp (any_reason_front, any_reason_if)

is_true_iff : (f : Fact) → (is_true f ≡ true) ↔ (f ≡ yes)
is_true_iff yes = (λ _. refl, λ _. refl)
is_true_iff no = (λ e. cc, λ e. cc)
is_true_iff unclear = (λ e. cc, λ e. cc)

is_false_iff : (f : Fact) → (is_false f ≡ true) ↔ (f ≡ no)
is_false_iff yes = (λ e. cc, λ e. cc)
is_false_iff no = (λ _. refl, λ _. refl)
is_false_iff unclear = (λ e. cc, λ e. cc)

-- A hard fact: the token is a honeypot, or it cannot be sold.
abbrev pub HasHardFact : Risk → Type 0
HasHardFact r = (r.honeypot ≡ yes) ⊎ (r.sellable ≡ no)

-- A capability that only warns.
abbrev pub HasWarning : Risk → Type 0
HasWarning r =
    (r.mint ≡ yes)
    ⊎ (r.pause ≡ yes)
    ⊎ (r.blacklist ≡ yes)
    ⊎ (r.set_blacklist ≡ yes)
    ⊎ (r.max_tx ≡ yes)
    ⊎ (r.max_wallet ≡ yes)

hard_fact_iff : (r : Risk) → (any_reason (hard_block_reasons_of r) ≡ true) ↔ HasHardFact r
hard_fact_iff r =
    subst (λ b. (b ≡ true) ↔ HasHardFact r) (sym (blocks_lem r))
      (or_iff _ _ (is_true_iff r.honeypot) (is_false_iff r.sellable))

warning_iff : (r : Risk) → (any_reason (warning_reasons_of r) ≡ true) ↔ HasWarning r
warning_iff r =
    subst (λ b. (b ≡ true) ↔ HasWarning r) (sym (warns_lem r))
      (or_iff _ _ (is_true_iff r.mint) (
        or_iff _ _ (is_true_iff r.pause) (
          or_iff _ _ (is_true_iff r.blacklist) (
            or_iff _ _ (is_true_iff r.set_blacklist)
              (or_iff _ _ (is_true_iff r.max_tx) (is_true_iff r.max_wallet))))))

-- The status, from whether there is a hard fact and whether there is a warning.
status_iff :
    {H W : Type 0} (a b : Bool)
    → (a ≡ true) ↔ H
    → (b ≡ true) ↔ W
    → let status = if a then block else if b then caution else passed in
      ((status ≡ block) ↔ H) × ((a ≡ true) ↔ H) × ((status ≡ caution) ↔ ((¬ H) × W))
status_iff true b f g = ((λ _. f.0 refl, λ _. refl), f, (λ e. cc, λ x. absurd (x.0 (f.0 refl))))
status_iff false true f g =
    ((λ e. cc, λ h. let e = f.1 h in cc), f, (λ _. (λ h. let e = f.1 h in cc, g.0 refl), λ _. refl))
status_iff false false f g =
    ((λ e. cc, λ h. let e = f.1 h in cc), f, (λ e. cc, λ x. let e = g.1 x.1 in cc))

-- The gate blocks exactly on a hard fact, is cautious exactly on a warning without one, and passes
-- everything else, missing evidence included; the flag of the block says the same as the status.
pub evaluate_status :
    (r : Risk)
    → (((evaluate r).status ≡ block) ↔ HasHardFact r)
      × (((evaluate r).hard_block ≡ true) ↔ HasHardFact r)
      × (((evaluate r).status ≡ caution) ↔ ((¬ HasHardFact r) × HasWarning r))
unfolding evaluate
evaluate_status r = status_iff _ _ (hard_fact_iff r) (warning_iff r)
