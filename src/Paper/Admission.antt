-- ===== src/Paper/Admission.antt =====
-- `paper_admission_decision` of app/pipeline/paper_admission.py, on the values that it reads from
-- its dicts: the decision of the strategy, the unified decision and the gate's hard block.
use coinoskobi_dexbot.Common.{
  Bool, true, false, not, ◌||◌, ◌≡◌, ◌≢◌, ◌↔◌, refl, ◌⊎◌, inl, inr, Option, none, some,
  if◌then◌else◌, arith, Bool-cases,
}
use coinoskobi_dexbot.Common.Text.{Text, codes, text_eq, text_eq_iff}
use coinoskobi_dexbot.Row.{Field, text_or}

pub data Admission : Type 0 where
  reject watch paper_buy : Admission

-- `value == name` for a text or None
abbrev pub is_named : Option Text → Text → Bool
is_named none name = false
is_named (some s) name = text_eq s name

-- `str(sellability_status or "SELLABILITY_SKIPPED")`
unfoldable pub status_of : Field Text → Text
status_of sellability_status = text_or sellability_status (codes "SELLABILITY_SKIPPED")

unfoldable pub paper_admission_decision : Option Text → Option Text → Bool → Field Text → Admission
unfolding status_of
paper_admission_decision strategy unified hard_block sellability_status =
    let status = status_of sellability_status in
    if hard_block
    then reject
    else if text_eq status (codes "SELLABILITY_FAIL")
    then reject
    else if not (is_named strategy (codes "PAPER_BUY"))
    then (if is_named strategy (codes "REJECT") then reject else watch)
    else if is_named unified (codes "REJECT")
    then watch
    else if text_eq status (codes "SELLABILITY_OK") || text_eq status (codes "SELLABILITY_UNKNOWN")
    then paper_buy
    else watch

is_named_iff : (o : Option Text) (name : Text) → (is_named o name ≡ true) ↔ (o ≡ some name)
is_named_iff none name = (λ e. cc, λ e. cc)
is_named_iff (some s) name = ground (arith, text_eq_iff s name)

-- Everything that a paper position asks for.
pub record IsAdmitted (strategy unified : Option Text) (hard_block : Bool) (status : Text)
    : Type 0 where
  pub not_blocked : hard_block ≡ false
  pub wanted : strategy ≡ some (codes "PAPER_BUY")
  pub no_veto : unified ≢ some (codes "REJECT")
  pub sellable : (status ≡ codes "SELLABILITY_OK") ⊎ (status ≡ codes "SELLABILITY_UNKNOWN")

module _ (strategy unified : Option Text) (hard_block : Bool)
    (sellability_status : Field Text) where
  admitted :
      paper_admission_decision strategy unified hard_block sellability_status ≡ paper_buy
      → IsAdmitted strategy unified hard_block (status_of sellability_status)
  unfolding paper_admission_decision
  admitted h = record {
    not_blocked = ground arith;
    wanted = (is_named_iff strategy (codes "PAPER_BUY")).0 (ground arith);
    no_veto = λ e. ground (arith, (is_named_iff unified (codes "REJECT")).1 e);
    sellable = elim (Bool-cases (text_eq (status_of sellability_status) (codes "SELLABILITY_OK"))) [
      | inl ok ↦ inl ((text_eq_iff _ _).0 ok)
      | inr other ↦ inr ((text_eq_iff _ _).0 (ground arith))
    ];
  }

  admits :
      IsAdmitted strategy unified hard_block (status_of sellability_status)
      → paper_admission_decision strategy unified hard_block sellability_status ≡ paper_buy
  unfolding paper_admission_decision
  admits a =
      let want = (is_named_iff strategy (codes "PAPER_BUY")).1 a.wanted in
      let veto : is_named unified (codes "REJECT") ≡ false =
        elim (Bool-cases (is_named unified (codes "REJECT"))) [
          | inl e ↦ absurd (a.no_veto ((is_named_iff unified (codes "REJECT")).0 e))
          | inr e ↦ e
        ] in
      elim a.sellable [
        | inl ok ↦ rw (a.not_blocked, ok, want, veto) refl
        | inr unknown ↦ rw (a.not_blocked, unknown, want, veto) refl
      ]

  -- A paper position is admitted exactly if nothing blocks it, the strategy says PAPER_BUY, the
  -- unified decision is not REJECT, and the sellability is OK or unknown.
  pub paper_buy_iff :
      (paper_admission_decision strategy unified hard_block sellability_status ≡ paper_buy)
      ↔ IsAdmitted strategy unified hard_block (status_of sellability_status)
  paper_buy_iff = (admitted, admits)
