-- ===== src/Mode/Laws.antt =====
-- When nothing stands in the way of the mode that app/pipeline/operating_mode.py shows.
use coinoskobi_dexbot.Common.{
  Bool, true, false, not, ◌&&◌, ◌||◌, ◌≡◌, ◌↔◌, refl, ◌∙◌, sym, inl, inr, Option, none, some, List,
  [], ◌∷◌, arith, Bool-cases,
}
use coinoskobi_dexbot.Common.Int.{ℤ, pos, ltb_ℤ}
use coinoskobi_dexbot.Common.Reasons.{any_reason, any_reason_front, any_reason_if}
use coinoskobi_dexbot.Common.Text.{Text, codes, text_eq, text_eq_iff}
use coinoskobi_dexbot.Mode.Readmodel.{
  ModeInputs, ModeView, not_sellable, not_liquid, blockers_of, selected_of,
  build_operating_mode_readmodel,
}

-- Everything that the selected mode asks for.
pub record IsReady (view : ModeView) (m : ModeInputs) : Type 0 where
  pub no_block : m.hard_block ≡ false
  pub sellable : (s : Text) → m.sellability ≡ some s → s ≡ codes "SELLABILITY_OK"
  pub liquid : (n : ℤ) → m.liquidity_usd ≡ some n → ltb_ℤ (pos 0) n ≡ true
  pub guarded : (m.sl_tp_ready ≡ true) × (m.max_loss_ready ≡ true) × (m.daily_loss_cap_ready ≡ true)
  pub not_killed : m.kill_switch ≡ false
  pub auto_ready :
      view.selected ≡ codes "AUTO"
      → (m.live_ready ≡ true) × (m.signing_ready ≡ true) × (m.execution_ready ≡ true)

no_reason : (xs : List Text) → (xs ≡ []) ↔ (any_reason xs ≡ false)
no_reason [] = (λ _. refl, λ _. refl)
no_reason (x ∷ xs) = (λ e. cc, λ e. cc)

blocked_by : Text → ModeInputs → Bool
blocked_by selected m =
    let auto = text_eq selected (codes "AUTO") in
    m.hard_block
    || (not_sellable m.sellability
        || (not_liquid m.liquidity_usd
            || (not m.sl_tp_ready
                || (not m.max_loss_ready
                    || (not m.daily_loss_cap_ready
                        || (m.kill_switch
                            || ((auto && not m.live_ready)
                                || ((auto && not m.signing_ready)
                                    || (auto && not m.execution_ready)))))))))

any_blocker :
    (selected : Text) (m : ModeInputs) → any_reason (blockers_of selected m) ≡ blocked_by selected m
unfolding blockers_of blocked_by
any_blocker selected m = simp (any_reason_front, any_reason_if)

sellable_iff :
    (o : Option Text)
    → (not_sellable o ≡ false) ↔ ((s : Text) → o ≡ some s → s ≡ codes "SELLABILITY_OK")
sellable_iff none = (λ _ s e. cc, λ _. refl)
sellable_iff (some t) = (
  λ h s e. ground (arith, text_eq_iff t (codes "SELLABILITY_OK")),
  λ h. ground (arith, (text_eq_iff t (codes "SELLABILITY_OK")).1 (h t refl)),
)

liquid_iff :
    (o : Option ℤ) → (not_liquid o ≡ false) ↔ ((n : ℤ) → o ≡ some n → ltb_ℤ (pos 0) n ≡ true)
liquid_iff none = (λ _ n e. cc, λ _. refl)
liquid_iff (some k) = (λ h n e. ground arith, λ h. ground (arith, h k refl))

unblocked :
    (m : ModeInputs)
    → blocked_by (build_operating_mode_readmodel m).selected m ≡ false
    → IsReady (build_operating_mode_readmodel m) m
unfolding blocked_by
unblocked m h =
    let view = build_operating_mode_readmodel m in
    record {
      no_block = ground arith;
      sellable = (sellable_iff m.sellability).0 (ground arith);
      liquid = (liquid_iff m.liquidity_usd).0 (ground arith);
      guarded = ground arith;
      not_killed = ground arith;
      auto_ready = λ e. ground (arith, (text_eq_iff view.selected (codes "AUTO")).1 e);
    }

unblocked_of :
    (m : ModeInputs)
    → IsReady (build_operating_mode_readmodel m) m
    → blocked_by (build_operating_mode_readmodel m).selected m ≡ false
unfolding blocked_by
unblocked_of m r =
    let view = build_operating_mode_readmodel m in
    rw
      (
        r.no_block,
        (sellable_iff m.sellability).1 r.sellable,
        (liquid_iff m.liquidity_usd).1 r.liquid,
        r.guarded.0,
        r.guarded.1,
        r.guarded.2,
        r.not_killed,
      )
      (elim (Bool-cases (text_eq view.selected (codes "AUTO"))) [
        | inl auto ↦
            let (live, signing, execution) =
              r.auto_ready ((text_eq_iff view.selected (codes "AUTO")).0 auto) in
            ground arith
        | inr other ↦ ground arith
      ])

-- No blocker is listed exactly if all that the selected mode asks for is there: no hard block, a
-- sellability that is good if it is known, a liquidity above 0 if it is known, the three limits, no
-- kill switch, and for AUTO the live, signing and execution paths. Whatever is ready, the effective
-- mode is PAPER.
pub readiness_iff :
    (m : ModeInputs)
    → let view = build_operating_mode_readmodel m in
      ((view.readiness_blockers ≡ []) ↔ IsReady view m) × (view.effective_mode ≡ codes "PAPER")
unfolding build_operating_mode_readmodel
readiness_iff m =
    let same = any_blocker (selected_of m.selected_mode) m in
    (
      (
        λ e. unblocked m (sym same ∙ (no_reason _).0 e),
        λ r. (no_reason _).1 (same ∙ unblocked_of m r),
      ),
      refl,
    )
