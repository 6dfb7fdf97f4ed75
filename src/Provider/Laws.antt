-- ===== src/Provider/Laws.antt =====
-- The rests of app/dex/provider_resilience.py.
use coinoskobi_dexbot.Common.{◌≡◌, ◌↔◌, refl, ap, ◌∙◌, sym, ◌⊎◌, inl, inr, none, arith}
use coinoskobi_dexbot.Common.Int.{ℤ}
use coinoskobi_dexbot.Common.Text.{Text, upper, strip}
use coinoskobi_dexbot.Provider.Resilience.{
  Failure, unknown, rate_limit, quota, forbidden, timeout, connection, subscription, other, name_of,
  classify_provider_failure, failure_named, failure_name, seconds_of, provider_cooldown_seconds,
}

pub seconds_named :
    (f : Failure) (q t : ℤ) → seconds_of (failure_name (name_of f)) q t ≡ seconds_of f q t
unfolding failure_name name_of
seconds_named unknown q t = refl
seconds_named rate_limit q t = refl
seconds_named quota q t = refl
seconds_named forbidden q t = refl
seconds_named timeout q t = refl
seconds_named connection q t = refl
seconds_named subscription q t = refl
seconds_named other q t = refl

failure_name_raw :
    (error : Text)
    → failure_named (upper (strip error)) ≡ none
    → failure_name error ≡ classify_provider_failure error
unfolding failure_name
failure_name_raw error raw = rw (failure_name, raw) refl

-- The rest is the same for the raw error and for its kind: handing on the result of
-- `classify_provider_failure` instead of an error that is not itself such a name changes nothing.
pub cooldown-classify :
    (error : Text) (quota_seconds transient_seconds : ℤ)
    → failure_named (upper (strip error)) ≡ none
    → provider_cooldown_seconds
        (name_of (classify_provider_failure error))
        quota_seconds
        transient_seconds
      ≡ provider_cooldown_seconds error quota_seconds transient_seconds
unfolding provider_cooldown_seconds
cooldown-classify error q t raw =
    seconds_named (classify_provider_failure error) q t
    ∙ ap (λ f. seconds_of f q t) (sym (failure_name_raw error raw))

seconds_zero : (f : Failure) (q t : ℤ) → (seconds_of f q t ≡ 0) ↔ ((f ≡ unknown) ⊎ (f ≡ other))
seconds_zero unknown q t = (λ _. inl refl, λ _. refl)
seconds_zero other q t = (λ _. inr refl, λ _. refl)
seconds_zero rate_limit q t = (λ e. absurd (omega arith), λ s. absurd (ground arith))
seconds_zero quota q t = (λ e. absurd (omega arith), λ s. absurd (ground arith))
seconds_zero forbidden q t = (λ e. absurd (omega arith), λ s. absurd (ground arith))
seconds_zero timeout q t = (λ e. absurd (omega arith), λ s. absurd (ground arith))
seconds_zero connection q t = (λ e. absurd (omega arith), λ s. absurd (ground arith))
seconds_zero subscription q t = (λ e. absurd (omega arith), λ s. absurd (ground arith))

-- A provider does not rest exactly if its failure is of no known kind, whatever the settings are.
pub cooldown_zero_iff :
    (error : Text) (quota_seconds transient_seconds : ℤ)
    → (provider_cooldown_seconds error quota_seconds transient_seconds ≡ 0)
      ↔ ((failure_name error ≡ unknown) ⊎ (failure_name error ≡ other))
unfolding provider_cooldown_seconds
cooldown_zero_iff error q t = seconds_zero (failure_name error) q t
