-- ===== src/Gate/Evaluate.antt =====
-- `RiskGate.evaluate` of app/risk/gate.py: which facts block a candidate and which only warn.
use coinoskobi_dexbot.Common.{Bool, true, false, Option, none, some, List, ◌++◌, if◌then◌else◌}
use coinoskobi_dexbot.Common.Text.{Text, codes}
use coinoskobi_dexbot.Common.Reasons.{reason_if, any_reason}

-- What `risk.get(key)` is: True, False, or anything else, a missing key included.
pub data Fact : Type 0 where
  yes no unclear : Fact

-- The facts that the gate reads. `local_evidence` is a dict with what it has under `completed`, or
-- something that is no dict.
pub record Risk : Type 0 where
  pub honeypot : Fact
  pub sellable : Fact
  pub mint : Fact
  pub pause : Fact
  pub blacklist : Fact
  pub set_blacklist : Fact
  pub max_tx : Fact
  pub max_wallet : Fact
  pub local_evidence : Option Fact

-- `risk or {}` for a missing or empty risk.
abbrev pub no_facts : Risk
no_facts = record {
  honeypot = unclear;
  sellable = unclear;
  mint = unclear;
  pause = unclear;
  blacklist = unclear;
  set_blacklist = unclear;
  max_tx = unclear;
  max_wallet = unclear;
  local_evidence = none;
}

pub data Status : Type 0 where
  block caution passed : Status

pub record Verdict : Type 0 where
  pub hard_block : Bool
  pub status : Status
  pub hard_block_reasons : List Text
  pub warning_reasons : List Text
  pub sellability : Text
  pub honeypot_state : Text
  pub local_evidence_complete : Bool
  pub decision_authority : Bool
  pub paper_authority : Bool
  pub trade_authority : Bool
  pub live_authority : Bool
  pub wallet_authority : Bool
  pub execution_authority : Bool

abbrev pub is_true : Fact → Bool
is_true yes = true
is_true _ = false

abbrev pub is_false : Fact → Bool
is_false no = true
is_false _ = false

unfoldable pub hard_block_reasons_of : Risk → List Text
hard_block_reasons_of r =
    reason_if (is_true r.honeypot) (codes "HONEYPOT_CONFIRMED")
    ++ reason_if (is_false r.sellable) (codes "SELL_NOT_POSSIBLE")

-- The loop over the capabilities, in its order.
unfoldable pub warning_reasons_of : Risk → List Text
warning_reasons_of r =
    reason_if (is_true r.mint) (codes "MINT_CAPABILITY")
    ++ (reason_if (is_true r.pause) (codes "PAUSE_CAPABILITY")
        ++ (reason_if (is_true r.blacklist) (codes "BLACKLIST_CAPABILITY")
            ++ (reason_if (is_true r.set_blacklist) (codes "BLACKLIST_CONTROL")
                ++ (reason_if (is_true r.max_tx) (codes "MAX_TX_CONTROL")
                    ++ reason_if (is_true r.max_wallet) (codes "MAX_WALLET_CONTROL")))))

abbrev pub text_of_fact : Text → Text → Fact → Text
text_of_fact when_true when_false yes = when_true
text_of_fact when_true when_false no = when_false
text_of_fact when_true when_false unclear = codes "UNKNOWN"

abbrev pub completed : Option Fact → Bool
completed none = false
completed (some f) = is_true f

-- `evaluate`, without the local evidence that it hands back as it is.
unfoldable pub evaluate : Risk → Verdict
unfolding hard_block_reasons_of warning_reasons_of
evaluate r =
    let blocking = hard_block_reasons_of r in
    let warnings = warning_reasons_of r in
    record {
      hard_block = any_reason blocking;
      status =
          if any_reason blocking then block else if any_reason warnings then caution else passed;
      hard_block_reasons = blocking;
      warning_reasons = warnings;
      sellability = text_of_fact (codes "SELLABLE") (codes "UNSELLABLE") r.sellable;
      honeypot_state = text_of_fact (codes "YES") (codes "NO") r.honeypot;
      local_evidence_complete = completed r.local_evidence;
      decision_authority = false;
      paper_authority = false;
      trade_authority = false;
      live_authority = false;
      wallet_authority = false;
      execution_authority = false;
    }
