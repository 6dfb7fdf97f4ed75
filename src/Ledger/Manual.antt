-- ===== src/Ledger/Manual.antt =====
-- The MANUAL mode of app/paper/control_mode.py in the inserts of app/paper/database.py.
use coinoskobi_dexbot.Common.{
  Bool, true, false, ◌&&◌, ◌≡◌, refl, sym, ◌∙◌, ap, Option, none, some, if◌then◌else◌, ◌⊎◌, inl,
  inr,
}
use coinoskobi_dexbot.Common.Int.{ℤ}
use coinoskobi_dexbot.Common.Text.{Text, codes, text_eq, strip, upper}
use coinoskobi_dexbot.Row.{nonempty, truthy}
use coinoskobi_dexbot.Ledger.Trade.{Trade, text_of, normalized}
use coinoskobi_dexbot.Ledger.Contract.{
  ControlMode, auto, manual, mode_name, mode_named, normalize_control_mode, is_explicit, is_none,
}
use coinoskobi_dexbot.Ledger.Admitting.{admission_lem}
use coinoskobi_dexbot.Ledger.Control.{get_control_mode_from_connection, is_auto}
use coinoskobi_dexbot.Ledger.Store.{Ledger}
use coinoskobi_dexbot.Ledger.Insert.{
  Inserted, inserted, asks_for_auto, appended, insert_if_below_open_limit,
}
use coinoskobi_dexbot.Ledger.Axes.{routed_lem}

mode_manual :
    (u : Text)
    → text_eq u (codes "AUTO") ≡ false
    → is_none (mode_named u) ≡ false
    → mode_named u ≡ some manual
mode_manual u other = go _ _ other
  where
    go :
        (a b : Bool)
        → a ≡ false
        → is_none {A = ControlMode} (if a then some auto else if b then some manual else none)
          ≡ false
        → (if a then some auto else if b then some manual else none) ≡ some manual
    go true b e known = cc
    go false true e known = refl
    go false false e known = cc

-- A written mode that is not AUTO and that is valid is MANUAL.
manual_of :
    (v : Option Text)
    → strip (text_of v) ≡ text_of v
    → truthy v ≡ true
    → text_eq (upper (text_of v)) (codes "AUTO") ≡ false
    → (is_explicit v && is_none (normalize_control_mode v)) ≡ false
    → normalize_control_mode v ≡ some manual
unfolding normalize_control_mode normalized
manual_of none clean given other fine = cc
manual_of (some s) clean given other fine =
    let explicit : nonempty (strip s) ≡ true = rw clean given in
    let name : normalize_control_mode (some s) ≡ mode_named (upper s) =
      ap (λ x. mode_named (upper x)) clean in
    let known : is_none (normalize_control_mode (some s)) ≡ false = and_false _ _ explicit fine in
    name ∙ mode_manual (upper s) other (rw (sym name) known)
  where
    and_false : (a b : Bool) → a ≡ true → (a && b) ≡ false → b ≡ false
    and_false true b e h = h
    and_false false b e h = cc

-- In the MANUAL mode no AUTO entry gets into the ledger: what `insert_if_below_open_limit` admits,
-- if its control mode has no blanks around it, is stored under MANUAL.
pub manual_entries :
    (now : Text) (trade : Trade) (limit : ℤ) (l l' : Ledger)
    → get_control_mode_from_connection l.control ≡ manual
    → strip (text_of trade.control_mode) ≡ text_of trade.control_mode
    → insert_if_below_open_limit now trade limit l ≡ (l', inserted)
    → (row : Trade) × (l' ≡ appended now row l) × (row.control_mode ≡ some (mode_name manual))
unfolding asks_for_auto
manual_entries now trade limit l l' mode clean done = elim (admission_lem now trade limit l) [
  | inr (bad, same, not_in) ↦ absurd (not_in (ap (λ (r : Ledger × Inserted). r.1) done))
  | inl (row, v, at) ↦
      let (fine, fine', same) = routed_lem trade row v.axes in
      let barred : asks_for_auto trade ≡ false = barred_of _ mode v.mode in
      let written : (truthy trade.control_mode ≡ true)
          × (text_eq (upper (text_of trade.control_mode)) (codes "AUTO") ≡ false) =
        written_of _ _ barred in
      let is_manual = manual_of trade.control_mode clean written.0 written.1 fine in
      (
        row,
        ap (λ (r : Ledger × Inserted). r.0) (sym done ∙ at),
        ap (λ (t : Trade). t.control_mode) same ∙ rw is_manual refl,
      )
]
  where
    barred_of :
        {b : Bool} (m : ControlMode) → m ≡ manual → (is_auto m ≡ true) ⊎ (b ≡ false) → b ≡ false
    barred_of auto e h = cc
    barred_of manual e (inl h) = cc
    barred_of manual e (inr h) = h

    written_of : (a b : Bool) → (if a then b else true) ≡ false → (a ≡ true) × (b ≡ false)
    written_of true b h = (refl, h)
    written_of false b h = absurd cc
