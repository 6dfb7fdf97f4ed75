-- ===== src/Exit/Laws.antt =====
-- When `evaluate_hybrid_exit` of app/risk/hybrid_exit_controller.py lets a position go, and the
-- prices that it reports.
use coinoskobi_dexbot.Common.{
  suc, zero, Bool, true, false, not, ◌&&◌, ◌||◌, ◌≡◌, ◌↔◌, refl, inl, inr, Option, none, some,
  arith, if_cases, Bool-cases, some_eq,
}
use coinoskobi_dexbot.Common.Int.{ℤ, pos, negsuc, ltb_ℤ, leb_ℤ}
use coinoskobi_dexbot.Common.Text.{Text}
use coinoskobi_dexbot.Row.{Field}
use coinoskobi_dexbot.Exit.Controller.{
  Value, finite, number, Decision, positive, floor_of, highest_of, unsellable, decide, with_prices,
  evaluate_hybrid_exit, nonzero,
}

-- A position is kept at the price: no positive floor is at or above it.
abbrev pub AboveFloor : Option ℤ → ℤ → Type 0
AboveFloor floor current = (f : ℤ) → floor ≡ some f → positive f ≡ true → ltb_ℤ f current ≡ true

-- Every condition under which the position stays open.
pub record IsKept (entry current floor : Option ℤ) (blocked unsold : Bool) : Type 0 where
  pub entry_price : ℤ
  pub entry_given : entry ≡ some entry_price
  pub entry_positive : positive entry_price ≡ true
  pub current_price : ℤ
  pub current_given : current ≡ some current_price
  pub current_positive : positive current_price ≡ true
  pub above_floor : AboveFloor floor current_price
  pub not_blocked : blocked ≡ false
  pub sellable : unsold ≡ false

floor_above :
    (floor : Option ℤ) (current : ℤ)
    → (positive (floor_of floor) && leb_ℤ current (floor_of floor)) ≡ false
    → AboveFloor floor current
unfolding floor_of
floor_above none current h = λ f e. cc
floor_above (some n) current h = λ f e p. ground arith

floor_below :
    (floor : Option ℤ) (current : ℤ)
    → AboveFloor floor current
    → (positive (floor_of floor) && leb_ℤ current (floor_of floor)) ≡ false
unfolding floor_of
floor_below none current h = ground arith
floor_below (some n) current h = elim (Bool-cases (positive n)) [
  | inl p ↦ ground (arith, h n refl p)
  | inr z ↦ rw z (ground arith)
]

decide_keeps :
    (entry current highest floor : ℤ) (blocked unsold : Bool)
    → (decide entry current highest floor blocked unsold).exit_now ≡ false
    → (blocked ≡ false) × (unsold ≡ false) × ((positive floor && leb_ℤ current floor) ≡ false)
unfolding decide
decide_keeps entry current highest floor blocked unsold h = ground arith

decide_kept :
    (entry current highest floor : ℤ) (blocked unsold : Bool)
    → blocked ≡ false
    → unsold ≡ false
    → (positive floor && leb_ℤ current floor) ≡ false
    → (decide entry current highest floor blocked unsold).exit_now ≡ false
unfolding decide
decide_kept entry current highest floor blocked unsold b u f = rw (b, u, f) (ground arith)

keeps :
    (entry current highest floor : Option ℤ) (blocked unsold : Bool)
    → (with_prices entry current highest floor blocked unsold).exit_now ≡ false
    → IsKept entry current floor blocked unsold
unfolding with_prices
keeps none current highest floor blocked unsold h = cc
keeps (some e) none highest floor blocked unsold h = cc
keeps (some e) (some c) highest floor blocked unsold h =
    if_cases (λ (d : Decision). d.exit_now ≡ false → IsKept (some e) (some c) floor blocked unsold)
      (not (positive e) || not (positive c)) (λ _ h. cc)
      (λ p h.
        let (b, u, f) = decide_keeps e c (highest_of highest c) (floor_of floor) blocked unsold h in
        record {
          entry_price = e;
          entry_given = refl;
          entry_positive = ground arith;
          current_price = c;
          current_given = refl;
          current_positive = ground arith;
          above_floor = floor_above floor c f;
          not_blocked = b;
          sellable = u;
        })
      h

kept :
    (entry current highest floor : Option ℤ) (blocked unsold : Bool)
    → IsKept entry current floor blocked unsold
    → (with_prices entry current highest floor blocked unsold).exit_now ≡ false
unfolding with_prices
kept entry current highest floor blocked unsold k =
    rw (k.entry_given, k.current_given, k.entry_positive, k.current_positive)
      (decide_kept k.entry_price k.current_price (highest_of highest k.current_price)
        (floor_of floor) blocked unsold k.not_blocked k.sellable
        (floor_below floor k.current_price k.above_floor))

-- A position stays open exactly if its entry and its current price are positive numbers, nothing
-- blocks it, it can be sold, and no positive floor is at or above the current price.
pub exit_now_iff :
    (entry current highest floor : Value) (blocked : Bool) (sellability : Field Text)
    → ((evaluate_hybrid_exit entry current highest floor blocked sellability).exit_now ≡ false)
      ↔ IsKept (number entry) (number current) (number floor) blocked (unsellable sellability)
unfolding evaluate_hybrid_exit
exit_now_iff entry current highest floor blocked sellability = (
  keeps (number entry) (number current) (number highest) (number floor) blocked
      (unsellable sellability),
  kept (number entry) (number current) (number highest) (number floor) blocked
      (unsellable sellability),
)

-- A price that lets the position go does so at every lower price.
pub exit_now_falling :
    (entry highest floor : Value) (c c' : ℤ) (blocked : Bool) (sellability : Field Text)
    → leb_ℤ c' c ≡ true
    → (evaluate_hybrid_exit entry (finite c) highest floor blocked sellability).exit_now ≡ true
    → (evaluate_hybrid_exit entry (finite c') highest floor blocked sellability).exit_now ≡ true
unfolding number
exit_now_falling entry highest floor c c' blocked sellability le exits =
    elim (Bool-cases
      (evaluate_hybrid_exit entry (finite c') highest floor blocked sellability).exit_now) [
        | inl also ↦ also
        | inr stays ↦
            let k = (exit_now_iff entry (finite c') highest floor blocked sellability).0 stays in
            let same : c' ≡ k.current_price = some_eq k.current_given in
            let higher =
              (exit_now_iff entry (finite c) highest floor blocked sellability).1 (record {
                entry_price = k.entry_price;
                entry_given = k.entry_given;
                entry_positive = k.entry_positive;
                current_price = c;
                current_given = refl;
                current_positive = ground (arith, k.current_positive, same);
                above_floor = λ f e p. ground (arith, k.above_floor f e p, same);
                not_blocked = k.not_blocked;
                sellable = k.sellable;
              }) in
            cc
      ]

nonzero_above :
    (floor entry : ℤ)
    → positive entry ≡ true
    → ltb_ℤ entry floor ≡ true
    → nonzero floor ≡ some floor
nonzero_above (pos zero) entry p lt = absurd (ground arith)
nonzero_above (pos (suc n)) entry p lt = refl
nonzero_above (negsuc n) entry p lt = refl

decide_lock :
    (entry current highest floor : ℤ) (blocked unsold : Bool) (f : ℤ)
    → positive entry ≡ true
    → (decide entry current highest floor blocked unsold).profit_lock_price ≡ some f
    → ((decide entry current highest floor blocked unsold).protection_price ≡ some f)
      × (ltb_ℤ entry f ≡ true)
unfolding decide
decide_lock entry current highest floor blocked unsold f p h =
    ground (arith, nonzero_above floor entry)

lock :
    (entry current highest floor : Option ℤ) (blocked unsold : Bool) (f : ℤ)
    → (with_prices entry current highest floor blocked unsold).profit_lock_price ≡ some f
    → ((with_prices entry current highest floor blocked unsold).protection_price ≡ some f)
      × ((e : ℤ) × (entry ≡ some e) × (ltb_ℤ e f ≡ true))
unfolding with_prices
lock none current highest floor blocked unsold f h = cc
lock (some e) none highest floor blocked unsold f h = cc
lock (some e) (some c) highest floor blocked unsold f h =
    if_cases
      (λ (d : Decision).
        d.profit_lock_price ≡ some f
        → (d.protection_price ≡ some f) × ((e' : ℤ) × (some e ≡ some e') × (ltb_ℤ e' f ≡ true)))
      (not (positive e) || not (positive c)) (λ _ h. cc)
      (λ p h.
        let (at, over) =
          decide_lock e c (highest_of highest c) (floor_of floor) blocked unsold f (ground arith)
            h in
        (at, (e, refl, over)))
      h

-- A profit lock is the protection price, and above the entry price.
pub profit_lock_lem :
    (entry current highest floor : Value) (blocked : Bool) (sellability : Field Text) (f : ℤ)
    → (evaluate_hybrid_exit entry current highest floor blocked sellability).profit_lock_price
      ≡ some f
    → ((evaluate_hybrid_exit entry current highest floor blocked sellability).protection_price
        ≡ some f)
      × ((e : ℤ) × (number entry ≡ some e) × (ltb_ℤ e f ≡ true))
unfolding evaluate_hybrid_exit
profit_lock_lem entry current highest floor blocked sellability f =
    lock (number entry) (number current) (number highest) (number floor) blocked
      (unsellable sellability) f
