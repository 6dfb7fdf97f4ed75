-- ===== src/Broker/Candidates.antt =====
-- The candidates of a request of app/dex/provider_broker.py among the providers.
use coinoskobi_dexbot.Common.{
  ℕ, zero, suc, ◌+◌, ◌%◌, true, false, not, ◌||◌, ◌≡◌, ◌≢◌, refl, ap, ◌⊎◌, inl, inr, some, List, [],
  ◌∷◌, ◌++◌, length, take, drop, In, nat_eq, arith, Bool-cases, if_cases,
}
use coinoskobi_dexbot.Common.Text.{Text}
use coinoskobi_dexbot.Broker.State.{Item, Broker, heavy_methods, text_in}
use coinoskobi_dexbot.Broker.Circuits.{
  is_open, counted_skips, healthy_from, rotated, ordered_healthy, candidate_indexes, change_at,
}
use coinoskobi_dexbot.Broker.Request.{item_at}

pub item_at-change_at :
    (j i : ℕ) (f : Item → Item) (items : List Item)
    → j ≢ i
    → item_at j (change_at i f items) ≡ item_at j items
unfolding item_at change_at
item_at-change_at j i f [] n = refl
item_at-change_at zero zero f (x ∷ items) n = absurd (n refl)
item_at-change_at zero (suc i) f (x ∷ items) n = refl
item_at-change_at (suc j) zero f (x ∷ items) n = refl
item_at-change_at (suc j) (suc i) f (x ∷ items) n = item_at-change_at j i f items λ e. n (ap suc e)

pub item_at-change_at_self :
    (i : ℕ) (f : Item → Item) (items : List Item) (item : Item)
    → item_at i items ≡ some item
    → item_at i (change_at i f items) ≡ some (f item)
unfolding item_at change_at
item_at-change_at_self i f [] item e = absurd cc
item_at-change_at_self zero f (x ∷ items) item e = cc
item_at-change_at_self (suc i) f (x ∷ items) item e = item_at-change_at_self i f items item e

pub item_at-counted_skips :
    (now j : ℕ) (items : List Item) (item : Item)
    → item_at j items ≡ some item
    → is_open now item ≡ true
    → item_at j (counted_skips now items)
      ≡ some (record item { circuit_skips = item.circuit_skips + 1 })
unfolding item_at counted_skips
item_at-counted_skips now j [] item e o = absurd cc
item_at-counted_skips now zero (x ∷ items) item e o = ground arith
item_at-counted_skips now (suc j) (x ∷ items) item e o = item_at-counted_skips now j items item e o

-- The index of a healthy provider is that of a provider whose circuit is not open.
healthy_from_lem :
    (start now k : ℕ) (items : List Item)
    → In k (healthy_from start now items)
    → (j : ℕ) × (k ≡ start + j)
      × (item : Item) × (item_at j items ≡ some item)
      × (is_open now item ≡ false)
unfolding healthy_from item_at
healthy_from_lem start now k [] m = absurd m
healthy_from_lem start now k (x ∷ items) m = elim (Bool-cases (is_open now x)) [
  | inl opened ↦
      let (j, e, item, at, o) = healthy_from_lem (suc start) now k items (ground arith) in
      (suc j, omega (arith, e), item, at, o)
  | inr closed ↦
      let split : (k ≡ start) ⊎ In k (healthy_from (suc start) now items) = ground arith in
      elim split [
        | inl e ↦ (0, omega (arith, e), x, refl, closed)
        | inr more ↦
            let (j, e, item, at, o) = healthy_from_lem (suc start) now k items more in
            (suc j, omega (arith, e), item, at, o)
      ]
]

In-append : {A : Type 0} (x : A) (xs ys : List A) → In x (xs ++ ys) → In x xs ⊎ In x ys
In-append x [] ys m = inr m
In-append x (z ∷ xs) ys m = ground (arith, In-append x xs ys)

In-drop : {A : Type 0} (x : A) (n : ℕ) (xs : List A) → In x (drop n xs) → In x xs
In-drop x zero xs m = m
In-drop x (suc n) [] m = m
In-drop x (suc n) (y ∷ xs) m = inr (In-drop x n xs m)

In-take : {A : Type 0} (x : A) (n : ℕ) (xs : List A) → In x (take n xs) → In x xs
In-take x zero xs m = absurd m
In-take x (suc n) [] m = m
In-take x (suc n) (y ∷ xs) m = ground (arith, In-take x n xs)

In-rotated : (k start : ℕ) (healthy : List ℕ) → In k (rotated start healthy) → In k healthy
In-rotated k start healthy m = elim (In-append k (drop start healthy) (take start healthy) m) [
  | inl behind ↦ In-drop k start healthy behind
  | inr before ↦ In-take k start healthy before
]

-- Only healthy providers are offered.
pub candidate_healthy :
    (method : Text) (now k : ℕ) (b : Broker)
    → In k (candidate_indexes method now b).1
    → In k (healthy_from 0 now b.providers)
unfolding candidate_indexes ordered_healthy
candidate_healthy method now k b =
    let healthy = healthy_from 0 now b.providers in
    if_cases (λ (r : Broker × List ℕ). In k r.1 → In k healthy) (nat_eq (length healthy) 0)
      (λ _ m. absurd m)
      (λ _.
        if_cases (λ (r : Broker × List ℕ). In k r.1 → In k healthy)
          (not (text_in method heavy_methods) || nat_eq (length healthy) 1) (λ _ m. m)
          (λ _ m. In-rotated k (b.heavy_cursor % length healthy) healthy m))

-- A provider whose circuit is open is not among the candidates.
pub open_not_candidate :
    (method : Text) (now j : ℕ) (b : Broker) (item : Item)
    → item_at j b.providers ≡ some item
    → is_open now item ≡ true
    → In j (candidate_indexes method now b).1
    → ⊥
open_not_candidate method now j b item at opened m =
    let (i, e, found, at_i, closed) =
      healthy_from_lem 0 now j b.providers (candidate_healthy method now j b m) in
    let same : j ≡ i = omega (arith, e) in let one : item ≡ found = cc in cc
