-- ===== src/Broker/Rotation.antt =====
-- The order in which `_candidate_indexes` of app/dex/provider_broker.py offers the providers.
use coinoskobi_dexbot.Common.{
  ℕ, zero, suc, ◌+◌, ◌-◌, ◌%◌, ◌<◌, ◌≤◌, true, ◌≡◌, refl, sym, ◌∙◌, ap, inl, inr, List, [], ◌∷◌,
  ◌++◌, take, drop, length, In, Bool-cases, ltb, ltb→lt, arith,
}
use coinoskobi_dexbot.Common.Text.{Text}
use coinoskobi_dexbot.Broker.State.{Item, Broker, heavy_methods, text_in}
use coinoskobi_dexbot.Broker.Circuits.{
  counted_skips, healthy_from, rotated, ordered_healthy, candidate_indexes,
}
use native.Mathlib.Nat.{mod-add-mod, mod-eq_of_lt, add-mod_right, mod-lt}

one_element : (k : ℕ) (xs : List ℕ) → length xs < 2 → In k xs → xs ≡ k ∷ []
one_element k [] few m = absurd m
one_element k (x ∷ []) few (inl e) = ap (λ y. y ∷ []) (sym e)
one_element k (x ∷ []) few (inr m) = absurd m
one_element k (x ∷ y ∷ xs) few m = absurd (omega (arith, few))

-- An element has a position.
split_at :
    {A : Type 0} (x : A) (xs : List A)
    → In x xs
    → (p : ℕ) × (p < length xs) × (rest : List A) × (drop p xs ≡ x ∷ rest)
split_at x [] m = absurd m
split_at x (y ∷ ys) (inl e) = (0, omega arith, ys, cc)
split_at x (y ∷ ys) (inr m) =
    let (p, lt, rest, e) = split_at x ys m in (suc p, omega arith, rest, e)

-- Within `n` steps the cursor stands at every position below `n`.
reaches : (c n p : ℕ) → p < n → (i : ℕ) × (i < n) × ((c + i) % n ≡ p)
reaches c n p lt =
    let below : c % n < n = mod-lt c (omega arith) in
    elim (Bool-cases (ltb p (c % n))) [
      | inl before ↦
          let i = n - c % n + p in
          let e : c % n + i ≡ p + n = ground arith in
          (i, ground arith, shifted i (ap (λ x. x % n) e ∙ add-mod_right p n ∙ mod-eq_of_lt lt))
      | inr behind ↦
          let i = p - c % n in
          let e : c % n + i ≡ p = ground arith in
          (i, ground arith, shifted i (ap (λ x. x % n) e ∙ mod-eq_of_lt lt))
    ]
  where
    shifted : (i : ℕ) → (c % n + i) % n ≡ p → (c + i) % n ≡ p
    shifted i e = sym (mod-add-mod c n i) ∙ e

-- The skips do not change which circuits are open.
healthy_from-counted_skips :
    (index now : ℕ) (items : List Item)
    → healthy_from index now (counted_skips now items) ≡ healthy_from index now items
unfolding healthy_from counted_skips
healthy_from-counted_skips index now [] = refl
healthy_from-counted_skips index now (item ∷ items) =
    ground (arith, healthy_from-counted_skips (suc index) now items)

-- The broker after a number of selections for a method at one time.
unfoldable pub selections : Text → ℕ → ℕ → Broker → Broker
selections method now zero b = b
selections method now (suc n) b = (candidate_indexes method now (selections method now n b)).0

selection :
    (method : Text) (now : ℕ) (b : Broker)
    → text_in method heavy_methods ≡ true
    → 2 ≤ length (healthy_from 0 now b.providers)
    → let healthy = healthy_from 0 now b.providers in
      ((candidate_indexes method now b).1 ≡ rotated (b.heavy_cursor % length healthy) healthy)
      × ((candidate_indexes method now b).0.heavy_cursor ≡ b.heavy_cursor + 1)
      × (healthy_from 0 now (candidate_indexes method now b).0.providers ≡ healthy)
unfolding candidate_indexes ordered_healthy
selection method now b heavy two = ground (arith, healthy_from-counted_skips 0 now b.providers)

after_selections :
    (method : Text) (now n : ℕ) (b : Broker)
    → text_in method heavy_methods ≡ true
    → 2 ≤ length (healthy_from 0 now b.providers)
    → ((selections method now n b).heavy_cursor ≡ b.heavy_cursor + n)
      × (healthy_from 0 now (selections method now n b).providers ≡ healthy_from 0 now b.providers)
unfolding selections
after_selections method now zero b heavy two = (omega arith, refl)
after_selections method now (suc n) b heavy two =
    let (cursor, same) = after_selections method now n b heavy two in
    let (order, moved, kept) =
      selection method now (selections method now n b) heavy (rw same two) in
    (omega arith, kept ∙ same)

-- The only healthy provider is offered, and the circuits stay as they are.
only_provider :
    (method : Text) (now k : ℕ) (b : Broker)
    → length (healthy_from 0 now b.providers) < 2
    → In k (healthy_from 0 now b.providers)
    → (candidate_indexes method now b).1 ≡ k ∷ []
unfolding candidate_indexes ordered_healthy
only_provider method now k b few m =
    let single : healthy_from 0 now b.providers ≡ k ∷ [] = one_element k _ few m in
    rw single (ground arith)

-- While the circuits stay as they are, a heavy method offers every healthy provider first within as
-- many selections as there are healthy providers.
pub every_provider_first :
    (method : Text) (now k : ℕ) (b : Broker)
    → text_in method heavy_methods ≡ true
    → In k (healthy_from 0 now b.providers)
    → (i : ℕ) × (i < length (healthy_from 0 now b.providers))
      × (rest : List ℕ) × ((candidate_indexes method now (selections method now i b)).1 ≡ k ∷ rest)
unfolding selections
every_provider_first method now k b heavy m =
    let healthy = healthy_from 0 now b.providers in
    let (p, lt, behind, e) = split_at k healthy m in
    elim (Bool-cases (ltb (length healthy) 2)) [
      | inl few ↦ (0, omega (arith, lt), [], only_provider method now k b (ltb→lt _ 2 few) m)
      | inr many ↦
          let two : 2 ≤ length healthy = ground arith in
          let (i, i_lt, at) = reaches b.heavy_cursor (length healthy) p lt in
          let (cursor, same) = after_selections method now i b heavy two in
          let (order, _, _) =
            selection method now (selections method now i b) heavy (rw same two) in
          (i, i_lt, behind ++ take p healthy, rw (order, same, cursor, at, e) refl)
    ]
