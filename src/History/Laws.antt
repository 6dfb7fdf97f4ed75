-- ===== src/History/Laws.antt =====
-- What the eviction of app/pipeline/runtime_price_history.py keeps and what it takes.
use coinoskobi_dexbot.Common.{
  ℕ, zero, suc, ◌<◌, ◌≤◌, min, true, false, ◌≡◌, ◌≢◌, refl, sym, ap, ◌∙◌, ◌⊎◌, inl, inr, none, some,
  List, [], ◌∷◌, leb, length, arith, Bool-cases, Option-cases,
}
use mathlib.Core.Path.{subst}
use coinoskobi_dexbot.Common.Dict.{
  Dict, lookup, erase, Unique, erase-Unique, lookup-erase_self, lookup-erase_ne, length-erase,
}
use coinoskobi_dexbot.Common.Text.{Text}
use coinoskobi_dexbot.History.Store.{
  HistoryKey, history_key_eq, history_key_Eq, history_key_eq_iff, is_watched, unwatched_victim,
  remove_victim, evict,
}

module _ {V : Type 0} (watched : List (Text × Text)) where
  -- Nothing but watched keys is there.
  abbrev pub AllWatched : Dict HistoryKey V → Type 0
  AllWatched d = (j : HistoryKey) (w : V) → lookup j d ≡ some w → is_watched watched j ≡ true

  victim_some :
      (k : HistoryKey) (d : Dict HistoryKey V)
      → unwatched_victim watched d ≡ some k
      → (is_watched watched k ≡ false) × ((v : V) × (lookup k d ≡ some v))
  unfolding unwatched_victim
  victim_some k [] e = cc
  victim_some k ((j, w) ∷ d) e = elim (Bool-cases (is_watched watched j)) [
    | inl spared ↦
        let (free, (v, found)) = victim_some k d (ground arith) in
        (
          free,
          elim (Bool-cases (history_key_eq k j)) [
            | inl same ↦ (w, rw same refl)
            | inr other ↦ (v, rw other found)
          ],
        )
    | inr free ↦
        let same : j ≡ k = ground arith in
        (ap (is_watched watched) (sym same) ∙ free, (w, ground (arith, history_key_eq_iff k j)))
  ]

  victim_none : (d : Dict HistoryKey V) → unwatched_victim watched d ≡ none → AllWatched d
  unfolding unwatched_victim
  victim_none [] e j w p = cc
  victim_none ((k, v) ∷ d) e j w p = elim (Bool-cases (history_key_eq j k)) [
    | inl same ↦ ap (is_watched watched) ((history_key_eq_iff j k).0 same) ∙ ground arith
    | inr other ↦ victim_none d (ground arith) j w (ground arith)
  ]

  -- One round removes one key, which is not watched unless all are.
  record IsRemoved (d d' : Dict HistoryKey V) : Type 0 where
    key : HistoryKey
    value : V
    removed_eq : d' ≡ erase key d
    found : lookup key d ≡ some value
    unwatched : (is_watched watched key ≡ false) ⊎ AllWatched d

  remove_lem :
      (d : Dict HistoryKey V)
      → 1 ≤ length d
      → IsRemoved d (remove_victim d (unwatched_victim watched d))
  unfolding remove_victim
  remove_lem d h = elim (Option-cases (unwatched_victim watched d)) [
    | inl e ↦ subst (λ o. IsRemoved d (remove_victim d o)) (sym e) (first d h (victim_none d e))
    | inr (k, e) ↦
        let (free, (v, found)) = victim_some k d e in
        subst (λ o. IsRemoved d (remove_victim d o)) (sym e)
          (record { key = k; value = v; removed_eq = refl; found = found; unwatched = inl free })
  ]
    where
      first :
          (d : Dict HistoryKey V) → 1 ≤ length d → AllWatched d → IsRemoved d (remove_victim d none)
      first [] h all = absurd (omega arith)
      first ((k, v) ∷ d) h all = record {
        key = k;
        value = v;
        removed_eq = refl;
        found = ground (arith, history_key_eq_iff k k);
        unwatched = inr all;
      }

  -- What an eviction keeps: as many items as allowed, with their values, and a watched one unless
  -- nothing but watched ones is left.
  pub record IsEvicted (limit : ℕ) (d kept : Dict HistoryKey V) : Type 0 where
    pub size : length kept ≡ min limit (length d)
    pub unique : Unique kept
    pub values : (j : HistoryKey) (w : V) → lookup j kept ≡ some w → lookup j d ≡ some w
    pub spared :
        (k : HistoryKey) (v : V)
        → is_watched watched k ≡ true
        → lookup k d ≡ some v
        → (lookup k kept ≡ some v) ⊎ AllWatched kept

  IsEvicted-then :
      (limit : ℕ) (d d' kept : Dict HistoryKey V)
      → limit < length d
      → Unique d
      → IsRemoved d d'
      → IsEvicted limit d' kept
      → IsEvicted limit d kept
  IsEvicted-then limit d d' kept over u r e =
      let before : (j : HistoryKey) (w : V) → lookup j d' ≡ some w → lookup j d ≡ some w =
        λ j w p. still_there j w p in
      record {
        size = omega (arith, e.size, ap length r.removed_eq, length-erase r.key r.value d r.found);
        unique = e.unique;
        values = λ j w p. before j w (e.values j w p);
        spared = λ k v h p. elim r.unwatched [
          | inl free ↦
              let other : k ≢ r.key =
                λ same. let c = sym h ∙ ap (is_watched watched) same ∙ free in cc in
              e.spared k v h (ap (lookup k) r.removed_eq ∙ lookup-erase_ne k r.key d other ∙ p)
          | inr all ↦ inr (λ j w q. all j w (before j w (e.values j w q)))
        ];
      }
    where
      still_there : (j : HistoryKey) (w : V) → lookup j d' ≡ some w → lookup j d ≡ some w
      still_there j w p = elim (Bool-cases (history_key_eq j r.key)) [
        | inl same ↦
            let gone =
              ap (λ x. lookup x (erase r.key d)) ((history_key_eq_iff j r.key).0 same)
              ∙ lookup-erase_self r.key d u in
            absurd (let c = sym gone ∙ sym (ap (lookup j) r.removed_eq) ∙ p in cc)
        | inr other ↦
            let n : j ≢ r.key = λ e. ground (arith, history_key_eq_iff j r.key) in
            sym (lookup-erase_ne j r.key d n) ∙ sym (ap (lookup j) r.removed_eq) ∙ p
      ]

  -- On distinct keys and with more fuel than items the eviction ends, with exactly as many items as
  -- are allowed; a watched one is only evicted if nothing but watched ones is left.
  pub evict_lem :
      (fuel limit : ℕ) (d : Dict HistoryKey V)
      → Unique d
      → length d < fuel
      → (kept : Dict HistoryKey V) × (evict fuel limit watched d ≡ some kept)
        × IsEvicted limit d kept
  unfolding evict
  evict_lem zero limit d u h = absurd (omega arith)
  evict_lem (suc fuel) limit d u h = elim (Bool-cases (leb (length d) limit)) [
    | inl fits ↦ (
      d,
      rw fits refl,
      record { size = ground arith; unique = u; values = λ j w p. p; spared = λ k v h p. inl p },
    )
    | inr over ↦
        let over' : limit < length d = ground arith in
        let d' = remove_victim d (unwatched_victim watched d) in
        let r = remove_lem d (omega arith) in
        let u' : Unique d' = subst Unique (sym r.removed_eq) (erase-Unique r.key d u) in
        let le : length d' < fuel =
          omega (arith, ap length r.removed_eq, length-erase r.key r.value d r.found) in
        let (kept, e, is) = evict_lem fuel limit d' u' le in
        (kept, rw over e, IsEvicted-then limit d d' kept over' u r is)
  ]
