-- ===== src/History/Use.antt =====
-- `setdefault` of app/pipeline/runtime_price_history.py, for known and for new keys.
use coinoskobi_dexbot.Common.{
  suc, ◌≤◌, ◌≡◌, ◌≢◌, refl, sym, ap, ◌∙◌, ◌⊎◌, inl, inr, Option, none, some, List, [], ◌∷◌, ◌++◌,
  true, if◌then◌else◌, length, length-append, arith, Bool-cases, Option-cases,
}
use coinoskobi_dexbot.Common.Dict.{
  Dict, lookup, get_or, get_or-none, get_or-some, erase, Unique, erase-Unique, lookup-erase_self,
  lookup-erase_ne, length-erase,
}
use coinoskobi_dexbot.Common.Text.{Text}
use coinoskobi_dexbot.History.Store.{
  HistoryKey, history_key_eq, history_key_Eq, history_key_eq_iff, is_watched, watched_pairs,
  History, evict_if_needed, setdefault,
}
use coinoskobi_dexbot.History.Laws.{AllWatched, evict_lem}

module _ {V : Type 0} where
  -- The keys are distinct, and no more than allowed.
  pub record IsValid (h : History V) : Type 0 where
    pub positive : 1 ≤ h.max_entries
    pub unique : Unique h.items
    pub bounded : length h.items ≤ h.max_entries

  lookup-append_one :
      (j k : HistoryKey) (v : V) (d : Dict HistoryKey V)
      → lookup j (d ++ (k, v) ∷ [])
        ≡ elim (lookup j d) [ some w ↦ some w | none ↦ if history_key_eq j k then some v else none ]
  lookup-append_one j k v [] = refl
  lookup-append_one j k v (x ∷ d) = ground (arith, lookup-append_one j k v d)

  append_one-Unique :
      (k : HistoryKey) (v : V) (d : Dict HistoryKey V)
      → Unique d
      → lookup k d ≡ none
      → Unique (d ++ (k, v) ∷ [])
  append_one-Unique k v [] u n = (refl, tt)
  append_one-Unique k v (x ∷ d) u n = ground (
    arith,
    append_one-Unique k v d u.1,
    lookup-append_one x.0 k v d,
    history_key_eq_iff x.0 k,
    history_key_eq_iff k x.0,
  )

  -- What `setdefault` promises: it returns what is stored for the key, or the default; the
  -- histories stay within the limit, and a watched one stays unless only watched ones are left.
  pub record IsUsed (snapshot : Option (List (Text × Text))) (key : HistoryKey) (default : V)
      (h h' : History V) (value : V) : Type 0 where
    pub valid : IsValid h'
    pub returned_eq : value ≡ get_or key default h.items
    pub spared :
        (k : HistoryKey) (v : V)
        → is_watched (watched_pairs snapshot) k ≡ true
        → lookup k h.items ≡ some v
        → (lookup k h'.items ≡ some v) ⊎ AllWatched (watched_pairs snapshot) h'.items

  -- In valid histories `setdefault` ends, and returns what is stored for the key, or the default;
  -- the histories stay valid, and a watched one stays unless only watched ones are left.
  pub setdefault_lem :
      (snapshot : Option (List (Text × Text))) (key : HistoryKey) (default : V) {h : History V}
      → IsValid h
      → (h' : History V) × (value : V) × (setdefault snapshot key default h ≡ some (h', value))
        × IsUsed snapshot key default h h' value
  unfolding setdefault
  setdefault_lem snapshot key default {h} v = elim (Option-cases (lookup key h.items)) [
    | inl new ↦
        let items = h.items ++ (key, default) ∷ [] in
        let u = append_one-Unique key default h.items v.unique new in
        let (kept, e, is) =
          evict_lem (watched_pairs snapshot) (suc (length items)) h.max_entries items u
            (omega arith) in
        (
          record h { items = kept },
          default,
          rw (setdefault, new, evict_if_needed, e) refl,
          record {
            valid = record {
              positive = v.positive;
              unique = is.unique;
              bounded = omega (arith, is.size);
            };
            returned_eq = sym (get_or-none key default h.items new);
            spared =
                λ k x w p. is.spared k x w (lookup-append_one k key default h.items ∙ rw p refl);
          },
        )
    | inr (value, found) ↦
        let rest = erase key h.items in
        let gone = lookup-erase_self key h.items v.unique in
        (
          record h { items = rest ++ (key, value) ∷ [] },
          value,
          rw (setdefault, found) refl,
          record {
            valid = record {
              positive = v.positive;
              unique = append_one-Unique key value rest (erase-Unique key h.items v.unique) gone;
              bounded = omega (
                arith,
                v.bounded,
                length-append rest ((key, value) ∷ []),
                length-erase key value h.items found,
              );
            };
            returned_eq = sym (get_or-some key default value h.items found);
            spared = λ k x w p. inl (elim (Bool-cases (history_key_eq k key)) [
              | inl same ↦
                  let e : k ≡ key = (history_key_eq_iff k key).0 same in
                  let stored : some value ≡ some x =
                    sym found ∙ ap (λ j. lookup j h.items) (sym e) ∙ p in
                  lookup-append_one k key value rest
                  ∙ rw (ap (λ j. lookup j rest) e ∙ gone, same) stored
              | inr other ↦
                  let n : k ≢ key = λ e. ground (arith, history_key_eq_iff k key) in
                  lookup-append_one k key value rest ∙ rw (lookup-erase_ne k key h.items n ∙ p) refl
            ]);
          },
        )
  ]
