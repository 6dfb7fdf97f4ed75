-- ===== src/History/Store.antt =====
-- `RuntimePriceHistory` of app/pipeline/runtime_price_history.py: a dict of bounded size whose keys
-- stand in the order of their last use. The instance's lock makes each method one step. The engine's
-- watch list is read by the environment, which may fail.
use coinoskobi_dexbot.Common.{
  ℕ, zero, suc, max, Bool, true, false, not, ◌&&◌, ◌||◌, ◌≡◌, ◌↔◌, Option, none, some, List, [],
  ◌∷◌, ◌++◌, if◌then◌else◌, Eq, leb, length, arith,
}
use coinoskobi_dexbot.Common.Int.{ℤ, pos_part}
use coinoskobi_dexbot.Common.Dict.{Dict, lookup, erase}
use coinoskobi_dexbot.Common.Text.{Text, text_eq, text_eq_iff, lower, strip}
use coinoskobi_dexbot.Row.{nonempty}

-- A key of token, pool and a third part, or a key of another shape.
pub data HistoryKey : Type 0 where
  priced : Text → Text → Text → HistoryKey
  odd : Text → HistoryKey

abbrev pub history_key_eq : HistoryKey → HistoryKey → Bool
history_key_eq (priced a b c) (priced a' b' c') = text_eq a a' && (text_eq b b' && text_eq c c')
history_key_eq (odd a) (odd a') = text_eq a a'
history_key_eq _ _ = false

pub history_key_eq_iff : (k j : HistoryKey) → (history_key_eq k j ≡ true) ↔ (k ≡ j)
history_key_eq_iff (priced a b c) (priced a' b' c') =
    ground (arith, text_eq_iff a a', text_eq_iff b b', text_eq_iff c c')
history_key_eq_iff (odd a) (odd a') = ground (arith, text_eq_iff a a')
history_key_eq_iff (priced a b c) (odd a') = (λ e. cc, λ e. cc)
history_key_eq_iff (odd a) (priced a' b' c') = (λ e. cc, λ e. cc)

instance abbrev pub history_key_Eq : Eq HistoryKey
history_key_Eq = record { equal = history_key_eq; equal_iff = history_key_eq_iff }

-- `str(value).strip().lower()`
unfoldable pub normalized : Text → Text
unfolding lower strip
normalized s = lower (strip s)

-- `_watched_pairs`: no loader, or one that raises, watches nothing.
unfoldable pub watched_pairs : Option (List (Text × Text)) → List (Text × Text)
unfolding normalized
watched_pairs none = []
watched_pairs (some []) = []
watched_pairs (some ((token, pool) ∷ pairs)) =
    let rest = watched_pairs (some pairs) in
    if nonempty token && nonempty pool then (normalized token, normalized pool) ∷ rest else rest

abbrev pub pair_in : Text → Text → List (Text × Text) → Bool
pair_in token pool [] = false
pair_in token pool (x ∷ pairs) = (text_eq token x.0 && text_eq pool x.1) || pair_in token pool pairs

-- Whether a key is protected from the ordinary eviction.
unfoldable pub is_watched : List (Text × Text) → HistoryKey → Bool
unfolding normalized
is_watched watched (priced token pool third) = pair_in (normalized token) (normalized pool) watched
is_watched watched (odd a) = false

pub record History (V : Type 0) : Type 0 where
  pub max_entries : ℕ
  pub items : Dict HistoryKey V

module _ {V : Type 0} where
  -- `__init__`
  unfoldable pub new_history : ℤ → History V
  new_history max_entries = record { max_entries = max 1 (pos_part max_entries); items = [] }

  -- The loop for the victim: the first key that is not watched.
  unfoldable pub unwatched_victim : List (Text × Text) → Dict HistoryKey V → Option HistoryKey
  unfolding is_watched
  unwatched_victim watched [] = none
  unwatched_victim watched ((key, value) ∷ d) =
      let rest = unwatched_victim watched d in
      if not (is_watched watched key) then some key else rest

  -- The removal of the victim; if there is none, of the first key.
  unfoldable pub remove_victim : Dict HistoryKey V → Option HistoryKey → Dict HistoryKey V
  remove_victim d (some key) = erase key d
  remove_victim [] none = []
  remove_victim ((key, value) ∷ d) none = erase key ((key, value) ∷ d)

  -- The loop of `_evict_if_needed`. `none` is fuel that has run out.
  unfoldable pub evict : ℕ → ℕ → List (Text × Text) → Dict HistoryKey V → Option (Dict HistoryKey V)
  unfolding remove_victim unwatched_victim
  evict zero limit watched d = none
  evict (suc fuel) limit watched d =
      let rest = evict fuel limit watched (remove_victim d (unwatched_victim watched d)) in
      if leb (length d) limit then some d else rest

  -- `_evict_if_needed`, with fuel for every item and the last test.
  unfoldable pub evict_if_needed : Option (List (Text × Text)) → History V → Option (History V)
  unfolding evict watched_pairs
  evict_if_needed snapshot h =
      elim (evict (suc (length h.items)) h.max_entries (watched_pairs snapshot) h.items) [
        | none ↦ none
        | some kept ↦ some (record h { items = kept })
      ]

  -- `setdefault`: a known key moves to the end, a new one is added there.
  unfoldable pub setdefault :
      Option (List (Text × Text)) → HistoryKey → V → History V → Option (History V × V)
  unfolding evict_if_needed
  setdefault snapshot key default h = elim (lookup key h.items) [
    | some value ↦ some (record h { items = erase key h.items ++ (key, value) ∷ [] }, value)
    | none ↦ elim (evict_if_needed snapshot (record h { items = h.items ++ (key, default) ∷ [] })) [
      | none ↦ none
      | some h' ↦ some (h', default)
    ]
  ]
