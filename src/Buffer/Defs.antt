-- ===== src/Buffer/Defs.antt =====
-- `EventBuffer` and `buffer_health` of app/dex/event_buffer.py, for events of any type.
use coinoskobi_dexbot.Common.{
  ℕ, ◌+◌, ◌*◌, max, min, Bool, true, false, Option, none, some, List, [], ◌∷◌, ◌++◌, if◌then◌else◌,
  leb, length, take, drop,
}
use coinoskobi_dexbot.Common.Int.{ℤ, pos_part}

pub record Buffer (A : Type 0) : Type 0 where
  pub max_size : ℕ
  pub items : List A
  pub dropped : ℕ

-- The result of `push`.
pub record Pushed (A : Type 0) : Type 0 where
  pub accepted : Bool
  pub dropped_event : Option A
  pub size : ℕ
  pub max_size : ℕ
  pub overflowed : Bool
  pub execution_authority : Bool

-- How many events a drain wants of `size`.
abbrev pub wanted : Option ℤ → ℕ → ℕ
wanted none size = size
wanted (some n) size = pos_part n

module _ {A : Type 0} where
  abbrev pub is_some : Option A → Bool
  is_some none = false
  is_some (some a) = true

  -- `__init__`
  unfoldable pub init : ℤ → Buffer A
  init max_size = record { max_size = max 1 (pos_part max_size); items = []; dropped = 0 }

  -- The append and the result of `push`, with the event that was dropped.
  unfoldable pub append_event : Option A → A → Buffer A → Buffer A × Pushed A
  append_event out event b =
      let items = b.items ++ event ∷ [] in
      (
        record b { items = items },
        record {
          accepted = true;
          dropped_event = out;
          size = length items;
          max_size = b.max_size;
          overflowed = is_some out;
          execution_authority = false;
        },
      )

  -- A push into a full buffer; `popleft` raises on an empty deque, which is `none`.
  unfoldable pub push_full : A → Buffer A → List A → Option (Buffer A × Pushed A)
  unfolding append_event
  push_full event b [] = none
  push_full event b (oldest ∷ rest) =
      some (append_event (some oldest) event (record b { items = rest; dropped = b.dropped + 1 }))

  -- `push`
  unfoldable pub push : A → Buffer A → Option (Buffer A × Pushed A)
  unfolding push_full append_event
  push event b =
      if leb b.max_size (length b.items)
      then push_full event b b.items
      else some (append_event none event b)

  -- `pop`
  unfoldable pub pop : Buffer A → Buffer A × Option A
  pop b = elim b.items [ [] ↦ (b, none) | x ∷ rest ↦ (record b { items = rest }, some x) ]

  -- `drain`: no limit, or a number that counts as 0 below 0.
  unfoldable pub drain : Option ℤ → Buffer A → Buffer A × List A
  drain limit b =
      let n = min (wanted limit (length b.items)) (length b.items) in
      (record b { items = drop n b.items }, take n b.items)

  -- Pushes in a row, as a caller makes them.
  unfoldable pub push_all : List A → Buffer A → Option (Buffer A)
  unfolding push
  push_all [] b = some b
  push_all (event ∷ events) b = elim (push event b) [
    | none ↦ none
    | some (b', _) ↦ push_all events b'
  ]

pub data Health : Type 0 where
  unknown full pressured healthy : Health

-- The state of `buffer_health`. The ratio of two sizes is at least 0.8 exactly when five times the
-- size is at least four times the maximum: both are far below 2 ^ 50, where the division of two
-- integers is rounded to the double next to it.
unfoldable pub buffer_health : {A : Type 0} → Option (Buffer A) → Health
buffer_health none = unknown
buffer_health (some b) =
    if leb b.max_size (length b.items)
    then full
    else if leb (4 * b.max_size) (5 * length b.items)
    then pressured
    else healthy
