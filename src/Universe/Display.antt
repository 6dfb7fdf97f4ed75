-- ===== src/Universe/Display.antt =====
-- `persist_snapshot_display_metadata` of app/universe/display_metadata.py. The time of the write is
-- left out; chains, dexes and pools are in their canonical form.
use coinoskobi_dexbot.Common.{
  ℕ, Bool, true, false, ◌&&◌, ◌||◌, Option, none, some, List, [], ◌∷◌, ◌++◌, if◌then◌else◌, take,
}
use coinoskobi_dexbot.Common.Text.{Text, codes, text_eq, lower, strip}
use coinoskobi_dexbot.Universe.Registry.{Snapshot, Display, is_blank}
use coinoskobi_dexbot.Universe.Schema.{optional_address}
use coinoskobi_dexbot.Universe.Ingest.{◌>>=◌, or_else}

-- `_text`
unfoldable pub text_within : ℕ → Text → Option Text
text_within limit value =
    let shown = take limit (strip value) in if is_blank shown then none else some shown

abbrev pub is_shown : Option Text → Bool
is_shown none = false
is_shown (some value) = true

-- The name that a pair is shown under.
unfoldable pub shown_name : Option Text → Option Text → Option Text → Option Text
shown_name (some name) base quote = some name
shown_name none (some base) (some quote) = some (base ++ codes " / " ++ quote)
shown_name none (some base) none = some base
shown_name none none quote = quote

-- The addresses of the tokens, which may be an error.
unfoldable pub with_tokens : Snapshot → Display → Option (Option Display)
unfolding optional_address
with_tokens s row = do
  base_token ← optional_address s.base_token
  quote_token ← optional_address s.quote_token
  some (some (record row { base_token = base_token; quote_token = quote_token }))

-- The row of a snapshot: an error, or `none` if nothing of it is shown.
unfoldable pub display_of : Snapshot → Option (Option Display)
unfolding text_within shown_name with_tokens
display_of s =
    let base = text_within 64 s.base_symbol in
    let quote = text_within 64 s.quote_symbol in
    let base_name = text_within 128 s.base_name in
    let quote_name = text_within 128 s.quote_name in
    let name = shown_name (text_within 160 s.display_name) base quote in
    if is_shown name || is_shown base || is_shown quote || is_shown base_name || is_shown quote_name
    then with_tokens s (record {
      chain = s.chain;
      dex = s.dex;
      pool = s.pool;
      base_token = none;
      quote_token = none;
      base_symbol = base;
      quote_symbol = quote;
      base_name = base_name;
      quote_name = quote_name;
      display_name = name;
      source = if is_blank s.source then codes "unknown" else lower (strip s.source);
      observed_at = s.observed_at;
    })
    else some none

unfoldable pub displays_of : List Snapshot → Option (List Display)
unfolding display_of
displays_of [] = some []
displays_of (s ∷ snapshots) = do
  shown ← display_of s
  rest ← displays_of snapshots
  some (elim shown [ none ↦ rest | some row ↦ row ∷ rest ])

abbrev pub same_pool : Display → Display → Bool
same_pool a b = text_eq a.chain b.chain && text_eq a.dex b.dex && text_eq a.pool b.pool

-- `DO UPDATE SET`
abbrev pub merged_display : Display → Display → Display
merged_display excluded row = record excluded {
  base_token = or_else excluded.base_token row.base_token;
  quote_token = or_else excluded.quote_token row.quote_token;
  base_symbol = or_else excluded.base_symbol row.base_symbol;
  quote_symbol = or_else excluded.quote_symbol row.quote_symbol;
  base_name = or_else excluded.base_name row.base_name;
  quote_name = or_else excluded.quote_name row.quote_name;
  display_name = or_else excluded.display_name row.display_name;
}

unfoldable pub upsert_display : Display → List Display → List Display
upsert_display row [] = row ∷ []
upsert_display row (x ∷ table) =
    let rest = upsert_display row table in
    if same_pool row x then merged_display row x ∷ table else x ∷ rest

unfoldable pub upsert_displays : List Display → List Display → List Display
unfolding upsert_display
upsert_displays [] table = table
upsert_displays (row ∷ rows) table = upsert_displays rows (upsert_display row table)

-- `persist_snapshot_display_metadata`: `none` is an invalid address of a token.
unfoldable pub persist_display : List Snapshot → List Display → Option (List Display)
unfolding displays_of upsert_displays
persist_display snapshots table = do rows ← displays_of snapshots; some (upsert_displays rows table)
