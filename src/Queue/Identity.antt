-- ===== src/Queue/Identity.antt =====
-- The identities of candidates: `normalize_token` and `identity_key` of
-- app/pipeline/candidate_queue.py, and the key that `mark_analyzed` builds.
use coinoskobi_dexbot.Common.{Option, none, some, [], ◌∷◌, ◌++◌, if◌then◌else◌, not, ◌&&◌}
use coinoskobi_dexbot.Common.Text.{Text, codes, lower, strip, starts_with}
use coinoskobi_dexbot.Common.{drop}
use coinoskobi_dexbot.Row.{Field, missing, null, given, Row, nonempty, truthy, text_or}

abbrev pub bsc : Text
bsc = codes "bsc"

abbrev pub bsc_prefix : Text
bsc_prefix = codes "bsc_"

-- The text with its first `bsc_` taken off.
unfoldable pub without_prefix : Text → Text
unfolding starts_with
without_prefix token = if starts_with token bsc_prefix then drop 4 token else token

-- `normalize_token`: None on a missing, null or empty value.
unfoldable pub normalize_token : Field Text → Option Text
unfolding without_prefix lower strip
normalize_token missing = none
normalize_token null = none
normalize_token (given []) = none
normalize_token (given (c ∷ s)) = some (without_prefix (lower (strip (c ∷ s))))

-- f"{chain}:pool:{pool}" and f"{chain}:token:{token}"
abbrev pub pool_identity : Text → Text → Text
pool_identity chain pool = chain ++ (codes ":pool:" ++ pool)

abbrev pub token_identity : Text → Text → Text
token_identity chain token = chain ++ (codes ":token:" ++ token)

-- `str(row.get("chain") or "bsc").strip().lower()`
unfoldable pub chain_of : Field Text → Text
unfolding lower strip
chain_of chain = lower (strip (text_or chain bsc))

-- The end of `identity_key` and of `mark_analyzed`: the pool names the candidate if there is one.
-- An f-string prints None as `None`.
abbrev pub text_of : Option Text → Text
text_of none = codes "None"
text_of (some s) = s

unfoldable pub identity_of : Text → Option Text → Option Text → Text
identity_of chain pool token =
    if truthy pool then pool_identity chain (text_of pool) else token_identity chain (text_of token)

-- `identity_key`
unfoldable pub identity_key : Row → Option Text
unfolding normalize_token chain_of identity_of
identity_key row =
    let pool = normalize_token row.pool in
    let token = normalize_token row.token in
    let chain = chain_of row.chain in
    if not (truthy token) && not (truthy pool)
    then none
    else some (identity_of (if nonempty chain then chain else bsc) pool token)
