-- ===== src/Universe/Tables.antt =====
-- What a call of `ingest` of app/universe/registry.py leaves of the tables.
use coinoskobi_dexbot.Common.{
  ℕ, Bool, true, ◌≡◌, refl, sym, ◌∙◌, ap, ◌⊎◌, inl, inr, Option, none, some, List, [], ◌∷◌, length,
  All, In, In-append_left, if_cases, Bool-cases, Option-cases,
}
use coinoskobi_dexbot.Universe.Registry.{Pool, exists, update_where}
use coinoskobi_dexbot.Universe.Resting.{key_of, Registered}
use coinoskobi_dexbot.Universe.Ingest.{
  Discovered, CheckpointRow, Universe, merged, upsert, upsert_all, with_checkpoint, normalize_pools,
  ingest,
}
use coinoskobi_dexbot.Universe.Ingesting.{IsKeyed, upsert-IsKeyed, upsert_keeps, upsert_self}
use coinoskobi_dexbot.Universe.Checkpoints.{IsOrdered, with_checkpoint-IsOrdered}

-- A row under the same key with what a discovery does not decide.
pub record IsKept (rows : List Pool) (r : Pool) : Type 0 where
  pub row : Pool
  pub inside : In row rows
  pub chain_eq : row.chain ≡ r.chain
  pub dex_eq : row.dex ≡ r.dex
  pub pool_eq : row.pool ≡ r.pool
  pub state_eq : row.market_state ≡ r.market_state
  pub branch_eq : row.discovery_branch ≡ r.discovery_branch
  pub block_eq : row.creation_block ≡ r.creation_block
  pub snapshot_eq : row.latest_snapshot_at ≡ r.latest_snapshot_at

itself : {rows : List Pool} (q : Pool) → In q rows → IsKept rows q
itself q m = record {
  row = q;
  inside = m;
  chain_eq = refl;
  dex_eq = refl;
  pool_eq = refl;
  state_eq = refl;
  branch_eq = refl;
  block_eq = refl;
  snapshot_eq = refl;
}

through :
    {rows rows' : List Pool} {r : Pool} (v : IsKept rows r) → IsKept rows' v.row → IsKept rows' r
through v w = record {
  row = w.row;
  inside = w.inside;
  chain_eq = w.chain_eq ∙ v.chain_eq;
  dex_eq = w.dex_eq ∙ v.dex_eq;
  pool_eq = w.pool_eq ∙ v.pool_eq;
  state_eq = w.state_eq ∙ v.state_eq;
  branch_eq = w.branch_eq ∙ v.branch_eq;
  block_eq = w.block_eq ∙ v.block_eq;
  snapshot_eq = w.snapshot_eq ∙ v.snapshot_eq;
}

update-IsKept :
    (row : Pool) (p : Pool → Bool) (pools : List Pool) (q : Pool)
    → In q pools
    → IsKept (update_where p (merged row) pools) q
unfolding update_where
update-IsKept row p [] q m = absurd m
update-IsKept row p (x ∷ pools) q (inr m) =
    let v = update-IsKept row p pools q m in through v (itself v.row (inr v.inside))
update-IsKept row p (x ∷ pools) q (inl e) = elim (Bool-cases (p x)) [
  | inl hit ↦ record {
    row = merged row x;
    inside = inl (rw hit refl);
    chain_eq = ap (λ (r : Pool). r.chain) (sym e);
    dex_eq = ap (λ (r : Pool). r.dex) (sym e);
    pool_eq = ap (λ (r : Pool). r.pool) (sym e);
    state_eq = ap (λ (r : Pool). r.market_state) (sym e);
    branch_eq = ap (λ (r : Pool). r.discovery_branch) (sym e);
    block_eq = ap (λ (r : Pool). r.creation_block) (sym e);
    snapshot_eq = ap (λ (r : Pool). r.latest_snapshot_at) (sym e);
  }
  | inr miss ↦ itself q (inl (rw miss e))
]

upsert-IsKept :
    (row : Pool) (pools : List Pool) (r : Pool) → IsKept pools r → IsKept (upsert row pools) r
unfolding upsert
upsert-IsKept row pools r v = through v (
    if_cases (λ (rows : List Pool). IsKept rows v.row) (exists (key_of row) pools)
      (λ _. update-IsKept row (key_of row) pools v.row v.inside)
      (λ _. itself v.row (In-append_left v.row pools (row ∷ []) v.inside)))

all-IsKept : (rows pools : List Pool) (r : Pool) → IsKept pools r → IsKept (upsert_all rows pools) r
unfolding upsert_all
all-IsKept [] pools r v = v
all-IsKept (row ∷ rows) pools r v =
    all-IsKept rows (upsert row pools) r (upsert-IsKept row pools r v)

all-IsKeyed : (rows pools : List Pool) → IsKeyed pools → IsKeyed (upsert_all rows pools)
unfolding upsert_all
all-IsKeyed [] pools a = a
all-IsKeyed (row ∷ rows) pools a = all-IsKeyed rows (upsert row pools) (upsert-IsKeyed row pools a)

all_keep :
    (q : Pool) (rows pools : List Pool)
    → exists (key_of q) pools ≡ true
    → exists (key_of q) (upsert_all rows pools) ≡ true
unfolding upsert_all
all_keep q [] pools a = a
all_keep q (row ∷ rows) pools a = all_keep q rows (upsert row pools) (upsert_keeps q row pools a)

all-Registered : (rows pools : List Pool) → Registered rows (upsert_all rows pools)
unfolding upsert_all
all-Registered [] pools = tt
all-Registered (row ∷ rows) pools = (
  all_keep row rows (upsert row pools) (upsert_self row pools),
  all-Registered rows (upsert row pools),
)

-- The invariant of the tables.
abbrev pub IsSound : Universe → Type 0
IsSound u = IsKeyed u.pools × All IsOrdered u.checkpoints

-- What a call does: nothing, or all that it is to do.
abbrev pub IsIngested :
    List Discovered → Option CheckpointRow → Universe → Universe → Option ℕ → Type 0
IsIngested found checkpoint u u' result =
    (((normalize_pools found ≡ none) ⊎ (with_checkpoint checkpoint u.checkpoints ≡ none))
      × (result ≡ none)
      × (u' ≡ u))
    ⊎ ((rows : List Pool) × (normalize_pools found ≡ some rows)
        × (with_checkpoint checkpoint u.checkpoints ≡ some u'.checkpoints)
        × (result ≡ some (length rows))
        × Registered rows u'.pools
        × ((r : Pool) → In r u.pools → IsKept u'.pools r))

-- In tables with one row for a key and no checkpoint with a finalized block beyond the scanned one,
-- a call of `ingest` either fails, since a pool or the checkpoint is not valid, and changes nothing,
-- or registers every pool of the discovery, writes the checkpoint, and keeps the state, the branch,
-- the block and the snapshot of every row that was there; in both cases the tables stay as they are
-- to be.
pub ingest_lem :
    (found : List Discovered) (checkpoint : Option CheckpointRow) (u : Universe)
    → IsSound u
    → let (u', result) = ingest found checkpoint u in
      IsSound u' × IsIngested found checkpoint u u' result
unfolding ingest
ingest_lem found checkpoint u (keyed, ordered) = elim (Option-cases (normalize_pools found)) [
  | inl bad ↦ rw (ingest, bad) ((keyed, ordered), inl (inl refl, refl, refl))
  | inr (rows, good) ↦ elim (Option-cases (with_checkpoint checkpoint u.checkpoints)) [
    | inl bad ↦ rw (ingest, good, bad) ((keyed, ordered), inl (inr refl, refl, refl))
    | inr (cs, valid) ↦
        rw (ingest, good, valid)
          (
            (
              all-IsKeyed rows u.pools keyed,
              with_checkpoint-IsOrdered checkpoint u.checkpoints cs ordered valid,
            ),
            inr (
              rows,
              refl,
              refl,
              refl,
              all-Registered rows u.pools,
              λ r m. all-IsKept rows u.pools r (itself r m),
            ),
          )
  ]
]
