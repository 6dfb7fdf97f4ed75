-- ===== src/Universe/Checkpoints.antt =====
-- The checkpoints that `_write_checkpoint` of app/universe/registry.py writes.
use coinoskobi_dexbot.Common.{
  ℕ, ◌≤◌, ◌≡◌, refl, sym, ◌∙◌, ap, inl, inr, Option, none, some, List, [], ◌∷◌, if◌then◌else◌,
  length, All, arith, if_cases, Option-cases, some_eq, leb, nat_eq,
}
use mathlib.Core.Option
use mathlib.Core.Path.{subst}
use coinoskobi_dexbot.Common.Text.{upper, strip}
use coinoskobi_dexbot.Universe.Schema.{
  canonical_chain, canonical_dex, canonical_address, canonical_discovery_branch,
}
use coinoskobi_dexbot.Universe.Ingest.{
  CheckpointRow, Checkpoint, ◌>>=◌, non_negative, same_checkpoint, write_checkpoint, checkpoint_of,
  with_checkpoint,
}

-- No block is finalized that is not scanned.
abbrev pub IsOrdered : Checkpoint → Type 0
IsOrdered c = c.last_finalized_block ≤ c.last_scanned_block

write_checkpoint-IsOrdered :
    (c : Checkpoint) (cs : List Checkpoint)
    → IsOrdered c
    → All IsOrdered cs
    → All IsOrdered (write_checkpoint c cs)
unfolding write_checkpoint
write_checkpoint-IsOrdered c [] h a = (h, tt)
write_checkpoint-IsOrdered c (x ∷ cs) h a =
    if_cases (All IsOrdered) (same_checkpoint c x) (λ _. (h, a.1))
      (λ _. (a.0, write_checkpoint-IsOrdered c cs h a.1))

-- What holds of all that the rest of a computation gives holds of what the whole gives.
bind_lem :
    {A B : Type 0} (Q : B → Type 0) (o : Option A) {f : A → Option B}
    → ((a : A) → o ≡ some a → (b : B) → f a ≡ some b → Q b)
    → (b : B) → (o >>= f) ≡ some b
    → Q b
bind_lem Q none h b e = cc
bind_lem Q (some a) h b e = h a refl b e

guarded_le :
    (finalized scanned ordered : ℕ)
    → (if leb finalized scanned then some finalized else none) ≡ some ordered
    → ordered ≤ scanned
guarded_le finalized scanned ordered =
    if_cases (λ (o : Option ℕ). o ≡ some ordered → ordered ≤ scanned) (leb finalized scanned)
      (λ e h. ground (arith, e, some_eq h)) (λ _ h. cc)

checkpoint_of-IsOrdered :
    (row : CheckpointRow) (c : Checkpoint) → checkpoint_of row ≡ some c → IsOrdered c
unfolding checkpoint_of
checkpoint_of-IsOrdered row = bind_lem IsOrdered (non_negative row.last_scanned_block) λ scanned _.
    bind_lem IsOrdered (non_negative row.last_finalized_block) λ finalized _.
      bind_lem IsOrdered (if leb finalized scanned then some finalized else none) λ ordered guard.
        bind_lem IsOrdered (canonical_chain row.chain) λ _ _.
          bind_lem IsOrdered (canonical_dex row.dex) λ _ _.
            bind_lem IsOrdered (canonical_address row.factory) λ _ _.
              bind_lem IsOrdered (canonical_discovery_branch row.discovery_branch) λ _ _.
                bind_lem IsOrdered
                  (if nat_eq (length (upper (strip row.event_kind))) 0
                    then none
                    else some (upper (strip row.event_kind)))
                  λ kind _ c e.
                    subst IsOrdered (some_eq e) (guarded_le finalized scanned ordered guard)

pub with_checkpoint-IsOrdered :
    (checkpoint : Option CheckpointRow) (cs cs' : List Checkpoint)
    → All IsOrdered cs
    → with_checkpoint checkpoint cs ≡ some cs'
    → All IsOrdered cs'
unfolding with_checkpoint
with_checkpoint-IsOrdered none cs cs' a e = rw (sym (some_eq e)) a
with_checkpoint-IsOrdered (some row) cs cs' a e = elim (Option-cases (checkpoint_of row)) [
  | inl refused ↦ absurd cc
  | inr (c, valid) ↦
      let same : write_checkpoint c cs ≡ cs' =
        some_eq (sym (ap (λ o. Option.map (λ c. write_checkpoint c cs) o) valid) ∙ e) in
      rw (sym same) (write_checkpoint-IsOrdered c cs (checkpoint_of-IsOrdered row c valid) a)
]
