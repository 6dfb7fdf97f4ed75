-- ===== src/Universe/Ingesting.antt =====
-- What `ingest` of app/universe/registry.py does to the tables.
use coinoskobi_dexbot.Common.{
  Bool, true, false, ◌||◌, ◌≡◌, refl, ◌∙◌, inl, inr, List, [], ◌∷◌, ◌++◌, arith, if_cases,
  Bool-cases,
}
use coinoskobi_dexbot.Common.Text.{text_eq_iff}
use coinoskobi_dexbot.Universe.Registry.{Pool, is_at, exists, update_where}
use coinoskobi_dexbot.Universe.Resting.{key_of}
use coinoskobi_dexbot.Universe.Ingest.{merged, upsert}

-- `PRIMARY KEY(chain, dex, pool)`
abbrev pub IsKeyed : List Pool → Type 0
IsKeyed [] = Unit
IsKeyed (row ∷ rows) = (exists (key_of row) rows ≡ false) × IsKeyed rows

exists-merged :
    (q row : Pool) (p : Pool → Bool) (pools : List Pool)
    → exists (key_of q) (update_where p (merged row) pools) ≡ exists (key_of q) pools
unfolding exists update_where is_at
exists-merged q row p [] = refl
exists-merged q row p (x ∷ pools) = elim (Bool-cases (p x)) [
  | inl hit ↦ rw (hit, exists-merged q row p pools) refl
  | inr miss ↦ rw (miss, exists-merged q row p pools) refl
]

exists-append :
    (p : Pool → Bool) (pools : List Pool) (row : Pool)
    → exists p (pools ++ (row ∷ [])) ≡ (exists p pools || p row)
unfolding exists
exists-append p [] row = ground arith
exists-append p (x ∷ pools) row = ground (arith, exists-append p pools row)

key_sym : (q r : Pool) → key_of q r ≡ key_of r q
unfolding is_at
key_sym q r = ground (
  arith,
  text_eq_iff q.chain r.chain,
  text_eq_iff r.chain q.chain,
  text_eq_iff q.dex r.dex,
  text_eq_iff r.dex q.dex,
  text_eq_iff q.pool r.pool,
  text_eq_iff r.pool q.pool,
)

key_refl : (r : Pool) → key_of r r ≡ true
unfolding is_at
key_refl r =
    ground (arith, text_eq_iff r.chain r.chain, text_eq_iff r.dex r.dex, text_eq_iff r.pool r.pool)

merged-IsKeyed :
    (row : Pool) (p : Pool → Bool) (pools : List Pool)
    → IsKeyed pools
    → IsKeyed (update_where p (merged row) pools)
unfolding update_where is_at
merged-IsKeyed row p [] a = tt
merged-IsKeyed row p (x ∷ pools) a = elim (Bool-cases (p x)) [
  | inl hit ↦ rw hit (exists-merged x row p pools ∙ a.0, merged-IsKeyed row p pools a.1)
  | inr miss ↦ rw miss (exists-merged x row p pools ∙ a.0, merged-IsKeyed row p pools a.1)
]

append-IsKeyed :
    (row : Pool) (pools : List Pool)
    → exists (key_of row) pools ≡ false
    → IsKeyed pools
    → IsKeyed (pools ++ (row ∷ []))
unfolding exists
append-IsKeyed row [] e a = (refl, tt)
append-IsKeyed row (x ∷ pools) e a = (
  exists-append (key_of x) pools row ∙ ground (arith, e, a.0, key_sym x row),
  append-IsKeyed row pools (ground (arith, e)) a.1,
)

pub upsert-IsKeyed : (row : Pool) (pools : List Pool) → IsKeyed pools → IsKeyed (upsert row pools)
unfolding upsert
upsert-IsKeyed row pools a =
    if_cases IsKeyed (exists (key_of row) pools) (λ _. merged-IsKeyed row (key_of row) pools a)
      (λ e. append-IsKeyed row pools e a)

-- What is registered stays so, and the row itself is.
pub upsert_keeps :
    (q row : Pool) (pools : List Pool)
    → exists (key_of q) pools ≡ true
    → exists (key_of q) (upsert row pools) ≡ true
unfolding upsert
upsert_keeps q row pools a =
    if_cases (λ (rows : List Pool). exists (key_of q) rows ≡ true) (exists (key_of row) pools)
      (λ _. exists-merged q row (key_of row) pools ∙ a)
      (λ _. exists-append (key_of q) pools row ∙ rw a refl)

pub upsert_self : (row : Pool) (pools : List Pool) → exists (key_of row) (upsert row pools) ≡ true
unfolding upsert
upsert_self row pools =
    if_cases (λ (rows : List Pool). exists (key_of row) rows ≡ true) (exists (key_of row) pools)
      (λ e. exists-merged row row (key_of row) pools ∙ e)
      (λ e. exists-append (key_of row) pools row ∙ rw (e, key_refl row) refl)
