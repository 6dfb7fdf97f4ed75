-- ===== src/Common/Dict.antt =====
-- A Python dict: an association list in insertion order, each key once.
use Prim.Native.Nat.{suc, ◌≤◌}
use mathlib.Core.List.{List, [], ◌∷◌}
use mathlib.Core.Logic.{◌≢◌}
use mathlib.Core.Option.{Option, none, some}
use mathlib.Core.Path.{◌≡◌, refl}
use native.Mathlib.Omega.{arith}
use coinoskobi_dexbot.Common.Tests.{Eq, ◌==◌, if◌then◌else◌}
use coinoskobi_dexbot.Common.Lists.{length}

abbrev pub Dict : Type 0 → Type 0 → Type 0
Dict K V = List (K × V)

module _ {K V : Type 0} ⦃e : Eq K⦄ where
  -- `d.get(k)`
  abbrev pub lookup : K → Dict K V → Option V
  lookup k [] = none
  lookup k ((j, v) ∷ d) = if k == j then some v else lookup k d

  -- `d.get(k, default)`
  abbrev pub get_or : K → V → Dict K V → V
  get_or k default d = elim (lookup k d) [ none ↦ default | some v ↦ v ]

  -- `d[k] = v`
  abbrev pub insert : K → V → Dict K V → Dict K V
  insert k v [] = (k, v) ∷ []
  insert k v (x ∷ d) = if k == x.0 then (k, v) ∷ d else x ∷ insert k v d

  -- `d.pop(k, None)`
  abbrev pub erase : K → Dict K V → Dict K V
  erase k [] = []
  erase k (x ∷ d) = if k == x.0 then d else x ∷ erase k d

  -- No key is listed twice.
  abbrev pub Unique : Dict K V → Type 0
  Unique [] = Unit
  Unique ((k, v) ∷ d) = (lookup k d ≡ none) × Unique d

  pub lookup-insert :
      (j k : K) (v : V) (d : Dict K V)
      → lookup j (insert k v d) ≡ (if j == k then some v else lookup j d)
  lookup-insert j k v [] = refl
  lookup-insert j k v (x ∷ d) =
      ground (arith, lookup-insert j k v d, e.equal_iff j k, e.equal_iff k x.0, e.equal_iff j x.0)

  pub lookup-insert_self : (k : K) (v : V) (d : Dict K V) → lookup k (insert k v d) ≡ some v
  lookup-insert_self k v d = ground (arith, lookup-insert k k v d, e.equal_iff k k)

  pub lookup-erase_ne : (j k : K) (d : Dict K V) → j ≢ k → lookup j (erase k d) ≡ lookup j d
  lookup-erase_ne j k [] h = refl
  lookup-erase_ne j k (x ∷ d) h =
      ground (arith, lookup-erase_ne j k d h, e.equal_iff k x.0, e.equal_iff j x.0)

  pub lookup-erase_self : (k : K) (d : Dict K V) → Unique d → lookup k (erase k d) ≡ none
  lookup-erase_self k [] u = refl
  lookup-erase_self k (x ∷ d) u = ground (arith, lookup-erase_self k d u.1, e.equal_iff k x.0)

  pub insert-Unique : (k : K) (v : V) (d : Dict K V) → Unique d → Unique (insert k v d)
  insert-Unique k v [] u = (refl, tt)
  insert-Unique k v (x ∷ d) u = ground (
    arith,
    insert-Unique k v d u.1,
    lookup-insert x.0 k v d,
    e.equal_iff k x.0,
    e.equal_iff x.0 k,
  )

  pub lookup-erase-none : (j k : K) (d : Dict K V) → lookup j d ≡ none → lookup j (erase k d) ≡ none
  lookup-erase-none j k [] h = refl
  lookup-erase-none j k (x ∷ d) h = ground (arith, lookup-erase-none j k d)

  pub erase-Unique : (k : K) (d : Dict K V) → Unique d → Unique (erase k d)
  erase-Unique k [] u = tt
  erase-Unique k (x ∷ d) u = ground (arith, erase-Unique k d u.1, lookup-erase-none x.0 k d)

  pub length-insert_new :
      (k : K) (v : V) (d : Dict K V) → lookup k d ≡ none → length (insert k v d) ≡ suc (length d)
  length-insert_new k v [] h = refl
  length-insert_new k v (x ∷ d) h = ground (arith, length-insert_new k v d)

  pub length-insert_old :
      (k : K) (v w : V) (d : Dict K V) → lookup k d ≡ some w → length (insert k v d) ≡ length d
  length-insert_old k v w [] h = cc
  length-insert_old k v w (x ∷ d) h = ground (arith, length-insert_old k v w d)

  pub length-erase :
      (k : K) (w : V) (d : Dict K V) → lookup k d ≡ some w → suc (length (erase k d)) ≡ length d
  length-erase k w [] h = cc
  length-erase k w (x ∷ d) h = ground (arith, length-erase k w d)

  pub length-erase-le : (k : K) (d : Dict K V) → length (erase k d) ≤ length d
  length-erase-le k [] = omega arith
  length-erase-le k (x ∷ d) = ground (arith, length-erase-le k d)

  pub get_or-some : (k : K) (w v : V) (d : Dict K V) → lookup k d ≡ some v → get_or k w d ≡ v
  get_or-some k w v d h = ground arith

  pub get_or-none : (k : K) (w : V) (d : Dict K V) → lookup k d ≡ none → get_or k w d ≡ w
  get_or-none k w d h = ground arith
