-- ===== src/Queue/Cooldown.antt =====
-- The cooldown table of app/pipeline/candidate_queue.py: what `_prune_cooldowns` removes.
use coinoskobi_dexbot.Common.{
  ℕ, zero, suc, ◌+◌, ◌-◌, ◌≤◌, ◌<◌, false, ◌≡◌, ◌≢◌, refl, sym, ◌∙◌, ◌⊎◌, inl, inr, none, some,
  List, [], ◌∷◌, arith, if◌then◌else◌, In, length, take, length-take, Bool-cases, Option-cases, ltb,
  leb, ltb→lt, leb→le, le→leb, min,
}
use mathlib.Core.Path.{subst}
use coinoskobi_dexbot.Common.Dict.{
  Dict, lookup, erase, Unique, lookup-erase_ne, lookup-erase_self, lookup-erase-none, erase-Unique,
  length-erase,
}
use coinoskobi_dexbot.Common.Text.{Text, text_eq, text_eq_iff, text_Eq}
use coinoskobi_dexbot.Queue.Defs.{
  expired_at, pop_all, insort, sort_by_until, keys, victims, evict_overflow,
}

abbrev Table : Type 0
Table = Dict Text ℕ

pub pop_all-Unique : (ks : List Text) (d : Table) → Unique d → Unique (pop_all ks d)
unfolding pop_all
pop_all-Unique [] d u = u
pop_all-Unique (k ∷ ks) d u = pop_all-Unique ks (erase k d) (erase-Unique k d u)

pub lookup-pop_all-none :
    (ks : List Text) (j : Text) (d : Table) → lookup j d ≡ none → lookup j (pop_all ks d) ≡ none
unfolding pop_all
lookup-pop_all-none [] j d h = h
lookup-pop_all-none (k ∷ ks) j d h =
    lookup-pop_all-none ks j (erase k d) (lookup-erase-none j k d h)

-- A key that is not listed keeps its value.
pub lookup-pop_all_ne :
    (ks : List Text) (j : Text) (d : Table)
    → ((k : Text) → In k ks → j ≢ k)
    → lookup j (pop_all ks d) ≡ lookup j d
unfolding pop_all
lookup-pop_all_ne [] j d n = refl
lookup-pop_all_ne (k ∷ ks) j d n =
    lookup-pop_all_ne ks j (erase k d) (λ k' m. n k' (inr m))
    ∙ lookup-erase_ne j k d (n k (inl refl))

pub lookup-pop_all-In :
    (ks : List Text) (j : Text) (d : Table) → Unique d → In j ks → lookup j (pop_all ks d) ≡ none
unfolding pop_all
lookup-pop_all-In [] j d u m = absurd m
lookup-pop_all-In (k ∷ ks) j d u (inl e) =
    lookup-pop_all-none ks j (erase k d) (rw e (lookup-erase_self k d u))
lookup-pop_all-In (k ∷ ks) j d u (inr m) = lookup-pop_all-In ks j (erase k d) (erase-Unique k d u) m

-- Keys that are all there, each listed once, are all removed: the length falls by their number.
pub length-pop_all :
    (vs d : Table)
    → Unique vs
    → ((j : Text) → lookup j vs ≢ none → lookup j d ≢ none)
    → length (pop_all (keys vs) d) + length vs ≡ length d
unfolding pop_all
length-pop_all [] d u there = omega arith
length-pop_all ((k, v) ∷ vs) d u there =
    let found : lookup k d ≢ none = there k (λ p. ground (arith, text_eq_iff k k)) in
    let rest : length (pop_all (keys vs) (erase k d)) + length vs ≡ length (erase k d) =
      length-pop_all vs (erase k d) u.1 (λ j p q.
        let n : j ≢ k = λ e. p (rw e u.0) in
        there j (λ r. ground (arith, text_eq_iff j k)) (sym (lookup-erase_ne j k d n) ∙ q)) in
    elim (Option-cases (lookup k d)) [
      | inl e ↦ absurd (found e)
      | inr (w, e) ↦ omega (arith, rest, length-erase k w d e)
    ]

pub lookup-insort :
    (j k : Text) (v : ℕ) (d : Table)
    → lookup k d ≡ none
    → lookup j (insort (k, v) d) ≡ lookup j ((k, v) ∷ d)
unfolding insort
lookup-insort j k v [] h = refl
lookup-insort j k v ((i, w) ∷ d) h =
    ground (arith, lookup-insort j k v d, text_eq_iff j k, text_eq_iff j i, text_eq_iff k i)

insort-Unique :
    (k : Text) (v : ℕ) (d : Table) → Unique d → lookup k d ≡ none → Unique (insort (k, v) d)
unfolding insort
insort-Unique k v [] u h = (refl, tt)
insort-Unique k v ((i, w) ∷ d) u h =
    ground (arith, insort-Unique k v d u.1, lookup-insort i k v d, text_eq_iff i k, text_eq_iff k i)

pub lookup-sort : (j : Text) (d : Table) → Unique d → lookup j (sort_by_until d) ≡ lookup j d
unfolding sort_by_until
lookup-sort j [] u = refl
lookup-sort j ((k, v) ∷ d) u =
    ground (arith, lookup-insort j k v (sort_by_until d), lookup-sort j d u.1, lookup-sort k d u.1)

pub sort-Unique : (d : Table) → Unique d → Unique (sort_by_until d)
unfolding sort_by_until
sort-Unique [] u = tt
sort-Unique ((k, v) ∷ d) u =
    insort-Unique k v (sort_by_until d) (sort-Unique d u.1) (lookup-sort k d u.1 ∙ u.0)

length-insort : (x : Text × ℕ) (d : Table) → length (insort x d) ≡ suc (length d)
unfolding insort
length-insort x [] = refl
length-insort x (y ∷ d) = ground (arith, length-insort x d)

pub length-sort : (d : Table) → length (sort_by_until d) ≡ length d
unfolding sort_by_until
length-sort [] = refl
length-sort (x ∷ d) = omega (arith, length-insort x (sort_by_until d), length-sort d)

lookup-take-none : (n : ℕ) (j : Text) (d : Table) → lookup j d ≡ none → lookup j (take n d) ≡ none
lookup-take-none zero j d h = refl
lookup-take-none (suc n) j [] h = refl
lookup-take-none (suc n) j (x ∷ d) h = ground (arith, lookup-take-none n j d)

take-Unique : (n : ℕ) (d : Table) → Unique d → Unique (take n d)
take-Unique zero d u = tt
take-Unique (suc n) [] u = tt
take-Unique (suc n) ((k, v) ∷ d) u = (lookup-take-none n k d u.0, take-Unique n d u.1)

pub victims-Unique : (limit : ℕ) (d : Table) → Unique d → Unique (victims limit d)
unfolding victims
victims-Unique limit d u = take-Unique (length d - limit) (sort_by_until d) (sort-Unique d u)

pub length-victims : (limit : ℕ) (d : Table) → length (victims limit d) ≡ length d - limit
unfolding victims
length-victims limit d =
    omega (arith, length-take (length d - limit) (sort_by_until d), length-sort d)

victims_there :
    (limit : ℕ) (d : Table) (j : Text)
    → Unique d
    → lookup j (victims limit d) ≢ none
    → lookup j d ≢ none
unfolding victims
victims_there limit d j u n e =
    n (lookup-take-none (length d - limit) j (sort_by_until d) (lookup-sort j d u ∙ e))

-- After the eviction the table is within its limit; as many entries are gone as were over it.
pub length-evict :
    (limit : ℕ) (d : Table) → Unique d → length (evict_overflow limit d).1 ≡ min limit (length d)
unfolding evict_overflow
length-evict limit d u = elim (Bool-cases (ltb limit (length d))) [
  | inl over ↦
      let lt : limit < length d = ltb→lt limit (length d) over in
      rw over (
        omega (
          arith,
          length-pop_all (victims limit d) d (victims-Unique limit d u)
              (λ j. victims_there limit d j u),
          length-victims limit d,
        ))
  | inr within ↦ rw within (ground arith)
]

pub evict-Unique : (limit : ℕ) (d : Table) → Unique d → Unique (evict_overflow limit d).1
unfolding evict_overflow
evict-Unique limit d u = elim (Bool-cases (ltb limit (length d))) [
  | inl over ↦ rw over (pop_all-Unique (keys (victims limit d)) d u)
  | inr within ↦ rw within u
]

-- Eviction removes and never changes or adds.
pub evict_keeps :
    (limit : ℕ) (d : Table) (j : Text)
    → lookup j d ≡ none
    → lookup j (evict_overflow limit d).1 ≡ none
unfolding evict_overflow
evict_keeps limit d j h = elim (Bool-cases (ltb limit (length d))) [
  | inl over ↦ rw over (lookup-pop_all-none (keys (victims limit d)) j d h)
  | inr within ↦ rw within h
]

expired_head :
    (now : ℕ) (j : Text) (w : ℕ) (d : Table) (k : Text)
    → In k (expired_at now ((j, w) ∷ d))
    → ((k ≡ j) × (w ≤ now)) ⊎ In k (expired_at now d)
unfolding expired_at
expired_head now j w d k m = elim (Bool-cases (leb w now)) [
  | inl le ↦
      let m' : (k ≡ j) ⊎ In k (expired_at now d) =
        subst (λ b. In k (if b then j ∷ expired_at now d else expired_at now d)) le m in
      elim m' [ inl e ↦ inl (e, leb→le w now le) | inr r ↦ inr r ]
  | inr gt ↦ inr (subst (λ b. In k (if b then j ∷ expired_at now d else expired_at now d)) gt m)
]

-- The listed identities are those whose time has come.
pub expired_le :
    (now : ℕ) (d : Table) (k : Text)
    → Unique d
    → In k (expired_at now d)
    → (u : ℕ) × (lookup k d ≡ some u) × (u ≤ now)
unfolding expired_at
expired_le now [] k u m = absurd m
expired_le now ((j, w) ∷ d) k u m = elim (expired_head now j w d k m) [
  | inl here ↦ (w, rw ((text_eq_iff k j).1 here.0), here.1)
  | inr there ↦
      let (v, p, le) = expired_le now d k u.1 there in
      let n : text_eq k j ≡ false = ground (arith, text_eq_iff k j) in (v, rw n p, le)
]

In-expired :
    (now : ℕ) (d : Table) (k : Text) (v : ℕ)
    → lookup k d ≡ some v
    → v ≤ now
    → In k (expired_at now d)
unfolding expired_at
In-expired now [] k v p le = cc
In-expired now ((j, w) ∷ d) k v p le = elim (Bool-cases (text_eq k j)) [
  | inl same ↦
      let q : w ≡ v = ground arith in rw (le→leb w now (rw q le)) (inl ((text_eq_iff k j).0 same))
  | inr other ↦
      let rest : In k (expired_at now d) = In-expired now d k v (ground arith) le in
      elim (Bool-cases (leb w now)) [ inl e ↦ rw e (inr rest) | inr e ↦ rw e rest ]
]

-- Popping the expired identities keeps a cooldown that is still running.
pub running_kept :
    (now : ℕ) (d : Table) (k : Text) (v : ℕ)
    → Unique d
    → lookup k d ≡ some v
    → now < v
    → lookup k (pop_all (expired_at now d) d) ≡ some v
running_kept now d k v u p lt =
    lookup-pop_all_ne (expired_at now d) k d (λ j m e.
      let (w, q, le) = expired_le now d j u m in
      let q' : lookup k d ≡ some w = rw e q in absurd (ground arith))
    ∙ p

-- What is left was there, and is still running.
pub kept_running :
    (now : ℕ) (d : Table) (k : Text) (v : ℕ)
    → Unique d
    → lookup k (pop_all (expired_at now d) d) ≡ some v
    → (now < v) × (lookup k d ≡ some v)
kept_running now d k v u p = elim (Option-cases (lookup k d)) [
  | inl absent ↦ absurd (ground (arith, lookup-pop_all-none (expired_at now d) k d absent))
  | inr (w, q) ↦ elim (Bool-cases (leb w now)) [
    | inl le ↦
        let m : In k (expired_at now d) = In-expired now d k w q (leb→le w now le) in
        absurd (ground (arith, lookup-pop_all-In (expired_at now d) k d u m))
    | inr gt ↦
        let r = running_kept now d k w u q (ground arith) in
        let e : w ≡ v = ground arith in (ground arith, ground arith)
  ]
]
