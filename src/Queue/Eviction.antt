-- ===== src/Queue/Eviction.antt =====
-- Which cooldowns `_prune_cooldowns` of app/pipeline/candidate_queue.py evicts when all of a table
-- that is too large are still running.
use coinoskobi_dexbot.Common.{
  ℕ, zero, suc, ◌≤◌, ◌<◌, not, ◌&&◌, nat_eq, ◌-◌, Bool, false, ◌≡◌, refl, sym, ap, ◌∙◌, ◌⊎◌, inl,
  inr, none, some, List, [], ◌∷◌, length, take, ltb, leb, arith, Bool-cases, In, if_cases,
}
use mathlib.Core.Path.{subst}
use coinoskobi_dexbot.Common.Dict.{Dict, lookup, Unique}
use coinoskobi_dexbot.Common.Text.{Text, text_eq, text_eq_iff, text_Eq}
use coinoskobi_dexbot.Queue.Defs.{
  Queue, expired_at, max_cooldown_entries, prune_cooldowns, keys, insort, sort_by_until, victims,
  evict_overflow, pop_all,
}
use coinoskobi_dexbot.Queue.Invariant.{IsValid}
use coinoskobi_dexbot.Queue.Cooldown.{
  running_kept, kept_running, pop_all-Unique, lookup-pop_all_ne, lookup-pop_all-In, lookup-insort,
  lookup-sort,
}

-- Sorted by the time at which the cooldown is over.
abbrev IsByUntil : Dict Text ℕ → Type 0
IsByUntil [] = Unit
IsByUntil ((k, w) ∷ d) = ((j : Text) (v : ℕ) → lookup j d ≡ some v → w ≤ v) × IsByUntil d

insort-IsByUntil :
    (k : Text) (w : ℕ) (d : Dict Text ℕ)
    → lookup k d ≡ none
    → IsByUntil d
    → IsByUntil (insort (k, w) d)
unfolding insort
insort-IsByUntil k w [] n s = ((λ j v p. cc), tt)
insort-IsByUntil k w ((i, u) ∷ d) n s = elim (Bool-cases (leb w u)) [
  | inl le ↦ rw le (
    (λ j v p. elim (Bool-cases (text_eq j i)) [
      | inl same ↦ ground arith
      | inr other ↦ ground (arith, s.0 j v)
    ]),
    s,
  )
  | inr gt ↦
      let rest : lookup k d ≡ none = ground arith in
      rw gt (
        (λ j v p.
            let q : lookup j ((k, w) ∷ d) ≡ some v = sym (lookup-insort j k w d rest) ∙ p in
            elim (Bool-cases (text_eq j k)) [
              | inl same ↦ ground arith
              | inr other ↦ ground (arith, s.0 j v)
            ]),
        insort-IsByUntil k w d rest s.1,
      )
]

sort-IsByUntil : (d : Dict Text ℕ) → Unique d → IsByUntil (sort_by_until d)
unfolding sort_by_until
sort-IsByUntil [] u = tt
sort-IsByUntil ((k, w) ∷ d) u =
    insort-IsByUntil k w (sort_by_until d) (lookup-sort k d u.1 ∙ u.0) (sort-IsByUntil d u.1)

-- What is taken from the front of a sorted table ends no later than what is left.
front_earlier :
    (n : ℕ) (d : Dict Text ℕ) (k j : Text) (u v : ℕ)
    → IsByUntil d
    → In k (keys (take n d))
    → lookup k d ≡ some u
    → (In j (keys (take n d)) → ⊥)
    → lookup j d ≡ some v
    → u ≤ v
front_earlier zero d k j u v s m p out q = absurd m
front_earlier (suc n) [] k j u v s m p out q = absurd m
front_earlier (suc n) ((i, w) ∷ d) k j u v s m p out q =
    let other : text_eq j i ≡ false = elim (Bool-cases (text_eq j i)) [
      | inl same ↦ absurd (out (inl ((text_eq_iff j i).0 same)))
      | inr e ↦ e
    ] in
    let later : lookup j d ≡ some v = ground arith in
    elim (Bool-cases (text_eq k i)) [
      | inl first ↦ ground (arith, s.0 j v later)
      | inr behind ↦
          let m' : In k (keys (take n d)) = elim m [
            | inl e ↦ absurd (let c = sym behind ∙ (text_eq_iff k i).1 e in cc)
            | inr r ↦ r
          ] in
          front_earlier n d k j u v s.1 m' (ground arith) (λ r. out (inr r)) later
    ]

In-or : (k : Text) (xs : List Text) → In k xs ⊎ (In k xs → ⊥)
In-or k [] = inr (λ m. m)
In-or k (x ∷ xs) = elim (Bool-cases (text_eq k x)) [
  | inl same ↦ inl (inl ((text_eq_iff k x).0 same))
  | inr other ↦ elim (In-or k xs) [
    | inl m ↦ inl (inr m)
    | inr n ↦ inr (λ m. elim m [
      | inl e ↦ let c = sym other ∙ (text_eq_iff k x).1 e in absurd cc
      | inr r ↦ n r
    ])
  ]
]

evict_earliest :
    (limit : ℕ) (d : Dict Text ℕ) (k j : Text) (u v : ℕ)
    → Unique d
    → lookup k d ≡ some u
    → lookup k (evict_overflow limit d).1 ≡ none
    → lookup j (evict_overflow limit d).1 ≡ some v
    → (u ≤ v) × (lookup j d ≡ some v)
unfolding evict_overflow victims
evict_earliest limit d k j u v unique p gone kept = elim (Bool-cases (ltb limit (length d))) [
  | inr within ↦ absurd (ground arith)
  | inl over ↦
      let front = keys (victims limit d) in
      let evicted : (evict_overflow limit d).1 ≡ pop_all front d = rw over refl in
      let gone' : lookup k (pop_all front d) ≡ none = sym (ap (lookup k) evicted) ∙ gone in
      let kept' : lookup j (pop_all front d) ≡ some v = sym (ap (lookup j) evicted) ∙ kept in
      let m : In k front = elim (In-or k front) [
        | inl m ↦ m
        | inr n ↦ absurd (
            let c =
              sym p
              ∙ sym (lookup-pop_all_ne front k d (λ i m e. n (subst (λ x. In x front) (sym e) m)))
              ∙ gone' in
            cc)
      ] in
      let out : In j front → ⊥ =
        λ m. (let c = sym (lookup-pop_all-In front j d unique m) ∙ kept' in cc) in
      let there : lookup j d ≡ some v =
        sym
          (lookup-pop_all_ne front j d (λ i m e. absurd (out (subst (λ x. In x front) (sym e) m))))
        ∙ kept' in
      (
        front_earlier (length d - limit) (sort_by_until d) k j u v (sort-IsByUntil d unique) m
            (lookup-sort k d unique ∙ p) out (lookup-sort j d unique ∙ there),
        there,
      )
]

-- In a queue with the invariant, a cooldown that is still running is only pruned if every cooldown
-- that is kept ends no earlier; and what is kept was there before.
pub prune_earliest :
    (now : ℕ) (force : Bool) {q : Queue} (k j : Text) (u v : ℕ)
    → IsValid q
    → lookup k q.cooldown_until ≡ some u
    → now < u
    → lookup k (prune_cooldowns now force q).cooldown_until ≡ none
    → lookup j (prune_cooldowns now force q).cooldown_until ≡ some v
    → (u ≤ v) × (lookup j q.cooldown_until ≡ some v)
unfolding prune_cooldowns
prune_earliest now force {q} k j u v valid p running gone kept =
    let Goal = λ (r : Queue).
      lookup k r.cooldown_until ≡ none
      → lookup j r.cooldown_until ≡ some v
      → (u ≤ v) × (lookup j q.cooldown_until ≡ some v) in
    if_cases Goal (nat_eq (length q.cooldown_until) 0) (λ _ g _. absurd (let c = sym p ∙ g in cc))
      (λ _.
        if_cases Goal (not force && leb (length q.cooldown_until) (max_cooldown_entries q))
          (λ _ g _. absurd (let c = sym p ∙ g in cc))
          (λ _ g h.
            let d = pop_all (expired_at now q.cooldown_until) q.cooldown_until in
            let (le, there) =
              evict_earliest (max_cooldown_entries q) d k j u v
                (pop_all-Unique (expired_at now q.cooldown_until) q.cooldown_until
                  valid.cooldown_unique)
                (running_kept now q.cooldown_until k u valid.cooldown_unique p running) g h in
            (le, (kept_running now q.cooldown_until j v valid.cooldown_unique there).1)))
      gone kept
