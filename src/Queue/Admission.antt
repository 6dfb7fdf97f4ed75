-- ===== src/Queue/Admission.antt =====
-- `enqueue` of app/pipeline/candidate_queue.py: every branch, and the invariant after each.
use coinoskobi_dexbot.Common.{
  ℕ, ◌+◌, ◌≤◌, ◌<◌, Bool, ◌≡◌, refl, inl, inr, some, [], ◌∷◌, arith, if_cases, length, Option-cases,
  ltb, leb, leb→le, nat_eq, not, ◌&&◌, ◌||◌,
}
use coinoskobi_dexbot.Common.Lex.{lex_leb}
use coinoskobi_dexbot.Common.Dict.{
  Dict, lookup, get_or, erase, erase-Unique, length-erase, length-erase-le,
}
use coinoskobi_dexbot.Common.Text.{Text, text_Eq, text_eq_iff, text_eq, codes}
use coinoskobi_dexbot.Row.{Row, truthy, market_state_of}
use coinoskobi_dexbot.Queue.Identity.{normalize_token, identity_key, text_of}
use coinoskobi_dexbot.Queue.Defs.{
  Priority, priority_tuple, priority_of, Entry, Queue, clean_worst_heap, current_worst, maintenance,
}
use coinoskobi_dexbot.Queue.Methods.{replace_worst, admit, enqueue_at, enqueue, normalized_row}
use coinoskobi_dexbot.Queue.Invariant.{
  IsValid, IsBounded, IsValid-recount, IsBounded-shrink, IsBounded-recount,
}
use coinoskobi_dexbot.Queue.Maintenance.{
  clean_worst-IsValid, maintenance-IsValid, maintenance-IsBounded,
}
use coinoskobi_dexbot.Queue.Backing.{length-clean-le}
use coinoskobi_dexbot.Queue.Storing.{
  store-IsValid, store-IsBounded, IsWorst, current_worst_lem, erase-IsValid,
}

-- The heaps and the cooldown table after an operation, by its result: a stored row is followed by
-- a compaction.
abbrev pub IsGood : Queue × Bool → Type 0
IsGood (q, _) = IsValid q × IsBounded q

some_entry : (d : Dict Text Entry) → 0 < length d → (k : Text) × (e : Entry) × (lookup k d ≡ some e)
some_entry [] h = absurd (omega arith)
some_entry ((k, e) ∷ d) h = (k, e, ground (arith, text_eq_iff k k))

-- A full queue holds a worst entry.
pub full-IsWorst :
    {q : Queue}
    → IsValid q
    → q.max_pending ≤ length q.entries
    → (j : Text) × (w : Entry) × (current_worst q
        ≡ (clean_worst_heap q, some (priority_tuple w.priority, j)))
      × IsWorst q.entries j w
full-IsWorst {q} v full =
    let (k, e, p) = some_entry q.entries (omega (arith, v.positive)) in current_worst_lem k e v p

module _ (k : Text) (row : Row) (p : Priority) (now : ℕ) where
  -- The worst entry makes room: for a row that is no better nothing is stored.
  pub replace-IsGood :
      {q : Queue} (j : Text) (w : Entry)
      → IsValid q
      → IsBounded q
      → lookup j q.entries ≡ some w
      → IsGood (replace_worst k row p now (clean_worst_heap q, some (priority_tuple w.priority, j)))
  unfolding replace_worst clean_worst_heap
  replace-IsGood {q} j w v b found =
      let c = clean_worst-IsValid v in
      let b' : IsBounded (clean_worst_heap q) =
        IsBounded-shrink (clean_worst_heap q) b refl refl refl (omega arith)
          (length-clean-le q.entries q.worst_heap) (omega arith) in
      if_cases IsGood (lex_leb (priority_tuple p) (priority_tuple w.priority))
        (λ _. (
          IsValid-recount _ c refl refl refl refl refl refl c.cooldown_unique,
          IsBounded-recount _ b' refl refl refl refl refl refl,
        ))
        (λ _.
          let e = erase-IsValid j (q.evicted_low_priority + 1) c in
          let room = inl (omega (arith, length-erase j w q.entries found, v.pending_le)) in
          (
            store-IsValid k row p now now e room,
            store-IsBounded k row p now now e room b.cooldown_le,
          ))

  pub admit-IsGood : {q : Queue} → IsValid q → IsBounded q → IsGood (admit k row p now q)
  unfolding admit
  admit-IsGood {q} v b = elim (Option-cases (lookup k q.entries)) [
    | inl new ↦
        rw (new, admit)
          (if_cases IsGood (leb q.max_pending (length q.entries))
            (λ full.
              let (j, w, found, worst) = full-IsWorst v (leb→le _ _ full) in
              rw found (replace-IsGood j w v b worst.found))
            (λ free.
              let room = inl (ground arith) in
              (
                store-IsValid k row p now now v room,
                store-IsBounded k row p now now v room b.cooldown_le,
              )))
    | inr (e, old) ↦
        let v' =
          IsValid-recount (record q { duplicate_collapsed = q.duplicate_collapsed + 1 }) v refl refl
            refl refl refl refl v.cooldown_unique in
        rw (old, admit)
          (
            store-IsValid k row p e.first_seen now v' (inr (e, old)),
            store-IsBounded k row p e.first_seen now v' (inr (e, old)) b.cooldown_le,
          )
  ]

module _ (now : ℕ) (row : Row) where
  pub enqueue_at-IsGood :
      (token k : Text) {q : Queue} → IsValid q → IsGood (enqueue_at now token k row q)
  unfolding enqueue_at
  enqueue_at-IsGood token k {q} v =
      let q₁ = maintenance now q in
      let v₁ = maintenance-IsValid now v in
      let b₁ = maintenance-IsBounded now v in
      let until = get_or k 0 q₁.cooldown_until in
      let dropped = record q₁ { cooldown_until = erase k q₁.cooldown_until } in
      let stale = not (nat_eq until 0) && leb until now in
      if_cases IsGood (ltb now until)
        (λ _. (
          IsValid-recount _ v₁ refl refl refl refl refl refl v₁.cooldown_unique,
          IsBounded-recount _ b₁ refl refl refl refl refl refl,
        ))
        (λ _.
          admit-IsGood k (normalized_row token k row) (priority_of row) now
            (if_cases IsValid stale
              (λ _.
                IsValid-recount dropped v₁ refl refl refl refl refl refl
                  (erase-Unique k q₁.cooldown_until v₁.cooldown_unique))
              (λ _. v₁))
            (if_cases IsBounded stale
              (λ _.
                IsBounded-shrink dropped b₁ refl refl refl (omega arith) (omega arith)
                  (length-erase-le k q₁.cooldown_until))
              (λ _. b₁)))

  pub enqueue-IsGood : {q : Queue} → IsValid q → IsBounded q → IsGood (enqueue now row q)
  unfolding enqueue
  enqueue-IsGood {q} v b =
      if_cases IsGood (not (truthy (normalize_token row.token)) || not (truthy (identity_key row)))
        (λ _. (v, b))
        (λ _.
          if_cases IsGood (text_eq (market_state_of row) (codes "COLD"))
            (λ _. (
              IsValid-recount _ v refl refl refl refl refl refl v.cooldown_unique,
              IsBounded-recount _ b refl refl refl refl refl refl,
            ))
            (λ _.
              enqueue_at-IsGood (text_of (normalize_token row.token)) (text_of (identity_key row))
                v))
