-- ===== src/Scheduler/Order.antt =====
-- The rows that the round robin of app/pipeline/work_scheduler.py yields, against those of its queues.
use coinoskobi_dexbot.Common.{
  ℕ, zero, suc, ◌+◌, ◌≤◌, ◌<◌, ◌≡◌, ◌≢◌, refl, sym, ◌∙◌, ◌⊎◌, inl, inr, some, List, [], ◌∷◌, ◌++◌,
  arith, length, length-append, In, In-append_left, Bool-cases,
}
use mathlib.Core.Path.{subst}
use mathlib.Core.List.{Perm, perm_middle, append_assoc}
use mathlib.Core.List.Perm
use coinoskobi_dexbot.Common.Dict.{lookup, get_or, insert, Unique, insert-Unique, lookup-insert}
use coinoskobi_dexbot.Common.Text.{Text, text_eq, text_eq_iff, text_Eq}
use coinoskobi_dexbot.Row.{Row}
use coinoskobi_dexbot.Scheduler.Lanes.{
  Chains, rows_of, append_row, waiting, robin_round, round_robin,
}

-- Taking the first row of a chain takes it out of the rows.
rows_of_taken :
    (k : Text) (row : Row) (rest : List Row) (d : Chains)
    → lookup k d ≡ some (row ∷ rest)
    → Perm (row ∷ rows_of (insert k rest d)) (rows_of d)
unfolding rows_of
rows_of_taken k row rest [] h = absurd (ground arith)
rows_of_taken k row rest ((j, items) ∷ d) h = elim (Bool-cases (text_eq k j)) [
  | inl same ↦ let e : items ≡ row ∷ rest = ground arith in rw (same, e) (Perm.refl _)
  | inr other ↦ rw other (
      Perm.trans (Perm.symm (perm_middle items (rows_of (insert k rest d))))
        (Perm.append_left items (rows_of_taken k row rest d (ground arith))))
]

length_taken :
    (k : Text) (row : Row) (rest : List Row) (d : Chains)
    → lookup k d ≡ some (row ∷ rest)
    → suc (length (rows_of (insert k rest d))) ≡ length (rows_of d)
unfolding rows_of
length_taken k row rest [] h = absurd (ground arith)
length_taken k row rest ((j, items) ∷ d) h = elim (Bool-cases (text_eq k j)) [
  | inl same ↦ let e : items ≡ row ∷ rest = ground arith in rw (same, e)
  | inr other ↦
      let ih = length_taken k row rest d (ground arith) in
      rw other (
        omega (
          arith,
          ih,
          length-append items (rows_of (insert k rest d)),
          length-append items (rows_of d),
        ))
]

rows_of_put :
    (k : Text) (row : Row) (before : List Row) (d : Chains)
    → get_or k [] d ≡ before
    → Perm (rows_of (insert k (before ++ row ∷ []) d)) (row ∷ rows_of d)
unfolding rows_of
rows_of_put k row before [] e = rw (← e) (Perm.refl _)
rows_of_put k row before ((j, items) ∷ d) e = elim (Bool-cases (text_eq k j)) [
  | inl same ↦
      let found : before ≡ items = ground arith in
      rw (same, found, append_assoc items (row ∷ []) (rows_of d)) (perm_middle items (rows_of d))
  | inr other ↦ rw other (
      Perm.trans (Perm.append_left items (rows_of_put k row before d (ground arith)))
        (perm_middle items (rows_of d)))
]

-- A row that is put behind its chain is one more row.
pub rows_of-append_row :
    (k : Text) (row : Row) (d : Chains) → Perm (rows_of (append_row k row d)) (row ∷ rows_of d)
unfolding append_row
rows_of-append_row k row d = rows_of_put k row (get_or k [] d) d refl

pub append_row-Unique : (k : Text) (row : Row) (d : Chains) → Unique d → Unique (append_row k row d)
unfolding append_row
append_row-Unique k row d u = insert-Unique k (get_or k [] d ++ row ∷ []) d u

-- Every active chain is there, and every chain with rows is active.
pub record IsCovered (active : List Text) (d : Chains) : Type 0 where
  pub there : (k : Text) → In k active → (items : List Row) × (lookup k d ≡ some items)
  pub active_chain :
      (k : Text) (row : Row) (rest : List Row) → lookup k d ≡ some (row ∷ rest) → In k active

no_rows :
    (d : Chains)
    → Unique d
    → ((k : Text) (row : Row) (rest : List Row) → lookup k d ≢ some (row ∷ rest))
    → rows_of d ≡ []
unfolding rows_of
no_rows [] u none_left = refl
no_rows ((j, []) ∷ d) u none_left =
    no_rows d u.1 (λ k row rest p. none_left k row rest (ground (arith, text_eq_iff k j)))
no_rows ((j, row ∷ rest) ∷ d) u none_left =
    absurd (none_left j row rest (ground (arith, text_eq_iff j j)))

pub In-append_right : (x : Text) (xs ys : List Text) → In x ys → In x (xs ++ ys)
In-append_right x [] ys m = m
In-append_right x (z ∷ xs) ys m = inr (In-append_right x xs ys m)

IsCovered-idle :
    (k : Text) (active : List Text) (d : Chains)
    → IsCovered (k ∷ active) d
    → lookup k d ≡ some []
    → IsCovered active d
IsCovered-idle k active d c p = record {
  there = λ j m. c.there j (inr m);
  active_chain = λ j row rest q. elim (c.active_chain j row rest q) [
    | inl same ↦ absurd (ground (arith, text_eq_iff j k))
    | inr m ↦ m
  ];
}

In-waiting :
    (j k : Text) (rest : List Row) (active : List Text) → In j active → In j (waiting k rest active)
In-waiting j k [] active m = m
In-waiting j k (row ∷ rest) active m = In-append_left j active (k ∷ []) m

waiting_there :
    (j k : Text) (rest : List Row) (active : List Text)
    → In j (waiting k rest active)
    → (j ≡ k) ⊎ In j active
waiting_there j k [] active m = inr m
waiting_there j k (row ∷ rest) active m = split active m
  where
    split : (xs : List Text) → In j (xs ++ k ∷ []) → (j ≡ k) ⊎ In j xs
    split [] (inl e) = inl e
    split [] (inr n) = absurd n
    split (x ∷ xs) (inl e) = inr (inl e)
    split (x ∷ xs) (inr n) = elim (split xs n) [ inl e ↦ inl e | inr i ↦ inr (inr i) ]

IsCovered-taken :
    (k : Text) (active : List Text) (row : Row) (rest : List Row) (d : Chains)
    → IsCovered (k ∷ active) d
    → IsCovered (waiting k rest active) (insert k rest d)
IsCovered-taken k active row rest d c = record {
  there = λ j m. elim (Bool-cases (text_eq j k)) [
    | inl same ↦ (rest, lookup-insert j k rest d ∙ rw same)
    | inr other ↦ elim (waiting_there j k rest active m) [
      | inl e ↦ absurd (ground (arith, text_eq_iff j k))
      | inr n ↦ let (items, p) = c.there j (inr n) in (items, lookup-insert j k rest d ∙ rw other p)
    ]
  ];
  active_chain = λ j row' rest' q. elim (Bool-cases (text_eq j k)) [
    | inl same ↦
        let e : j ≡ k = (text_eq_iff j k).0 same in
        let more : rest ≡ row' ∷ rest' = ground (arith, lookup-insert j k rest d) in
        rw (e, more) (In-append_right k active (k ∷ []) (inl refl))
    | inr other ↦
        let old : lookup j d ≡ some (row' ∷ rest') = ground (arith, lookup-insert j k rest d) in
        elim (c.active_chain j row' rest' old) [
          | inl e ↦ absurd (ground (arith, text_eq_iff j k))
          | inr m ↦ In-waiting j k rest active m
        ]
  ];
}

-- Whether `k` goes on waiting or not, a round uses up one row or one chain.
length-waiting :
    (k : Text) (rest : List Row) (active : List Text)
    → length (waiting k rest active) ≤ suc (length active)
length-waiting k [] active = omega arith
length-waiting k (row ∷ rest) active = omega (arith, length-append active (k ∷ []))

-- With so much fuel, the loop ends and has yielded every row once.
abbrev pub Yields : ℕ → List Text → Chains → Type 0
Yields fuel active d =
    (out : List Row) × (round_robin fuel active d ≡ some out) × Perm out (rows_of d)

-- One round of the loop, over the rows that its chain has.
round-Yields :
    (fuel : ℕ) (k : Text) (active : List Text) (d : Chains) (items : List Row)
    → lookup k d ≡ some items
    → Unique d
    → IsCovered (k ∷ active) d
    → length (rows_of d) + length active < fuel
    → ((active : List Text) (d : Chains)
        → Unique d
        → IsCovered active d
        → length (rows_of d) + length active < fuel
        → Yields fuel active d)
    → Yields (suc fuel) (k ∷ active) d
unfolding round_robin
round-Yields fuel k active d [] p u c h rounds =
    let (out, e, perm) = rounds active d u (IsCovered-idle k active d c p) h in
    (out, subst (λ o. robin_round (round_robin fuel) k active d o ≡ some out) (sym p) e, perm)
round-Yields fuel k active d (row ∷ rest) p u c h rounds =
    let (out, e, perm) =
      rounds (waiting k rest active) (insert k rest d) (insert-Unique k rest d u)
        (IsCovered-taken k active row rest d c)
        (omega (arith, length_taken k row rest d p, length-waiting k rest active)) in
    (
      row ∷ out,
      subst (λ o. robin_round (round_robin fuel) k active d o ≡ some (row ∷ out)) (sym p) (rw e),
      Perm.trans (Perm.cons row perm) (rows_of_taken k row rest d p),
    )

-- The loop yields every row of its queues once.
pub round_robin-Yields :
    (fuel : ℕ) (active : List Text) (d : Chains)
    → Unique d
    → IsCovered active d
    → length (rows_of d) + length active < fuel
    → Yields fuel active d
unfolding round_robin
round_robin-Yields zero active d u c h = elim h [ ]
round_robin-Yields (suc fuel) [] d u c h =
    ([], refl, rw (no_rows d u (λ k row rest p. c.active_chain k row rest p)) (Perm.refl _))
round_robin-Yields (suc fuel) (k ∷ active) d u c h =
    let (items, p) = c.there k (inl refl) in
    round-Yields fuel k active d items p u c (omega arith) (round_robin-Yields fuel)
