-- ===== src/Queue/Updates.antt =====
-- The tie between a heap and the live entries under each update of
-- app/pipeline/candidate_queue.py: a stored entry, an erased one, a popped one, a rebuilt heap.
use coinoskobi_dexbot.Common.{
  ℕ, suc, ◌≤◌, ◌≡◌, sym, ap, ◌∙◌, ◌⊎◌, inl, inr, some, List, [], ◌∷◌, map, arith, In, All, All-In,
  Bool-cases,
}
use mathlib.Core.Path.{subst}
use coinoskobi_dexbot.Common.Dict.{
  Dict, lookup, insert, erase, Unique, lookup-insert, lookup-insert_self,
}
use coinoskobi_dexbot.Common.Text.{Text, text_eq, text_eq_iff, text_Eq}
use coinoskobi_dexbot.Queue.Heap.{
  Item, heappush, heapify, In-heappush, In-heappush_self, In-heapify, All-heappush, All-heapify,
  heappush-IsHeap, heapify-IsHeap,
}
use coinoskobi_dexbot.Queue.Defs.{Entry}
use coinoskobi_dexbot.Queue.Backing.{KeepsNames, IsFaithful, Backs, All-map, lookup_of_erase}

-- What a lookup finds after an insertion.
lookup_of_insert :
    (j k : Text) (e' : Entry) (d : Dict Text Entry) (e : Entry)
    → lookup j (insert k e' d) ≡ some e
    → ((j ≡ k) × (e' ≡ e)) ⊎ (lookup j d ≡ some e)
lookup_of_insert j k e' d e p = elim (Bool-cases (text_eq j k)) [
  | inl same ↦ inl ((text_eq_iff j k).0 same, ground (arith, lookup-insert j k e' d))
  | inr other ↦ inr (ground (arith, lookup-insert j k e' d))
]

module _ (of : Text × Entry → Item) where
  -- An older item stays faithful when an entry gets a version that no item has.
  IsFaithful-insert :
      (v w : ℕ) (entries : Dict Text Entry) (k : Text) (e : Entry)
      → w ≡ suc v
      → e.version ≡ w
      → (x : Item) → IsFaithful of v entries x
      → IsFaithful of w (insert k e entries) x
  IsFaithful-insert v w entries k e newer fresh x f = (
    omega (arith, f.0),
    λ e' p q. elim (lookup_of_insert x.identity k e entries e' p) [
      | inl new ↦ absurd (omega (arith, f.0, ap Entry.version new.1))
      | inr old ↦ f.1 e' old q
    ],
  )

  -- The tuple of a stored entry is faithful to it.
  own_entry :
      (names : KeepsNames of) (k : Text) (e : Entry) (entries : Dict Text Entry) (e' : Entry)
      → lookup (of (k, e)).identity (insert k e entries) ≡ some e'
      → of (k, e) ≡ of ((of (k, e)).identity, e')
  own_entry names k e entries e' p =
      let r : (of (k, e)).identity ≡ k = names.identity_lem (k, e) in
      let p' : lookup k (insert k e entries) ≡ some e' =
        subst (λ j. lookup j (insert k e entries) ≡ some e') r p in
      let q : e ≡ e' = ground (arith, lookup-insert_self k e entries) in λ i. of (sym r i, q i)

  pub Backs-insert :
      (names : KeepsNames of) {v : ℕ} {entries : Dict Text Entry} {h : List Item} (w : ℕ) (k : Text)
      (e : Entry)
      → w ≡ suc v
      → e.version ≡ w
      → Backs of v entries h
      → Backs of w (insert k e entries) (heappush (of (k, e)) h)
  Backs-insert names {v} {entries} {h} w k e newer fresh b = record {
    sorted = heappush-IsHeap (of (k, e)) h b.sorted;
    live = λ j e' p. elim (lookup_of_insert j k e entries e' p) [
      | inl new ↦
          subst (λ y. In (of y) (heappush (of (k, e)) h)) (λ i. (sym new.0 i, new.1 i))
            (In-heappush_self (of (k, e)) h)
      | inr old ↦ In-heappush (of (k, e)) (of (j, e')) h (b.live j e' old)
    ];
    faithful =
        All-heappush (IsFaithful of w (insert k e entries)) (of (k, e)) h
          (omega (arith, names.version_lem (k, e)), λ e' p q. own_entry names k e entries e' p)
          (All-map (IsFaithful of v entries) (IsFaithful of w (insert k e entries)) h
            (IsFaithful-insert v w entries k e newer fresh) b.faithful);
  }

  pub Backs-erase :
      {v : ℕ} {entries : Dict Text Entry} {h : List Item} (k : Text)
      → Unique entries
      → Backs of v entries h
      → Backs of v (erase k entries) h
  Backs-erase {v} {entries} {h} k u b = record {
    sorted = b.sorted;
    live = λ j e p. b.live j e (lookup_of_erase j k entries e u p).1;
    faithful =
        All-map (IsFaithful of v entries) (IsFaithful of v (erase k entries)) h
          (λ x f. (f.0, λ e p q. f.1 e (lookup_of_erase x.identity k entries e u p).1 q))
          b.faithful;
  }

  -- The first item is popped from the heap together with its entry.
  pub Backs-pop :
      (names : KeepsNames of) {v : ℕ} {entries : Dict Text Entry} {x : Item} {h : List Item}
      → Unique entries
      → Backs of v entries (x ∷ h)
      → Backs of v (erase x.identity entries) h
  Backs-pop names {v} {entries} {x} {h} u b = record {
    sorted = b.sorted.1;
    live = λ j e p.
        let old = lookup_of_erase j x.identity entries e u p in
        elim (b.live j e old.1) [
          | inl same ↦ absurd (old.0 (sym (names.identity_lem (j, e)) ∙ ap Item.identity same))
          | inr m ↦ m
        ];
    faithful = (Backs-erase x.identity u b).faithful.1;
  }

  -- Every entry of a dict is in the list of tuples that is made of it.
  In-map :
      (entries : Dict Text Entry) (k : Text) (e : Entry)
      → lookup k entries ≡ some e
      → In (of (k, e)) (map of entries)
  In-map [] k e p = cc
  In-map ((j, w) ∷ d) k e p = elim (Bool-cases (text_eq k j)) [
    | inl same ↦ let q : e ≡ w = ground arith in inl (λ i. of ((text_eq_iff k j).0 same i, q i))
    | inr other ↦ inr (In-map d k e (ground arith))
  ]

  -- The tuple of each entry is faithful to what a lookup finds, since no key is listed twice.
  IsFaithful-map :
      (names : KeepsNames of) (v : ℕ) (whole part : Dict Text Entry)
      → Unique part
      → ((k : Text) (e : Entry) → lookup k part ≡ some e → lookup k whole ≡ some e)
      → ((k : Text) (e : Entry) → lookup k whole ≡ some e → e.version ≤ v)
      → All (IsFaithful of v whole) (map of part)
  IsFaithful-map names v whole [] u inside newest = tt
  IsFaithful-map names v whole ((k, w) ∷ d) u inside newest =
      let found : lookup k whole ≡ some w = inside k w (ground (arith, text_eq_iff k k)) in
      (
        (
          omega (arith, names.version_lem (k, w), newest k w found),
          λ e p q.
              let r : (of (k, w)).identity ≡ k = names.identity_lem (k, w) in
              let p' : lookup k whole ≡ some e = subst (λ j. lookup j whole ≡ some e) r p in
              let s : w ≡ e = ground arith in λ i. of (sym r i, s i),
        ),
        IsFaithful-map names v whole d u.1 (λ j e p. inside j e (ground (arith, text_eq_iff j k)))
            newest,
      )

  pub Backs-rebuild :
      (names : KeepsNames of) {v : ℕ} {entries : Dict Text Entry}
      → Unique entries
      → ((k : Text) (e : Entry) → lookup k entries ≡ some e → e.version ≤ v)
      → Backs of v entries (heapify (map of entries))
  Backs-rebuild names {v} {entries} u newest = record {
    sorted = heapify-IsHeap (map of entries);
    live = λ k e p. In-heapify (of (k, e)) (map of entries) (In-map entries k e p);
    faithful =
        All-heapify (IsFaithful of v entries) (map of entries)
          (IsFaithful-map names v entries entries u (λ k e p. p) newest);
  }

  -- Every entry's version is at most the counter, since its tuple's is.
  pub version-le :
      (names : KeepsNames of) {v : ℕ} {entries : Dict Text Entry} {h : List Item} (k : Text)
      (e : Entry)
      → Backs of v entries h
      → lookup k entries ≡ some e
      → e.version ≤ v
  version-le names {v} {entries} {h} k e b p =
      let f = All-In (IsFaithful of v entries) h b.faithful (b.live k e p) in
      omega (arith, names.version_lem (k, e), f.0)
