-- ===== src/Queue/Front.antt =====
-- The front of a cleaned heap of app/pipeline/candidate_queue.py: the tuple of a live entry that is
-- the least among those of all live entries.
use coinoskobi_dexbot.Common.{
  ℕ, ◌≤◌, true, ◌≡◌, refl, sym, ◌∙◌, some, List, [], ◌∷◌, ◌++◌, map, arith, In,
}
use mathlib.Core.Path.{subst}
use coinoskobi_dexbot.Common.Int.{neg, pos}
use coinoskobi_dexbot.Common.Lex.{lex_leb, lex_leb-append, lex_leb-append_same, lex_leb-map-neg}
use coinoskobi_dexbot.Common.Dict.{Dict, lookup}
use coinoskobi_dexbot.Common.Text.{Text, text_Eq}
use coinoskobi_dexbot.Queue.Heap.{Item, item_leb, head-le}
use coinoskobi_dexbot.Queue.Defs.{priority_tuple, Entry, best_of, worst_of, clean}
use coinoskobi_dexbot.Queue.Backing.{
  KeepsNames, Backs, Backs-clean, In-clean, of_current, clean_current, is_current_entry,
}

-- A cleaned heap that starts with an item, with that item's entry.
pub record IsFront (of : Text × Entry → Item) (entries : Dict Text Entry) (x : Item) (e : Entry)
    : Type 0 where
  pub found : lookup x.identity entries ≡ some e
  pub version_eq : e.version ≡ x.version
  pub tuple_eq : x ≡ of (x.identity, e)
  pub least : (j : Text) (e' : Entry) → lookup j entries ≡ some e' → item_leb x (of (j, e')) ≡ true

module _ (of : Text × Entry → Item) (names : KeepsNames of) where
  -- A live entry's tuple stays in the cleaned heap, so with an entry the heap is not empty.
  pub clean-ne-nil :
      {v : ℕ} {entries : Dict Text Entry} {h : List Item} (k : Text) (e : Entry)
      → Backs of v entries h
      → lookup k entries ≡ some e
      → (x : Item) × (r : List Item) × (clean entries h ≡ x ∷ r)
  clean-ne-nil {v} {entries} {h} k e b p = split (clean entries h) refl
    where
      split :
          (l : List Item)
          → clean entries h ≡ l
          → (x : Item) × (r : List Item) × (clean entries h ≡ x ∷ r)
      split [] q = absurd (
          subst (In (of (k, e))) q
            (In-clean entries (of (k, e)) h (of_current of names entries k e p) (b.live k e p)))
      split (x ∷ r) q = (x, r, q)

  pub front_lem :
      {v : ℕ} {entries : Dict Text Entry} {h : List Item} {x : Item} {r : List Item}
      → Backs of v entries h
      → clean entries h ≡ x ∷ r
      → (e : Entry) × IsFront of entries x e
  front_lem {v} {entries} {h} {x} {r} b q =
      let b' : Backs of v entries (x ∷ r) = subst (Backs of v entries) q (Backs-clean of names b) in
      let (e, found, same) =
        is_current_entry entries x.identity x.version (clean_current entries h q) in
      (
        e,
        record {
          found = found;
          version_eq = same;
          tuple_eq = b'.faithful.0.1 e found same;
          least = λ j e' p. head-le x (of (j, e')) r b'.sorted (b'.live j e' p);
        },
      )

-- The front of the best heap has the highest priority.
pub best_front_max :
    {entries : Dict Text Entry} {x : Item} {e : Entry}
    → IsFront best_of entries x e
    → (j : Text) (e' : Entry) → lookup j entries ≡ some e'
    → lex_leb (priority_tuple e'.priority) (priority_tuple e.priority) ≡ true
best_front_max {entries} {x} {e} f j e' p =
    let le : item_leb (best_of (x.identity, e)) (best_of (j, e')) ≡ true =
      subst (λ y. item_leb y (best_of (j, e')) ≡ true) f.tuple_eq (f.least j e' p) in
    sym (lex_leb-map-neg (priority_tuple e.priority) (priority_tuple e'.priority) refl)
    ∙ lex_leb-append (map neg (priority_tuple e.priority)) (map neg (priority_tuple e'.priority)) _
        _ refl le

-- The front of the worst heap has the lowest priority.
pub worst_front_min :
    {entries : Dict Text Entry} {x : Item} {e : Entry}
    → IsFront worst_of entries x e
    → (j : Text) (e' : Entry) → lookup j entries ≡ some e'
    → lex_leb (priority_tuple e.priority) (priority_tuple e'.priority) ≡ true
worst_front_min {entries} {x} {e} f j e' p =
    let le : item_leb (worst_of (x.identity, e)) (worst_of (j, e')) ≡ true =
      subst (λ y. item_leb y (worst_of (j, e')) ≡ true) f.tuple_eq (f.least j e' p) in
    lex_leb-append (priority_tuple e.priority) (priority_tuple e'.priority) _ _ refl le

lex_singleton : (a b : ℕ) → lex_leb (pos a ∷ []) (pos b ∷ []) ≡ true → a ≤ b
unfolding lex_leb
lex_singleton a b h = ground arith

-- Among equal priorities the front of the best heap was seen first.
pub best_front_first :
    {entries : Dict Text Entry} {x : Item} {e : Entry}
    → IsFront best_of entries x e
    → (j : Text) (e' : Entry) → lookup j entries ≡ some e'
    → priority_tuple e'.priority ≡ priority_tuple e.priority
    → e.first_seen ≤ e'.first_seen
best_front_first {entries} {x} {e} f j e' p same =
    let le : item_leb (best_of (x.identity, e)) (best_of (j, e')) ≡ true =
      subst (λ y. item_leb y (best_of (j, e')) ≡ true) f.tuple_eq (f.least j e' p) in
    let le_keys : lex_leb (best_of (x.identity, e)).key (best_of (j, e')).key ≡ true =
      lex_leb-append (best_of (x.identity, e)).key (best_of (j, e')).key _ _ refl le in
    let le_same : lex_leb (map neg (priority_tuple e.priority) ++ pos e.first_seen ∷ [])
          (map neg (priority_tuple e.priority) ++ pos e'.first_seen ∷ [])
        ≡ true =
      subst
        (λ t. lex_leb (best_of (x.identity, e)).key (map neg t ++ pos e'.first_seen ∷ []) ≡ true)
        same le_keys in
    lex_singleton e.first_seen e'.first_seen
      (sym (lex_leb-append_same (map neg (priority_tuple e.priority)) _ _) ∙ le_same)
