-- ===== src/Queue/Backing.antt =====
-- What ties a heap of app/pipeline/candidate_queue.py to the live entries: every live entry has its
-- tuple in the heap, and a tuple that is current is its entry's. Both heaps are instances.
use coinoskobi_dexbot.Common.{
  ℕ, ◌≤◌, true, ◌≡◌, ◌≢◌, sym, ◌∙◌, inl, inr, some, List, [], ◌∷◌, arith, In, All, length,
  Bool-cases, Option-cases,
}
use mathlib.Core.Path.{subst}
use coinoskobi_dexbot.Common.Dict.{Dict, lookup, erase, Unique, lookup-erase_ne, lookup-erase_self}
use coinoskobi_dexbot.Common.Text.{Text, text_eq, text_eq_iff, text_Eq}
use coinoskobi_dexbot.Queue.Heap.{Item, IsHeap}
use coinoskobi_dexbot.Queue.Defs.{Entry, is_current, clean}

pub All-map : (P Q : Item → Type 0) (h : List Item) → ((x : Item) → P x → Q x) → All P h → All Q h
All-map P Q [] f a = tt
All-map P Q (x ∷ h) f a = (f x a.0, All-map P Q h f a.1)

pub All-clean :
    (P : Item → Type 0) (entries : Dict Text Entry) (h : List Item)
    → All P h
    → All P (clean entries h)
unfolding clean
All-clean P entries [] a = tt
All-clean P entries (x ∷ h) a = elim (Bool-cases (is_current entries x.identity x.version)) [
  | inl e ↦ rw e a
  | inr e ↦ rw e (All-clean P entries h a.1)
]

pub clean-IsHeap : (entries : Dict Text Entry) (h : List Item) → IsHeap h → IsHeap (clean entries h)
unfolding clean
clean-IsHeap entries [] s = tt
clean-IsHeap entries (x ∷ h) s = elim (Bool-cases (is_current entries x.identity x.version)) [
  | inl e ↦ rw e s
  | inr e ↦ rw e (clean-IsHeap entries h s.1)
]

pub In-clean :
    (entries : Dict Text Entry) (z : Item) (h : List Item)
    → is_current entries z.identity z.version ≡ true
    → In z h
    → In z (clean entries h)
unfolding clean
In-clean entries z [] c m = absurd m
In-clean entries z (x ∷ h) c (inl e) =
    rw (subst (λ y. is_current entries y.identity y.version ≡ true) e c) (inl e)
In-clean entries z (x ∷ h) c (inr m) = elim (Bool-cases (is_current entries x.identity x.version)) [
  | inl e ↦ rw e (inr m)
  | inr e ↦ rw e (In-clean entries z h c m)
]

pub length-clean-le :
    (entries : Dict Text Entry) (h : List Item) → length (clean entries h) ≤ length h
unfolding clean
length-clean-le entries [] = omega arith
length-clean-le entries (x ∷ h) = ground (arith, length-clean-le entries h)

-- A cleaned heap starts with a current item.
pub clean_current :
    (entries : Dict Text Entry) (h : List Item) {x : Item} {r : List Item}
    → clean entries h ≡ x ∷ r
    → is_current entries x.identity x.version ≡ true
unfolding clean
clean_current entries [] e = cc
clean_current entries (y ∷ h) {x} {r} e = ground (arith, clean_current entries h {x = x} {r = r})

pub is_current_entry :
    (entries : Dict Text Entry) (k : Text) (v : ℕ)
    → is_current entries k v ≡ true
    → (e : Entry) × (lookup k entries ≡ some e) × (e.version ≡ v)
unfolding is_current
is_current_entry entries k v h = elim (Option-cases (lookup k entries)) [
  | inl p ↦ absurd (ground arith)
  | inr (e, p) ↦ (e, p, ground arith)
]

pub entry_is_current :
    (entries : Dict Text Entry) (k : Text) (e : Entry)
    → lookup k entries ≡ some e
    → is_current entries k e.version ≡ true
unfolding is_current
entry_is_current entries k e p = ground arith

pub lookup_of_erase :
    (j k : Text) (d : Dict Text Entry) (e : Entry)
    → Unique d
    → lookup j (erase k d) ≡ some e
    → (j ≢ k) × (lookup j d ≡ some e)
lookup_of_erase j k d e u p = elim (Bool-cases (text_eq j k)) [
  | inl same ↦
      let q : j ≡ k = (text_eq_iff j k).0 same in absurd (ground (arith, lookup-erase_self k d u))
  | inr other ↦
      let n : j ≢ k = λ q. ground (arith, text_eq_iff j k) in (n, sym (lookup-erase_ne j k d n) ∙ p)
]

module _ (of : Text × Entry → Item) where
  -- The tuple keeps the entry's version and identity.
  pub record KeepsNames : Type 0 where
    pub version_lem : (x : Text × Entry) → (of x).version ≡ (x.1).version
    pub identity_lem : (x : Text × Entry) → (of x).identity ≡ x.0

  -- An item is no newer than the counter, and it is its entry's tuple if it is current.
  abbrev pub IsFaithful : ℕ → Dict Text Entry → Item → Type 0
  IsFaithful v entries x =
      (x.version ≤ v)
      × ((e : Entry)
          → lookup x.identity entries ≡ some e
          → e.version ≡ x.version
          → x ≡ of (x.identity, e))

  pub record Backs (v : ℕ) (entries : Dict Text Entry) (h : List Item) : Type 0 where
    pub sorted : IsHeap h
    pub live : (k : Text) (e : Entry) → lookup k entries ≡ some e → In (of (k, e)) h
    pub faithful : All (IsFaithful v entries) h

  pub of_current :
      (names : KeepsNames) (entries : Dict Text Entry) (k : Text) (e : Entry)
      → lookup k entries ≡ some e
      → is_current entries (of (k, e)).identity (of (k, e)).version ≡ true
  of_current names entries k e p =
      rw (names.version_lem (k, e), names.identity_lem (k, e)) (entry_is_current entries k e p)

  pub Backs-clean :
      (names : KeepsNames) {v : ℕ} {entries : Dict Text Entry} {h : List Item}
      → Backs v entries h
      → Backs v entries (clean entries h)
  Backs-clean names {v} {entries} {h} b = record {
    sorted = clean-IsHeap entries h b.sorted;
    live = λ k e p. In-clean entries (of (k, e)) h (of_current names entries k e p) (b.live k e p);
    faithful = All-clean (IsFaithful v entries) entries h b.faithful;
  }
