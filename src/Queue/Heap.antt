-- ===== src/Queue/Heap.antt =====
-- The two heaps of the admission queue. `heapq` keeps the least tuple in front; the source reads a
-- heap's first item and its length and nothing else, so a heap is its items in order. The tuples end
-- in the version and the identity, and are compared as Python compares tuples.
use coinoskobi_dexbot.Common.{
  ℕ, suc, Bool, true, ◌≡◌, refl, inl, inr, List, [], ◌∷◌, ◌++◌, map, arith, if◌then◌else◌, In, All,
  length, Bool-cases,
}
use coinoskobi_dexbot.Common.Int.{ℤ, pos}
use coinoskobi_dexbot.Common.Lex.{lex_leb, lex_leb_refl, lex_leb_total, lex_leb_trans}
use coinoskobi_dexbot.Common.Text.{Text}

pub record Item : Type 0 where
  pub key : List ℤ
  pub version : ℕ
  pub identity : Text

abbrev pub tuple_of : Item → List ℤ
tuple_of x = x.key ++ pos x.version ∷ map pos x.identity

abbrev pub item_leb : Item → Item → Bool
item_leb x y = lex_leb (tuple_of x) (tuple_of y)

-- `heapq.heappush`
unfoldable pub heappush : Item → List Item → List Item
heappush x [] = x ∷ []
heappush x (y ∷ h) = if item_leb x y then x ∷ y ∷ h else y ∷ heappush x h

-- `heapq.heapify`
unfoldable pub heapify : List Item → List Item
unfolding heappush
heapify [] = []
heapify (x ∷ h) = heappush x (heapify h)

-- The items in order.
abbrev pub IsHeap : List Item → Type 0
IsHeap [] = Unit
IsHeap (x ∷ h) = All (λ y. item_leb x y ≡ true) h × IsHeap h

pub length-heappush : (x : Item) (h : List Item) → length (heappush x h) ≡ suc (length h)
unfolding heappush
length-heappush x [] = refl
length-heappush x (y ∷ h) = ground (arith, length-heappush x h)

pub length-heapify : (h : List Item) → length (heapify h) ≡ length h
unfolding heapify
length-heapify [] = refl
length-heapify (x ∷ h) = ground (arith, length-heapify h, length-heappush x (heapify h))

pub In-heappush_self : (x : Item) (h : List Item) → In x (heappush x h)
unfolding heappush
In-heappush_self x [] = inl refl
In-heappush_self x (y ∷ h) = elim (Bool-cases (item_leb x y)) [
  | inl e ↦ rw e (inl refl)
  | inr e ↦ rw e (inr (In-heappush_self x h))
]

pub In-heappush : (x z : Item) (h : List Item) → In z h → In z (heappush x h)
unfolding heappush
In-heappush x z [] m = absurd m
In-heappush x z (y ∷ h) m = elim (Bool-cases (item_leb x y)) [
  | inl e ↦ rw e (inr m)
  | inr e ↦ rw e (elim m [ inl p ↦ inl p | inr p ↦ inr (In-heappush x z h p) ])
]

pub All-heappush :
    (P : Item → Type 0) (x : Item) (h : List Item) → P x → All P h → All P (heappush x h)
unfolding heappush
All-heappush P x [] p a = (p, tt)
All-heappush P x (y ∷ h) p a = elim (Bool-cases (item_leb x y)) [
  | inl e ↦ rw e (p, a)
  | inr e ↦ rw e (a.0, All-heappush P x h p a.1)
]

pub All-heapify : (P : Item → Type 0) (h : List Item) → All P h → All P (heapify h)
unfolding heapify
All-heapify P [] a = tt
All-heapify P (x ∷ h) a = All-heappush P x (heapify h) a.0 (All-heapify P h a.1)

pub In-heapify : (z : Item) (h : List Item) → In z h → In z (heapify h)
unfolding heapify
In-heapify z [] m = absurd m
In-heapify z (x ∷ h) (inl e) = rw e (In-heappush_self x (heapify h))
In-heapify z (x ∷ h) (inr m) = In-heappush x z (heapify h) (In-heapify z h m)

-- What is at most the head is at most every item.
below-All :
    (x y : Item) (h : List Item)
    → item_leb x y ≡ true
    → All (λ z. item_leb y z ≡ true) h
    → All (λ z. item_leb x z ≡ true) h
below-All x y [] e a = tt
below-All x y (z ∷ h) e a =
    (lex_leb_trans (tuple_of x) (tuple_of y) (tuple_of z) e a.0, below-All x y h e a.1)

pub heappush-IsHeap : (x : Item) (h : List Item) → IsHeap h → IsHeap (heappush x h)
unfolding heappush
heappush-IsHeap x [] s = (tt, tt)
heappush-IsHeap x (y ∷ h) s = elim (Bool-cases (item_leb x y)) [
  | inl e ↦ rw e ((e, below-All x y h e s.0), s)
  | inr e ↦ rw e (
    All-heappush (λ z. item_leb y z ≡ true) x h (lex_leb_total (tuple_of x) (tuple_of y) e) s.0,
    heappush-IsHeap x h s.1,
  )
]

pub heapify-IsHeap : (h : List Item) → IsHeap (heapify h)
unfolding heapify
heapify-IsHeap [] = tt
heapify-IsHeap (x ∷ h) = heappush-IsHeap x (heapify h) (heapify-IsHeap h)

-- `heap[0]` is the least item.
pub head-le : (x z : Item) (h : List Item) → IsHeap (x ∷ h) → In z (x ∷ h) → item_leb x z ≡ true
head-le x z h s (inl e) = rw e (lex_leb_refl (tuple_of x))
head-le x z (y ∷ h) s (inr (inl e)) = rw e s.0.0
head-le x z (y ∷ h) s (inr (inr m)) = head-le x z h (s.0.1, s.1.1) (inr m)
head-le x z [] s (inr m) = absurd m
