-- ===== src/Queue/Popping.antt =====
-- `pop` of app/pipeline/candidate_queue.py: whether it returns, and which row.
use coinoskobi_dexbot.Common.{
  ℕ, suc, ◌≤◌, true, ◌≡◌, refl, sym, ◌⊎◌, inl, inr, none, some, List, [], ◌∷◌, arith, length,
}
use mathlib.Core.Path.{subst}
use coinoskobi_dexbot.Common.Lex.{lex_leb}
use coinoskobi_dexbot.Common.Dict.{Dict, lookup, erase, erase-Unique, length-erase-le}
use coinoskobi_dexbot.Common.Text.{Text, text_Eq, text_eq_iff}
use coinoskobi_dexbot.Queue.Heap.{Item}
use coinoskobi_dexbot.Queue.Defs.{
  priority_tuple, Entry, Queue, best_of, worst_of, is_current, clean, clean_best_heap, maintenance,
}
use coinoskobi_dexbot.Queue.Methods.{returned, take_entry, pop_round, pop_loop, pop}
use coinoskobi_dexbot.Queue.Backing.{Backs, Backs-clean, entry_is_current}
use coinoskobi_dexbot.Queue.Updates.{Backs-pop, Backs-erase}
use coinoskobi_dexbot.Queue.Invariant.{IsValid, IsBounded, best_names}
use coinoskobi_dexbot.Queue.Maintenance.{
  maintenance-IsValid, maintenance-IsBounded, maintenance_same,
}
use coinoskobi_dexbot.Queue.Front.{
  IsFront, clean-ne-nil, front_lem, best_front_max, best_front_first,
}

-- The entry that `pop` serves: none has a higher priority, and none as high was seen earlier.
pub record IsServed (entries : Dict Text Entry) (k : Text) (e : Entry) : Type 0 where
  pub found : lookup k entries ≡ some e
  pub highest :
      (j : Text) (e' : Entry)
      → lookup j entries ≡ some e'
      → lex_leb (priority_tuple e'.priority) (priority_tuple e.priority) ≡ true
  pub earliest :
      (j : Text) (e' : Entry)
      → lookup j entries ≡ some e'
      → priority_tuple e'.priority ≡ priority_tuple e.priority
      → e.first_seen ≤ e'.first_seen

-- The state without the front of the cleaned best heap and its entry.
abbrev served : Item → List Item → Queue → Queue
served x h q = record q { best_heap = h; entries = erase x.identity q.entries }

served-IsValid :
    {q : Queue} {x : Item} {h : List Item}
    → IsValid q
    → clean q.entries q.best_heap ≡ x ∷ h
    → IsValid (served x h q)
served-IsValid {q} {x} {h} v c = record {
  positive = v.positive;
  factor = v.factor;
  pending_le = omega (arith, v.pending_le, length-erase-le x.identity q.entries);
  unique = erase-Unique x.identity q.entries v.unique;
  cooldown_unique = v.cooldown_unique;
  best =
      Backs-pop best_of best_names v.unique
        (subst (Backs best_of q.version q.entries) c (Backs-clean best_of best_names v.best));
  worst = Backs-erase worst_of x.identity v.unique v.worst;
}

-- With a live entry, one round of the loop serves the front of the cleaned heap.
pop_front :
    (fuel now : ℕ) (q : Queue) {x : Item} {h : List Item} {e : Entry}
    → clean q.entries q.best_heap ≡ x ∷ h
    → IsFront best_of q.entries x e
    → pop_loop (suc fuel) now q ≡ returned (maintenance now (served x h q)) (some e.row)
unfolding pop_loop clean_best_heap
pop_front fuel now q {x} {h} {e} c f =
    let current : is_current q.entries x.identity x.version ≡ true =
      subst (λ n. is_current q.entries x.identity n ≡ true) f.version_eq
        (entry_is_current q.entries x.identity e f.found) in
    subst
      (λ l.
        pop_round (pop_loop fuel now) now (clean_best_heap q) l
        ≡ returned (maintenance now (served x h q)) (some e.row))
      (sym c) (rw current (rw (f.found, take_entry)))

pop_empty :
    (fuel now : ℕ) (q : Queue)
    → clean q.entries q.best_heap ≡ []
    → pop_loop (suc fuel) now q ≡ returned (maintenance now (clean_best_heap q)) none
unfolding pop_loop clean_best_heap
pop_empty fuel now q c =
    subst
      (λ l.
        pop_round (pop_loop fuel now) now (clean_best_heap q) l
        ≡ returned (maintenance now (clean_best_heap q)) none)
      (sym c) refl

-- No tuple is current where there is no entry.
clean_none : (h : List Item) → clean [] h ≡ []
unfolding clean is_current
clean_none [] = refl
clean_none (x ∷ h) = clean_none h

nil_of_length : (d : Dict Text Entry) → length d ≡ 0 → d ≡ []
nil_of_length [] h = refl
nil_of_length (x ∷ d) h = absurd (omega arith)

-- Without a live entry `pop` ends and returns None; what is left is the maintenance of the queue
-- whose heap was cleaned.
pub pop-none :
    (now : ℕ) (q : Queue)
    → length q.entries ≡ 0
    → pop now q ≡ returned (maintenance now (clean_best_heap q)) none
unfolding pop
pop-none now q none_left =
    let e = nil_of_length q.entries none_left in
    pop_empty (length q.best_heap) now q
      (subst (λ d. clean d q.best_heap ≡ []) (sym e) (clean_none q.best_heap))

-- What `pop` does with a live entry: it returns the row of one that is served first, takes just
-- that entry out, and leaves a state with the invariant and the bounds.
pub record IsPopped (q : Queue) (now : ℕ) (k : Text) (e : Entry) (r : Queue) : Type 0 where
  pub result : pop now q ≡ returned r (some e.row)
  pub served_first : IsServed q.entries k e
  pub entries_eq : r.entries ≡ erase k q.entries
  pub valid : IsValid r
  pub bounded : IsBounded r

-- In a queue with the invariant and a live entry, `pop` ends and returns the row of a live entry
-- that is served first, takes out just that entry, and leaves a queue with the invariant and the
-- bounds.
pub pop-some :
    (now : ℕ) {q : Queue} (k : Text) (e : Entry)
    → IsValid q
    → lookup k q.entries ≡ some e
    → (j : Text) × (w : Entry) × (r : Queue) × IsPopped q now j w r
unfolding pop
pop-some now {q} k e v p =
    let (x, h, c) = clean-ne-nil best_of best_names k e v.best p in
    let (w, f) = front_lem best_of best_names v.best c in
    let v' = served-IsValid v c in
    (
      x.identity,
      w,
      maintenance now (served x h q),
      record {
        result = pop_front (length q.best_heap) now q c f;
        served_first = record {
          found = f.found;
          highest = best_front_max f;
          earliest = best_front_first f;
        };
        entries_eq = (maintenance_same now (served x h q)).entries_eq;
        valid = maintenance-IsValid now v';
        bounded = maintenance-IsBounded now v';
      },
    )

pub no_entry_or_some :
    (d : Dict Text Entry) → (length d ≡ 0) ⊎ ((k : Text) × (e : Entry) × (lookup k d ≡ some e))
no_entry_or_some [] = inl refl
no_entry_or_some ((k, e) ∷ d) = inr (k, e, ground (arith, text_eq_iff k k))
