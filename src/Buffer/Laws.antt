-- ===== src/Buffer/Laws.antt =====
-- Pushes into and drains of the buffer of app/dex/event_buffer.py.
use coinoskobi_dexbot.Common.{
  ◌+◌, ◌≤◌, min, ◌≡◌, refl, sym, ap, ◌∙◌, Option, none, some, List, [], ◌∷◌, ◌++◌, length,
  length-append, length-take, take-append-drop, arith, leb, Bool-cases, inl, inr,
}
use mathlib.Core.List.{append_assoc, append-nil}
use coinoskobi_dexbot.Common.Int.{ℤ}
use coinoskobi_dexbot.Buffer.Defs.{
  Buffer, Pushed, init, push, drain, wanted, push_all, append_event, push_full,
}

pub record IsValid {A : Type 0} (b : Buffer A) : Type 0 where
  pub positive : 1 ≤ b.max_size
  pub bounded : length b.items ≤ b.max_size

module _ {A : Type 0} where
  pub init-IsValid : (n : ℤ) → IsValid (init {A = A} n)
  unfolding init
  init-IsValid n = record { positive = omega arith; bounded = omega arith }

  -- What a push does: the events that fell out, then what is kept, are the old events and the new.
  pub record IsPushed (events : List A) (b b' : Buffer A) : Type 0 where
    pub valid : IsValid b'
    pub lost : List A
    pub order : lost ++ b'.items ≡ b.items ++ events
    pub counted : b'.dropped ≡ b.dropped + length lost
    pub size : length b'.items ≡ min b.max_size (length b.items + length events)
    pub max_eq : b'.max_size ≡ b.max_size

  full_push :
      (event : A) (b : Buffer A) (items : List A)
      → b.items ≡ items
      → IsValid b
      → b.max_size ≤ length items
      → (b' : Buffer A) × (r : Pushed A) × (push_full event b items ≡ some (b', r))
        × IsPushed (event ∷ []) b b'
  unfolding push_full
  full_push event b [] e v full = absurd (omega (arith, v.positive))
  full_push event b (oldest ∷ rest) e v full = (
    record b { items = rest ++ event ∷ []; dropped = b.dropped + 1 },
    _,
    refl,
    record {
      valid = record {
        positive = v.positive;
        bounded = omega (arith, v.bounded, ap length e, length-append rest (event ∷ []));
      };
      lost = oldest ∷ [];
      order = rw e;
      counted = refl;
      size = omega (arith, v.bounded, ap length e, length-append rest (event ∷ []));
      max_eq = refl;
    },
  )

  -- A push never fails, and drops the oldest event only if the buffer is full.
  push_lem :
      (event : A) (b : Buffer A)
      → IsValid b
      → (b' : Buffer A) × (r : Pushed A) × (push event b ≡ some (b', r))
        × IsPushed (event ∷ []) b b'
  unfolding push append_event
  push_lem event b v = elim (Bool-cases (leb b.max_size (length b.items))) [
    | inl full ↦
        let (b', r, e, is) = full_push event b b.items refl v (ground arith) in
        (b', r, rw (full) e, is)
    | inr room ↦ (
      (append_event none event b).0,
      (append_event none event b).1,
      rw room,
      record {
        valid = record {
          positive = v.positive;
          bounded = ground (arith, length-append b.items (event ∷ []));
        };
        lost = [];
        order = refl;
        counted = omega arith;
        size = ground (arith, length-append b.items (event ∷ []));
        max_eq = refl;
      },
    )
  ]

  IsPushed-none : (b : Buffer A) → IsValid b → IsPushed [] b b
  IsPushed-none b v = record {
    valid = v;
    lost = [];
    order = sym (append-nil b.items);
    counted = omega arith;
    size = omega (arith, v.bounded);
    max_eq = refl;
  }

  IsPushed-then :
      (event : A) (events : List A) {b b' b'' : Buffer A}
      → IsPushed (event ∷ []) b b'
      → IsPushed events b' b''
      → IsPushed (event ∷ events) b b''
  IsPushed-then event events {b} {b'} {b''} p q = record {
    valid = q.valid;
    lost = p.lost ++ q.lost;
    order =
        append_assoc p.lost q.lost b''.items
        ∙ ap (λ l. p.lost ++ l) q.order
        ∙ sym (append_assoc p.lost b'.items events)
        ∙ ap (λ l. l ++ events) p.order
        ∙ append_assoc b.items (event ∷ []) events;
    counted = omega (arith, p.counted, q.counted, length-append p.lost q.lost);
    size = omega (arith, p.size, q.size, p.max_eq);
    max_eq = q.max_eq ∙ p.max_eq;
  }

  -- In a valid buffer no push fails, however many events come: the buffer then holds the newest of
  -- the old and the new events, in order, as many as fit, and the counter grows by the number of
  -- those that are gone.
  pub push_all_lem :
      (events : List A) (b : Buffer A)
      → IsValid b
      → (b' : Buffer A) × (push_all events b ≡ some b') × IsPushed events b b'
  unfolding push_all
  push_all_lem [] b v = (b, refl, IsPushed-none b v)
  push_all_lem (event ∷ events) b v =
      let (b', r, e, is) = push_lem event b v in
      let (b'', e', is') = push_all_lem events b' is.valid in
      (b'', ground (arith, e, e'), IsPushed-then event events is is')

  -- `drain` takes the oldest events, at most as many as are asked for, and leaves the others in
  -- order; without a limit it takes all.
  pub drain_lem :
      (limit : Option ℤ) (b : Buffer A)
      → let (b', out) = drain limit b in
        (out ++ b'.items ≡ b.items)
        × (length out ≡ min (wanted limit (length b.items)) (length b.items))
  unfolding drain
  drain_lem limit b = (
    take-append-drop (min (wanted limit (length b.items)) (length b.items)) b.items,
    omega (arith, length-take (min (wanted limit (length b.items)) (length b.items)) b.items),
  )
