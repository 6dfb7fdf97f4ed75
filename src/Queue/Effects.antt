-- ===== src/Queue/Effects.antt =====
-- What `enqueue` of app/pipeline/candidate_queue.py does to the live entries, branch by branch.
use coinoskobi_dexbot.Common.{
  ℕ, ◌+◌, ◌≤◌, ◌<◌, true, false, ◌≡◌, refl, ap, ◌∙◌, inl, inr, none, some, arith, length,
  Bool-cases, leb, le→leb, lt→ltb,
}
use mathlib.Core.Path.{subst}
use coinoskobi_dexbot.Common.Lex.{lex_leb}
use coinoskobi_dexbot.Common.Dict.{
  lookup, get_or, get_or-some, insert, erase, lookup-insert_self, length-insert_old,
}
use coinoskobi_dexbot.Common.Text.{Text, text_Eq}
use coinoskobi_dexbot.Row.{Row}
use coinoskobi_dexbot.Queue.Identity.{normalize_token, text_of}
use coinoskobi_dexbot.Queue.Defs.{
  priority_tuple, priority_of, Entry, Queue, clean_worst_heap, maintenance,
}
use coinoskobi_dexbot.Queue.Methods.{
  store, replace_worst, admit, enqueue_after, enqueue_at, enqueue, normalized_row,
}
use coinoskobi_dexbot.Queue.Invariant.{IsValid, IsBounded}
use coinoskobi_dexbot.Queue.Maintenance.{maintenance-IsValid, maintenance_same}
use coinoskobi_dexbot.Queue.Storing.{stored_entry, entries-store, IsWorst}
use coinoskobi_dexbot.Queue.Admission.{full-IsWorst}
use coinoskobi_dexbot.Queue.Candidate.{IsCandidate, reaches, admits, maintenance_cooldown}

module _ (now : ℕ) {row : Row} {k : Text} (candidate : IsCandidate row k) where
  -- In a queue within its bounds, a candidate whose cooldown is running is turned away: the
  -- entries and the cooldowns stay, and the counter of cooled rows is one more than after the
  -- maintenance.
  pub enqueue_cooling :
      {q : Queue} {until : ℕ}
      → IsBounded q
      → lookup k q.cooldown_until ≡ some until
      → now < until
      → ((enqueue now row q).1 ≡ false)
        × ((enqueue now row q).0.entries ≡ q.entries)
        × ((enqueue now row q).0.cooldown_until ≡ q.cooldown_until)
        × ((enqueue now row q).0.cooldown_skipped ≡ (maintenance now q).cooldown_skipped + 1)
  unfolding enqueue_at
  enqueue_cooling {q} {until} b p lt =
      let r = maintenance now q in
      let same : r.cooldown_until ≡ q.cooldown_until = maintenance_cooldown now b in
      let found : get_or k 0 r.cooldown_until ≡ until =
        get_or-some k 0 until r.cooldown_until (rw same p) in
      let refused : enqueue now row q
          ≡ (record r { cooldown_skipped = r.cooldown_skipped + 1 }, false) =
        reaches now candidate q
        ∙ ap (λ u. enqueue_after u now (text_of (normalize_token row.token)) k row r) found
        ∙ rw (lt→ltb now until lt) in
      (
        ap (λ s. s.1) refused,
        ap (λ s. (s.0).entries) refused ∙ (maintenance_same now q).entries_eq,
        ap (λ s. (s.0).cooldown_until) refused ∙ same,
        ap (λ s. (s.0).cooldown_skipped) refused,
      )

  -- In a queue within its bounds, a candidate without a cooldown whose identity has an entry is
  -- accepted, and adds none: the newest row, its priority and the reading replace those of the
  -- entry, under the time at which the identity was first seen.
  pub enqueue_duplicate :
      {q : Queue} {old : Entry}
      → IsBounded q
      → lookup k q.cooldown_until ≡ none
      → lookup k q.entries ≡ some old
      → (new : Entry) × ((enqueue now row q).1 ≡ true)
        × (lookup k (enqueue now row q).0.entries ≡ some new)
        × (new.row ≡ normalized_row (text_of (normalize_token row.token)) k row)
        × (new.priority ≡ priority_of row)
        × (new.first_seen ≡ old.first_seen)
        × (new.last_seen ≡ now)
        × (length (enqueue now row q).0.entries ≡ length q.entries)
  unfolding admit
  enqueue_duplicate {q} {old} b free known =
      let r = maintenance now q in
      let kept : lookup k r.entries ≡ some old = rw (maintenance_same now q).entries_eq known in
      let row' = normalized_row (text_of (normalize_token row.token)) k row in
      let r' = record r { duplicate_collapsed = r.duplicate_collapsed + 1 } in
      let new = stored_entry row' (priority_of row) old.first_seen now r' in
      let stored : enqueue now row q
          ≡ (store k row' (priority_of row) old.first_seen now r', true) =
        admits now candidate b free ∙ rw (admit, kept) in
      let entries : (enqueue now row q).0.entries ≡ insert k new r.entries =
        ap (λ s. (s.0).entries) stored
        ∙ entries-store k row' (priority_of row) old.first_seen now r' in
      (
        new,
        ap (λ s. s.1) stored,
        rw entries (lookup-insert_self k new r.entries),
        refl,
        refl,
        refl,
        refl,
        rw (
          entries,
          length-insert_old k new old r.entries kept,
          (maintenance_same now q).entries_eq,
        ),
      )

  -- What a full queue does with a new identity, given the worst live entry.
  pub data Contest (q : Queue) (j : Text) (w : Entry) : Type 0 where
    rejected :
        lex_leb (priority_tuple (priority_of row)) (priority_tuple w.priority) ≡ true
        → (enqueue now row q).1 ≡ false
        → (enqueue now row q).0.entries ≡ q.entries
        → Contest q j w
    replaced :
        (new : Entry)
        → lex_leb (priority_tuple (priority_of row)) (priority_tuple w.priority) ≡ false
        → (enqueue now row q).1 ≡ true
        → (enqueue now row q).0.entries ≡ insert k new (erase j q.entries)
        → new.row ≡ normalized_row (text_of (normalize_token row.token)) k row
        → new.priority ≡ priority_of row
        → new.first_seen ≡ now
        → Contest q j w

  -- In a full queue with the invariant and the bounds, a candidate without a cooldown and without
  -- an entry is weighed against a worst live entry: if its priority is not above that one it is
  -- turned away and no entry changes, and otherwise it is accepted, that entry goes, and the
  -- others stay.
  pub enqueue_full :
      {q : Queue}
      → IsValid q
      → IsBounded q
      → lookup k q.cooldown_until ≡ none
      → lookup k q.entries ≡ none
      → q.max_pending ≤ length q.entries
      → (j : Text) × (w : Entry) × IsWorst q.entries j w × Contest q j w
  unfolding admit replace_worst clean_worst_heap
  enqueue_full {q} v b free new full =
      let r = maintenance now q in
      let same = maintenance_same now q in
      let p = priority_of row in
      let row' = normalized_row (text_of (normalize_token row.token)) k row in
      let full' : r.max_pending ≤ length r.entries = rw (same.max_eq, same.entries_eq) full in
      let new' : lookup k r.entries ≡ none = rw same.entries_eq new in
      let (j, w, found, worst) = full-IsWorst (maintenance-IsValid now v) full' in
      let contest : enqueue now row q
          ≡ replace_worst k row' p now (clean_worst_heap r, some (priority_tuple w.priority, j)) =
        admits now candidate b free
        ∙ rw (admit, new', le→leb r.max_pending (length r.entries) full')
            (ap (replace_worst k row' p now) found) in
      let c = record r {
        worst_heap = (clean_worst_heap r).worst_heap;
        entries = erase j r.entries;
        evicted_low_priority = r.evicted_low_priority + 1;
      } in
      (
        j,
        w,
        subst (λ d. IsWorst d j w) same.entries_eq worst,
        elim (Bool-cases (lex_leb (priority_tuple p) (priority_tuple w.priority))) [
          | inl le ↦
              let no_change : enqueue now row q ≡ (
                record (clean_worst_heap r) { overflow_rejected = r.overflow_rejected + 1 },
                false,
              ) =
                contest ∙ rw le in
              rejected le (ap (λ s. s.1) no_change)
                (ap (λ s. (s.0).entries) no_change ∙ same.entries_eq)
          | inr gt ↦
              let change : enqueue now row q ≡ (store k row' p now now c, true) = contest ∙ rw gt in
              replaced (stored_entry row' p now now c) gt (ap (λ s. s.1) change)
                (ap (λ s. (s.0).entries) change
                  ∙ entries-store k row' p now now c
                  ∙ ap (λ d. insert k (stored_entry row' p now now c) (erase j d)) same.entries_eq)
                refl refl refl
        ],
      )

  -- In a queue within its bounds that is not full, a candidate without a cooldown and without an
  -- entry is accepted: its row, its priority and the reading as first seen become an entry, and
  -- the others stay.
  enqueue_new :
      {q : Queue}
      → IsBounded q
      → lookup k q.cooldown_until ≡ none
      → lookup k q.entries ≡ none
      → length q.entries < q.max_pending
      → (new : Entry) × ((enqueue now row q).1 ≡ true)
        × ((enqueue now row q).0.entries ≡ insert k new q.entries)
        × (new.row ≡ normalized_row (text_of (normalize_token row.token)) k row)
        × (new.priority ≡ priority_of row)
        × (new.first_seen ≡ now)
  unfolding admit
  enqueue_new {q} b free new room =
      let r = maintenance now q in
      let same = maintenance_same now q in
      let p = priority_of row in
      let row' = normalized_row (text_of (normalize_token row.token)) k row in
      let open_end : leb r.max_pending (length r.entries) ≡ false =
        rw (same.max_eq, same.entries_eq) (ground arith) in
      let new' : lookup k r.entries ≡ none = rw same.entries_eq new in
      let stored : enqueue now row q ≡ (store k row' p now now r, true) =
        admits now candidate b free ∙ rw (admit, new', open_end) in
      (
        stored_entry row' p now now r,
        ap (λ s. s.1) stored,
        ap (λ s. (s.0).entries) stored
            ∙ entries-store k row' p now now r
            ∙ ap (insert k (stored_entry row' p now now r)) same.entries_eq,
        refl,
        refl,
        refl,
      )
