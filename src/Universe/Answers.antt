-- ===== src/Universe/Answers.antt =====
-- What the scheduler of app/universe/scheduler.py may be answered by its client.
use coinoskobi_dexbot.Common.{true, ◌≡◌, refl, Option, none, some, List, [], ◌∷◌, All}
use coinoskobi_dexbot.Universe.Registry.{Pool, Snapshot, Display, is_sourced}
use coinoskobi_dexbot.Universe.Display.{display_of, displays_of}
use coinoskobi_dexbot.Universe.Recording.{IsAsked}

-- A snapshot of a row that was asked for, with a source, a time, and tokens that are addresses if
-- it is to be shown.
pub record IsWhole (due : List Pool) (s : Snapshot) : Type 0 where
  pub asked : IsAsked due s
  pub sourced : is_sourced s ≡ true
  pub shown : (row : Option Display) × (display_of s ≡ some row)

-- What a fetch may answer: an error, or such snapshots.
abbrev pub IsAnswer : List Pool → Option (List Snapshot) → Type 0
IsAnswer due none = Unit
IsAnswer due (some snapshots) = All (IsWhole due) snapshots

pub whole-IsAsked :
    (due : List Pool) (snapshots : List Snapshot)
    → All (IsWhole due) snapshots
    → All (IsAsked due) snapshots
whole-IsAsked due [] a = tt
whole-IsAsked due (s ∷ snapshots) a = (a.0.asked, whole-IsAsked due snapshots a.1)

pub whole_sourced :
    (due : List Pool) (snapshots : List Snapshot)
    → All (IsWhole due) snapshots
    → All (λ s. is_sourced s ≡ true) snapshots
whole_sourced due [] a = tt
whole_sourced due (s ∷ snapshots) a = (a.0.sourced, whole_sourced due snapshots a.1)

pub displays_lem :
    (due : List Pool) (snapshots : List Snapshot)
    → All (IsWhole due) snapshots
    → (rows : List Display) × (displays_of snapshots ≡ some rows)
unfolding displays_of
displays_lem due [] a = ([], refl)
displays_lem due (s ∷ snapshots) a =
    let (row, e) = a.0.shown in
    let (rows, f) = displays_lem due snapshots a.1 in
    (elim row [ none ↦ rows | some x ↦ x ∷ rows ], rw (e, f) refl)
