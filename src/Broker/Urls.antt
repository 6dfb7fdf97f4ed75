-- ===== src/Broker/Urls.antt =====
-- The endpoints of a new broker of app/dex/provider_broker.py.
use coinoskobi_dexbot.Common.{
  suc, ◌≤◌, ◌<◌, true, false, not, ◌&&◌, ◌≡◌, refl, ◌⊎◌, inl, inr, List, [], ◌∷◌, ◌++◌, length,
  length-append, All, In, nat_eq, if◌then◌else◌, if_cases, arith, map, ap, Bool-cases,
}
use coinoskobi_dexbot.Common.Int.{ℤ}
use coinoskobi_dexbot.Common.Dict.{Dict}
use coinoskobi_dexbot.Common.Text.{Text, text_eq, text_eq_iff, strip}
use coinoskobi_dexbot.Row.{nonempty}
use coinoskobi_dexbot.Broker.State.{
  Role, roles, text_in, unique_from, unique_urls, Item, new_items, new_broker,
}

-- Each URL is not empty and none comes again.
abbrev pub Distinct : List Text → Type 0
Distinct [] = Unit
Distinct (x ∷ xs) = (nonempty x ≡ true) × (text_in x xs ≡ false) × Distinct xs

text_in-append :
    (s url : Text) (xs : List Text)
    → text_in s xs ≡ false
    → text_eq s url ≡ false
    → text_in s (xs ++ url ∷ []) ≡ false
text_in-append s url [] h n = ground arith
text_in-append s url (x ∷ xs) h n = ground (arith, text_in-append s url xs)

append-Distinct :
    (url : Text) (xs : List Text)
    → nonempty url ≡ true
    → text_in url xs ≡ false
    → Distinct xs
    → Distinct (xs ++ url ∷ [])
append-Distinct url [] n h d = (n, refl, tt)
append-Distinct url (x ∷ xs) n h d =
    ground
      (arith, append-Distinct url xs, text_in-append x url xs, text_eq_iff x url, text_eq_iff url x)

-- What the loop has found: distinct URLs, no more than there are roles.
abbrev IsShort : List Text → Type 0
IsShort xs = Distinct xs × (length xs ≤ 4)

unique_from_lem :
    (result values : List Text)
    → Distinct result
    → length result < 4
    → IsShort (unique_from result values)
unfolding unique_from
unique_from_lem result [] d lt = (d, omega arith)
unique_from_lem result (value ∷ values) d lt =
    let url = strip value in
    let more = result ++ url ∷ [] in
    let n : length more ≡ suc (length result) = omega (arith, length-append result (url ∷ [])) in
    if_cases
      (λ (r : List Text).
        IsShort (if nat_eq (length r) (length roles) then r else unique_from r values))
      (nonempty url && not (text_in url result))
      (λ fresh.
        let long : Distinct more = ground (arith, append-Distinct url result) in
        if_cases IsShort (nat_eq (length more) (length roles)) (λ e. (long, omega (arith, n, lt)))
          (λ e. unique_from_lem more values long (ground (arith, n))))
      (λ old.
        if_cases IsShort (nat_eq (length result) (length roles)) (λ e. (d, omega arith))
          (λ e. unique_from_lem result values d lt))

text_in-append_old :
    (s url : Text) (xs : List Text) → text_in s xs ≡ true → text_in s (xs ++ url ∷ []) ≡ true
text_in-append_old s url [] h = absurd cc
text_in-append_old s url (x ∷ xs) h = ground (arith, text_in-append_old s url xs)

text_in-append_new : (url : Text) (xs : List Text) → text_in url (xs ++ url ∷ []) ≡ true
text_in-append_new url [] = ground (arith, text_eq_iff url url)
text_in-append_new url (x ∷ xs) = ground (arith, text_in-append_new url xs)

unique_from-keeps :
    (s : Text) (result values : List Text)
    → text_in s result ≡ true
    → text_in s (unique_from result values) ≡ true
unfolding unique_from
unique_from-keeps s result [] h = h
unique_from-keeps s result (value ∷ values) h = ground (
  arith,
  unique_from-keeps s result values,
  unique_from-keeps s (result ++ strip value ∷ []) values,
  text_in-append_old s (strip value) result,
)

-- A URL that is not empty is found, unless as many as there are roles are.
unique_from-all :
    (value : Text) (result values : List Text)
    → In value values
    → nonempty (strip value) ≡ true
    → (text_in (strip value) (unique_from result values) ≡ true)
      ⊎ (length (unique_from result values) ≡ 4)
unfolding unique_from
unique_from-all value result [] m n = absurd m
unique_from-all value result (x ∷ values) m n =
    let more = result ++ strip x ∷ [] in
    let e : value ≡ x → strip value ≡ strip x = ap strip in
    ground (
      arith,
      e,
      unique_from-all value result values,
      unique_from-all value more values,
      unique_from-keeps (strip value) result values,
      unique_from-keeps (strip value) more values,
      text_in-append_new (strip x) result,
    )

clients-new_items :
    (rs : List Role) (urls : List Text)
    → length urls ≤ length rs
    → map (λ (item : Item). item.client) (new_items rs urls) ≡ urls
unfolding new_items
clients-new_items [] [] h = refl
clients-new_items [] (url ∷ urls) h = absurd (omega arith)
clients-new_items (role ∷ rs) [] h = refl
clients-new_items (role ∷ rs) (url ∷ urls) h =
    ap (◌∷◌ url) (clients-new_items rs urls (omega arith))

All-of : (P : Text → Type 0) (xs : List Text) → ((x : Text) → In x xs → P x) → All P xs
All-of P [] f = tt
All-of P (x ∷ xs) f = (f x (inl refl), All-of P xs λ y m. f y (inr m))

-- A new broker has at most four providers, whatever URLs it is given; their clients are distinct
-- URLs that are not empty. Each URL of the list is empty, or is a client's without its blanks, or
-- there are four clients.
pub new_broker-clients :
    (urls : List Text) (cooldown transient : ℤ) (ttls : Dict Text ℤ)
    → let clients =
        map (λ (item : Item). item.client) (new_broker urls cooldown transient ttls).providers in
      Distinct clients
      × (length clients ≤ 4)
      × All
          (λ url.
            (nonempty (strip url) ≡ false)
            ⊎ (text_in (strip url) clients ≡ true)
            ⊎ (length clients ≡ 4))
          urls
unfolding new_broker unique_urls
new_broker-clients urls cooldown transient ttls =
    let found = unique_from_lem [] urls tt (omega arith) in
    let same = clients-new_items roles (unique_urls urls) found.1 in
    rw same (
      found.0,
      found.1,
      All-of _ urls λ url m. elim (Bool-cases (nonempty (strip url))) [
        | inl some_url ↦ inr (unique_from-all url [] urls m some_url)
        | inr blank ↦ inl blank
      ],
    )
