-- ===== src/Ledger/OneOpen.antt =====
-- Open positions of one token in the table of app/paper/database.py.
use coinoskobi_dexbot.Common.{
  Bool, true, false, ◌≡◌, refl, Option, none, some, List, [], ◌∷◌, ◌++◌, if◌then◌else◌, arith,
}
use coinoskobi_dexbot.Common.Text.{Text, text_eq_iff, lower}
use coinoskobi_dexbot.Ledger.Trade.{Trade}
use coinoskobi_dexbot.Ledger.Store.{
  is_open, exists, same_token, clash, is_taken, has_clash, update_where,
}

same_token-sym : (a b : Option Text) → same_token a b ≡ false → same_token b a ≡ false
unfolding same_token
same_token-sym none none h = refl
same_token-sym none (some b) h = refl
same_token-sym (some a) none h = refl
same_token-sym (some a) (some b) h =
    ground (arith, text_eq_iff (lower a) (lower b), text_eq_iff (lower b) (lower a))

clash-sym : (t u : Trade) → clash t u ≡ false → clash u t ≡ false
unfolding clash
clash-sym t u h = ground (arith, same_token-sym t.token u.token)

taken-append :
    (t u : Trade) (ts : List Trade)
    → is_taken t ts ≡ false
    → clash t u ≡ false
    → is_taken t (ts ++ u ∷ []) ≡ false
unfolding is_taken exists
taken-append t u [] h n = rw n refl
taken-append t u (x ∷ ts) h n = ground (arith, taken-append t u ts)

pub append-clash :
    (u : Trade) (ts : List Trade)
    → has_clash ts ≡ false
    → is_taken u ts ≡ false
    → has_clash (ts ++ u ∷ []) ≡ false
unfolding has_clash is_taken exists
append-clash u [] h n = refl
append-clash u (t ∷ ts) h n = ground (arith, append-clash u ts, taken-append t u ts, clash-sym u t)

-- A change that opens nothing, and keeps the token of what stays open.
abbrev pub Closes : (Trade → Trade) → Type 0
Closes f = (t : Trade) → is_open (f t) ≡ true → (is_open t ≡ true) × ((f t).token ≡ t.token)

clash-closing :
    (f : Trade → Trade) (t u : Trade) (a b : Bool)
    → Closes f
    → clash t u ≡ false
    → clash (if a then f t else t) (if b then f u else u) ≡ false
unfolding clash
clash-closing f t u true true c h = ground (arith, c t, c u)
clash-closing f t u true false c h = ground (arith, c t)
clash-closing f t u false true c h = ground (arith, c u)
clash-closing f t u false false c h = h

taken-closing :
    (p : Trade → Bool) (f : Trade → Trade) (a : Bool) (t : Trade) (ts : List Trade)
    → Closes f
    → is_taken t ts ≡ false
    → is_taken (if a then f t else t) (update_where p f ts) ≡ false
unfolding is_taken exists update_where
taken-closing p f a t [] c h = refl
taken-closing p f a t (u ∷ ts) c h =
    ground (arith, taken-closing p f a t ts c, clash-closing f t u a (p u) c)

pub update-clash :
    (p : Trade → Bool) (f : Trade → Trade) (ts : List Trade)
    → Closes f
    → has_clash ts ≡ false
    → has_clash (update_where p f ts) ≡ false
unfolding has_clash update_where
update-clash p f [] c h = refl
update-clash p f (t ∷ ts) c h =
    ground (arith, update-clash p f ts c, taken-closing p f (p t) t ts c)
