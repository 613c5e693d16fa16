-- ===== src/Digest/Order.antt =====
-- The order of the alert queue: the tuples of `alert_sort_key` of app/alerts.py, compared as Python
-- compares tuples, and a stable sort by them.
use Prim.Native.Char.{code}
use underlying_analyzer_rebo.Base.{
  ℕ, ◌≡◌, refl, String, Bool, true, false, arith, if◌then◌else◌, ltb, nat_eq,
}
use underlying_analyzer_rebo.Base.Int.{ℤ, leb_ℤ, eq_ℤ}

-- `s <= t` of two texts, by their code points.
unfoldable pub text_leb : String → String → Bool
text_leb String.[] t = true
text_leb (String.◌∷◌ c s) String.[] = false
text_leb (String.◌∷◌ c s) (String.◌∷◌ d t) =
    let rest = text_leb s t in if nat_eq (code c) (code d) then rest else ltb (code c) (code d)

-- The parts of a sort key, with the severity and the score before they are negated.
pub record SortKey : Type 0 where
  pub severity : ℕ
  pub score : ℤ
  pub rank : ℤ
  pub id : String

-- `(-severity, -score, rank, id) <= ...`
unfoldable pub key_leb : SortKey → SortKey → Bool
key_leb a b =
    if nat_eq a.severity b.severity
    then (if eq_ℤ a.score b.score
        then (if eq_ℤ a.rank b.rank then text_leb a.id b.id else leb_ℤ a.rank b.rank)
        else leb_ℤ b.score a.score)
    else ltb b.severity a.severity

pub text_leb_total : (s t : String) → text_leb s t ≡ false → text_leb t s ≡ true
unfolding text_leb
text_leb_total String.[] t h = absurd (ground arith)
text_leb_total (String.◌∷◌ c s) String.[] h = refl
text_leb_total (String.◌∷◌ c s) (String.◌∷◌ d t) h = ground (arith, text_leb_total s t)

pub text_leb_trans :
    (s t u : String) → text_leb s t ≡ true → text_leb t u ≡ true → text_leb s u ≡ true
unfolding text_leb
text_leb_trans String.[] t u h k = refl
text_leb_trans (String.◌∷◌ c s) String.[] u h k = absurd (ground arith)
text_leb_trans (String.◌∷◌ c s) (String.◌∷◌ d t) String.[] h k = absurd (ground arith)
text_leb_trans (String.◌∷◌ c s) (String.◌∷◌ d t) (String.◌∷◌ e u) h k =
    ground (arith, text_leb_trans s t u)

pub key_leb_total : (a b : SortKey) → key_leb a b ≡ false → key_leb b a ≡ true
unfolding key_leb
key_leb_total a b h = ground (arith, text_leb_total a.id b.id)

pub key_leb_trans : (a b c : SortKey) → key_leb a b ≡ true → key_leb b c ≡ true → key_leb a c ≡ true
unfolding key_leb
key_leb_trans a b c h k = ground (arith, text_leb_trans a.id b.id c.id)
