-- ===== src/Digest/Sorted.antt =====
-- The page of alerts of app/alerts.py is the head of a sorted queue of all alerts.
use mathlib.Core.List.{Perm}
use mathlib.Core.List.Perm
use underlying_analyzer_rebo.Base.{
  ◌≡◌, refl, ap, inl, inr, true, some, List, [], ◌∷◌, All, map, Bool-cases,
}
use underlying_analyzer_rebo.Base.Int.{ℤ, truncate}
use underlying_analyzer_rebo.Value.{Fields}
use underlying_analyzer_rebo.Value.Access.{get_value}
use underlying_analyzer_rebo.Value.Show.{Python, str_of}
use underlying_analyzer_rebo.Alerts.Rules.{shown_or, one_quanta}
use underlying_analyzer_rebo.Digest.Rows.{Format}
use underlying_analyzer_rebo.Digest.Order.{SortKey, key_leb, key_leb_total, key_leb_trans}
use underlying_analyzer_rebo.Digest.Queue.{
  KeyedAlert, alert_sort_key, severity_order, keyed, insert_entry, sort_entries, slice_to,
  all_alerts,
}
use underlying_analyzer_rebo.Digest.Build.{page}
use underlying_analyzer_rebo.Digest.Numbers.{RowFits, IsSortable, all_alerts-some}

-- No entry comes before one that its key puts first.
abbrev pub IsSorted : List KeyedAlert → Type 0
IsSorted [] = Unit
IsSorted (x ∷ xs) = All (λ (y : KeyedAlert). key_leb x.0 y.0 ≡ true) xs × IsSorted xs

-- Each entry carries the key of its alert.
abbrev pub HasKey : Python → KeyedAlert → Type 0
HasKey py e = alert_sort_key py e.1 ≡ some e.0

insert_entry-All :
    (P : KeyedAlert → Type 0) (x : KeyedAlert) (ys : List KeyedAlert)
    → P x
    → All P ys
    → All P (insert_entry x ys)
unfolding insert_entry
insert_entry-All P x [] h k = (h, tt)
insert_entry-All P x (y ∷ ys) h (k, ks) = elim (Bool-cases (key_leb x.0 y.0)) [
  | inl first ↦ rw first (h, (k, ks))
  | inr later ↦ rw later (k, insert_entry-All P x ys h ks)
]

below_all :
    (a b : SortKey) (ys : List KeyedAlert)
    → key_leb a b ≡ true
    → All (λ (y : KeyedAlert). key_leb b y.0 ≡ true) ys
    → All (λ (y : KeyedAlert). key_leb a y.0 ≡ true) ys
below_all a b [] h k = tt
below_all a b (y ∷ ys) h (k, ks) = (key_leb_trans a b y.0 h k, below_all a b ys h ks)

insert_entry-IsSorted :
    (x : KeyedAlert) (ys : List KeyedAlert) → IsSorted ys → IsSorted (insert_entry x ys)
unfolding insert_entry
insert_entry-IsSorted x [] h = (tt, tt)
insert_entry-IsSorted x (y ∷ ys) (h, hs) = elim (Bool-cases (key_leb x.0 y.0)) [
  | inl first ↦ rw first ((first, below_all x.0 y.0 ys first h), (h, hs))
  | inr later ↦ rw later (
    insert_entry-All (λ (z : KeyedAlert). key_leb y.0 z.0 ≡ true) x ys (key_leb_total x.0 y.0 later)
        h,
    insert_entry-IsSorted x ys hs,
  )
]

insert_entry-perm : (x : KeyedAlert) (ys : List KeyedAlert) → Perm (insert_entry x ys) (x ∷ ys)
unfolding insert_entry
insert_entry-perm x [] = Perm.rfl
insert_entry-perm x (y ∷ ys) = elim (Bool-cases (key_leb x.0 y.0)) [
  | inl first ↦ rw first Perm.rfl
  | inr later ↦ rw later (Perm.trans (Perm.cons y (insert_entry-perm x ys)) (Perm.swap x y ys))
]

sort_entries-IsSorted : (xs : List KeyedAlert) → IsSorted (sort_entries xs)
unfolding sort_entries
sort_entries-IsSorted [] = tt
sort_entries-IsSorted (x ∷ xs) =
    insert_entry-IsSorted x (sort_entries xs) (sort_entries-IsSorted xs)

sort_entries-perm : (xs : List KeyedAlert) → Perm (sort_entries xs) xs
unfolding sort_entries
sort_entries-perm [] = Perm.rfl
sort_entries-perm (x ∷ xs) =
    Perm.trans (insert_entry-perm x (sort_entries xs)) (Perm.cons x (sort_entries-perm xs))

pub sort_entries-All :
    (P : KeyedAlert → Type 0) (xs : List KeyedAlert) → All P xs → All P (sort_entries xs)
unfolding sort_entries
sort_entries-All P [] h = tt
sort_entries-All P (x ∷ xs) (h, hs) =
    insert_entry-All P x (sort_entries xs) h (sort_entries-All P xs hs)

module _ (py : Python) where
  alert_sort_key-some :
      (alert : Fields)
      → IsSortable py alert
      → (key : SortKey) × (alert_sort_key py alert ≡ some key)
  unfolding alert_sort_key
  alert_sort_key-some alert ((score, scored), (rank, ranked)) =
      let key : SortKey = record {
        severity = severity_order (str_of py (get_value "severity" alert));
        score = score;
        rank = truncate rank one_quanta;
        id = shown_or py (get_value "id" alert) "";
      } in
      (key, rw (scored, ranked))

  pub keyed-some :
      (alerts : List Fields)
      → All (IsSortable py) alerts
      → (entries : List KeyedAlert) × (keyed py alerts ≡ some entries)
        × All (HasKey py) entries
        × (map (λ e. e.1) entries ≡ alerts)
  unfolding keyed
  keyed-some [] h = ([], refl, tt, refl)
  keyed-some (alert ∷ alerts) (sortable, h) =
      let (key, there) = alert_sort_key-some alert sortable in
      let (entries, others, hold, same) = keyed-some alerts h in
      ((key, alert) ∷ entries, rw (there, others), (there, hold), ap (◌∷◌ alert) same)

-- The page is cut from a queue of all alerts, in the order of their keys.
abbrev pub IsPageOf : Format → ℤ → ℤ → List Fields → List Fields → Type 0
IsPageOf format max_alerts threshold rows shown =
    (all : List Fields) × (queue : List KeyedAlert) × (all_alerts format threshold rows ≡ some all)
    × Perm (map (λ e. e.1) queue) all
    × All (HasKey format.py) queue
    × IsSorted queue
    × (shown ≡ slice_to max_alerts (map (λ e. e.1) queue))

module _ (format : Format) (threshold : ℤ) where
  -- Where the score, rank and volatility of the rows are no integers that are too large for a float, nor
  -- the rank when it has become an integer, the page of alerts is made: it holds the first `max_alerts`
  -- of a queue that has every alert of every row as often as the rows give it, and is sorted by
  -- severity, score, rank and id as `alert_sort_key` compares them.
  pub page-IsPageOf :
      (max_alerts : ℤ) (rows : List Fields)
      → All (RowFits format.py) rows
      → (shown : List Fields) × (page format max_alerts threshold rows ≡ some shown)
        × IsPageOf format max_alerts threshold rows shown
  unfolding page
  page-IsPageOf max_alerts rows fits =
      let (all, there, sortable) = all_alerts-some format threshold rows fits in
      let (entries, keyed_all, hold, same) = keyed-some format.py all sortable in
      let queue = sort_entries entries in
      (
        slice_to max_alerts (map (λ e. e.1) queue),
        rw (there, keyed_all) refl,
        (
          all,
          queue,
          there,
          rw same at (Perm.map (λ (e : KeyedAlert). e.1) (sort_entries-perm entries)),
          sort_entries-All (HasKey format.py) entries hold,
          sort_entries-IsSorted entries,
          refl,
        ),
      )
