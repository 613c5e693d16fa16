-- ===== src/Digest/Counts.antt =====
-- The numbers of a digest of app/alerts.py, and of `meta` in app/main.py, count the alerts returned.
use underlying_analyzer_rebo.Base.{
  ℕ, suc, ◌+◌, ◌≡◌, refl, ap, ◌∙◌, ◌⊎◌, inl, inr, String, Option, none, some, List, [], ◌∷◌, arith,
  ◌==◌, eq_iff, if◌then◌else◌, length, Bool-cases,
}
use underlying_analyzer_rebo.Base.Int.{ℤ, pos}
use underlying_analyzer_rebo.Value.{Value, int, obj, Fields, no_fields}
use underlying_analyzer_rebo.Value.Access.{get, get_value, put, as_dict, get-put}
use underlying_analyzer_rebo.Value.Show.{Python}
use underlying_analyzer_rebo.Digest.Queue.{
  count_at, one_more, counter_from, counter, column, digest_of,
}
use underlying_analyzer_rebo.Digest.Build.{dicts, Cockpit, severity_count, meta_of, response_of}

abbrev pub occurrences : String → List String → ℕ
occurrences text [] = 0
occurrences text (t ∷ ts) = if t == text then suc (occurrences text ts) else occurrences text ts

-- What a dict of counts holds for a text that was counted `n` times.
abbrev IsCount : Option Value → ℕ → Type 0
IsCount o n = ((o ≡ none) × (n ≡ 0)) ⊎ (o ≡ some (int (pos n)))

counted_once :
    (text : String) (counts : Fields) (n : ℕ)
    → IsCount (get text counts) n
    → int (one_more (count_at (get_value text counts))) ≡ int (pos (suc n))
counted_once text counts n (inl (absent, none_yet)) = rw (absent, none_yet)
counted_once text counts n (inr there) = rw there

counter_from-IsCount :
    (text : String) (counts : Fields) (ts : List String) (n : ℕ)
    → IsCount (get text counts) n
    → IsCount (get text (counter_from counts ts)) (n + occurrences text ts)
unfolding counter_from
counter_from-IsCount text counts [] n h = let same : n + 0 ≡ n = omega arith in rw same h
counter_from-IsCount text counts (t ∷ ts) n h =
    let next = put t (int (one_more (count_at (get_value t counts)))) counts in
    elim (Bool-cases (t == text)) [
      | inl same ↦
          let is_text : t ≡ text = (eq_iff t text).0 same in
          let more : n + suc (occurrences text ts) ≡ suc n + occurrences text ts = omega arith in
          let found : get text next ≡ some (int (pos (suc n))) =
            rw (get-put t text (int (one_more (count_at (get_value t counts)))) counts, same)
              (ap some (rw (← is_text) at (counted_once text counts n h))) in
          rw (same, more) (counter_from-IsCount text next ts (suc n) (inr found))
      | inr other ↦
          let kept : get text next ≡ get text counts =
            rw (get-put t text (int (one_more (count_at (get_value t counts)))) counts, other) in
          rw other (counter_from-IsCount text next ts n (rw kept h))
    ]

count_shown :
    (o : Option Value) (n : ℕ)
    → IsCount o n
    → elim o [ none ↦ int (pos 0) | some v ↦ v ] ≡ int (pos n)
count_shown o n (inl (absent, none_yet)) = rw (absent, none_yet)
count_shown o n (inr there) = rw there

pub digest_of-counts :
    (py : Python) (generated_at : String) (rows alerts : List Fields)
    (severities categories : Option (List String)) (digest : Fields)
    → digest_of py generated_at rows alerts severities categories ≡ some digest
    → (ts : List String) × (severities ≡ some ts)
      × (get_value "severity_counts" digest ≡ obj (counter ts))
unfolding get
digest_of-counts py generated_at rows alerts (some ts) (some cs) digest h =
    (ts, refl, ground (arith, h))
digest_of-counts py generated_at rows alerts (some ts) none digest h = absurd (ground arith)
digest_of-counts py generated_at rows alerts none cs digest h = absurd (ground arith)

severity_count-counter :
    (severity : String) (digest : Fields) (ts : List String)
    → get_value "severity_counts" digest ≡ obj (counter ts)
    → severity_count severity digest ≡ int (pos (occurrences severity ts))
unfolding get
severity_count-counter severity digest ts h =
    let counted = counter_from-IsCount severity no_fields ts 0 (inl (refl, refl)) in
    let same : 0 + occurrences severity ts ≡ occurrences severity ts = omega arith in
    rw (h, severity_count)
      (count_shown (get severity (counter ts)) (occurrences severity ts) (rw same at counted))

-- `meta` tells how many alerts there are, and how many of each severity.
abbrev pub IsReport : Python → Fields → List Fields → Type 0
IsReport py response alerts =
    let meta = as_dict (get_value "meta" response) in
    (get_value "alerts" response ≡ dicts alerts)
    × (get_value "alert_count" meta ≡ int (pos (length alerts)))
    × ((severities : List String) × (column py "severity" alerts ≡ some severities)
        × (get_value "high_alert_count" meta ≡ int (pos (occurrences "High" severities)))
        × (get_value "medium_alert_count" meta ≡ int (pos (occurrences "Medium" severities)))
        × (get_value "info_alert_count" meta ≡ int (pos (occurrences "Info" severities))))

meta_of-counts :
    (cockpit : Cockpit) (threshold : ℤ) (min_materiality : Option String) (alerts : List Fields)
    (digest : Fields)
    → let meta = meta_of cockpit threshold min_materiality alerts digest in
      (get_value "alert_count" meta ≡ int (pos (length alerts)))
      × (get_value "high_alert_count" meta ≡ severity_count "High" digest)
      × (get_value "medium_alert_count" meta ≡ severity_count "Medium" digest)
      × (get_value "info_alert_count" meta ≡ severity_count "Info" digest)
unfolding meta_of
meta_of-counts cockpit threshold min_materiality alerts digest =
    (simp get-put, simp get-put, simp get-put, simp get-put)

pub response_of-IsReport :
    (py : Python) (cockpit : Cockpit) (exported_at : String) (threshold : ℤ)
    (min_materiality : Option String) (tickers severities : List String) (alerts : List Fields)
    (digest : Fields)
    → column py "severity" alerts ≡ some severities
    → get_value "severity_counts" digest ≡ obj (counter severities)
    → IsReport py
        (response_of cockpit exported_at threshold min_materiality tickers alerts digest)
        alerts
unfolding response_of get
response_of-IsReport py cockpit exported_at threshold min_materiality tickers severities alerts
      digest read counted =
    let (all, high, medium, info) =
      meta_of-counts cockpit threshold min_materiality alerts digest in
    (
      refl,
      all,
      (
        severities,
        read,
        high ∙ severity_count-counter "High" digest severities counted,
        medium ∙ severity_count-counter "Medium" digest severities counted,
        info ∙ severity_count-counter "Info" digest severities counted,
      ),
    )
