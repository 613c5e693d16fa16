-- ===== src/Jev/Attempts.antt =====
-- How often `ask` of app/jev.py posts, when it waits and for how long.
use native.Mathlib.Nat.{pow-suc}
use underlying_analyzer_rebo.Base.{
  ℕ, zero, suc, ◌+◌, ◌*◌, ◌/◌, ◌^◌, ◌≤◌, ◌<◌, min, ◌≡◌, refl, ap, ◌⊎◌, inl, inr, true, false, List,
  [], ◌∷◌, arith, Bool-cases,
}
use underlying_analyzer_rebo.Base.Result.{◌>>=◌}
use underlying_analyzer_rebo.Value.{Value, Fields}
use underlying_analyzer_rebo.Value.Access.{is_end}
use underlying_analyzer_rebo.Jev.Ask.{
  JevClient, Reply, Wire, JevEffect, posted, slept, base_backoff, max_backoff, backoff_seconds,
  is_busy, settled, Asked, then_after, attempts, read_reply, request_payload, has_api_key, ask,
}

-- What the log holds when attempts `n` to `n + k` were made.
abbrev pub trail : Wire → (n k : ℕ) → List JevEffect
trail wire n zero = posted n ∷ []
trail wire n (suc k) = posted n ∷ slept (backoff_seconds wire n) ∷ trail wire (suc n) k

-- `k` attempts are answered by 429 or 529 and repeated, and the one after them decides: it has
-- another answer or there is no attempt left.
abbrev pub IsDecidedAt : Wire → Value → (left n k : ℕ) → Asked Reply → Type 0
IsDecidedAt wire payload left n k asked =
    (k ≤ left)
    × (asked.log ≡ trail wire n k)
    × (asked.result ≡ settled wire.py (wire.post (n + k) payload))
    × ((j : ℕ) → j < k → is_busy (wire.post (n + j) payload) ≡ true)
    × ((k ≡ left) ⊎ (is_busy (wire.post (n + k) payload) ≡ false))

module _ (wire : Wire) (payload : Value) where
  at_first :
      (left n : ℕ) (asked : Asked Reply)
      → asked.log ≡ trail wire n 0
      → asked.result ≡ settled wire.py (wire.post n payload)
      → ((0 ≡ left) ⊎ (is_busy (wire.post n payload) ≡ false))
      → IsDecidedAt wire payload left n 0 asked
  at_first left n asked log result last =
      let same : n + 0 ≡ n = omega arith in
      rw same (omega arith, log, result, λ j h. absurd (omega arith), last)

  busy_before :
      (n k : ℕ)
      → is_busy (wire.post n payload) ≡ true
      → ((j : ℕ) → j < k → is_busy (wire.post (suc n + j) payload) ≡ true)
      → (j : ℕ) → j < suc k
      → is_busy (wire.post (n + j) payload) ≡ true
  busy_before n k now later zero h = let same : n + 0 ≡ n = omega arith in rw same now
  busy_before n k now later (suc j) h =
      let same : n + suc j ≡ suc n + j = omega arith in rw same (later j (omega arith))

  at_next :
      (left n k : ℕ) (asked : Asked Reply)
      → is_busy (wire.post n payload) ≡ true
      → IsDecidedAt wire payload left (suc n) k asked
      → IsDecidedAt wire payload
          (suc left)
          n
          (suc k)
          (then_after (posted n) (slept (backoff_seconds wire n)) asked)
  at_next left n k asked busy (le, log, result, before, last) =
      let same : n + suc k ≡ suc n + k = omega arith in
      rw same (
        omega arith,
        ap (λ l. posted n ∷ slept (backoff_seconds wire n) ∷ l) log,
        result,
        busy_before n k busy before,
        elim last [ inl e ↦ inl (ap suc e) | inr free ↦ inr free ],
      )

  pub attempts-IsDecidedAt :
      (left n : ℕ) → (k : ℕ) × IsDecidedAt wire payload left n k (attempts wire payload left n)
  unfolding attempts
  attempts-IsDecidedAt zero n = (0, at_first 0 n _ refl refl (inl refl))
  attempts-IsDecidedAt (suc left) n = elim (Bool-cases (is_busy (wire.post n payload))) [
    | inl busy ↦
        let (k, later) = attempts-IsDecidedAt left (suc n) in
        (suc k, rw (busy, attempts) (at_next left n k _ busy later))
    | inr free ↦ (0, rw (free, attempts) (at_first (suc left) n _ refl refl (inr free)))
  ]

-- `ask` posts at most `max_retries + 1` times: there is a `k` up to `max_retries` such that it posts
-- attempts 0 to `k` and waits between them, each attempt before `k` was answered by 429 or 529, and
-- `k` is `max_retries` or was answered in another way. The result is what that last answer gives.
pub ask_decides :
    (wire : Wire) (client : JevClient) (state : Value) (questions : Fields)
    → has_api_key client.api_key ≡ true
    → is_end questions ≡ false
    → let payload = request_payload client state questions in
      (k : ℕ) × (k ≤ client.max_retries)
      × ((ask wire client state questions).log ≡ trail wire 0 k)
      × ((ask wire client state questions).result
          ≡ (settled wire.py (wire.post k payload) >>= read_reply questions))
      × ((j : ℕ) → j < k → is_busy (wire.post j payload) ≡ true)
      × ((k ≡ client.max_retries) ⊎ (is_busy (wire.post k payload) ≡ false))
unfolding ask
ask_decides wire client state questions key some_question =
    let payload = request_payload client state questions in
    let (k, decided) = attempts-IsDecidedAt wire payload client.max_retries 0 in
    let (le, log, result, before, last) = decided in
    let same : 0 + k ≡ k = omega arith in
    rw (key, some_question)
      (
        k,
        le,
        log,
        ap (λ r. r >>= read_reply questions) (rw same at result),
        (λ j h. let start : j ≡ 0 + j = omega arith in rw start (before j h)),
        rw same at last,
      )

-- What is documented of `random.uniform(0, most)`: it lies between its bounds.
abbrev pub StaysBelow : Wire → Type 0
StaysBelow wire = (n most : ℕ) → wire.uniform n most ≤ most

-- A wait is from half a second to ten seconds.
abbrev pub IsPause : ℕ → Type 0
IsPause seconds = (base_backoff ≤ seconds) × (4 * seconds ≤ 5 * max_backoff)

-- Between any two posts there is a pause, and nothing else is done.
abbrev pub IsPaced : List JevEffect → Type 0
IsPaced [] = Unit
IsPaced (posted n ∷ []) = Unit
IsPaced (posted n ∷ slept seconds ∷ log) = IsPause seconds × IsPaced log
IsPaced _ = ⊥

pow_two_pos : (n : ℕ) → 1 ≤ 2 ^ n
pow_two_pos zero = omega arith
pow_two_pos (suc n) = omega (arith, pow_two_pos n, pow-suc 2 n)

module _ (wire : Wire) (stays : StaysBelow wire) where
  backoff_seconds-IsPause : (n : ℕ) → IsPause (backoff_seconds wire n)
  unfolding backoff_seconds
  backoff_seconds-IsPause n =
      let capped = min (base_backoff * 2 ^ n) max_backoff in
      let most = stays n (capped / 4) in let positive = pow_two_pos n in (omega arith, omega arith)

  trail-IsPaced : (n k : ℕ) → IsPaced (trail wire n k)
  trail-IsPaced n zero = tt
  trail-IsPaced n (suc k) = (backoff_seconds-IsPause n, trail-IsPaced (suc n) k)

-- Whatever the endpoint answers, `ask` never repeats a request at once: between two posts it waits, from
-- half a second to ten seconds. `random.uniform` is taken to lie between its bounds.
pub ask_pauses :
    (wire : Wire) (client : JevClient) (state : Value) (questions : Fields)
    → StaysBelow wire
    → IsPaced (ask wire client state questions).log
unfolding ask
ask_pauses wire client state questions stays = elim (Bool-cases (has_api_key client.api_key)) [
  | inr absent ↦ rw absent tt
  | inl key ↦ elim (Bool-cases (is_end questions)) [
    | inl none_asked ↦ rw (key, none_asked) tt
    | inr some_question ↦
        let (k, decided) =
          attempts-IsDecidedAt wire (request_payload client state questions) client.max_retries 0 in
        rw (key, some_question) (rw decided.1 (trail-IsPaced wire stays 0 k))
  ]
]
