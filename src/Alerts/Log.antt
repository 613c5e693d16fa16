-- ===== src/Alerts/Log.antt =====
-- What the scheduled run of app/main.py has done when it ends, or when the store fails.
use underlying_analyzer_rebo.Base.{
  ℕ, suc, ◌+◌, ◌≤◌, String, ◌≡◌, refl, sym, ◌∙◌, ap, inl, inr, Bool, true, false, Option, none,
  some, List, [], ◌∷◌, ◌++◌, ◌==◌, append_assoc, append-nil, take, Bool-cases, Option-cases, arith,
}
use underlying_analyzer_rebo.Base.Result.{Result, ok, err, ◌>>=◌, Result-cases}
use underlying_analyzer_rebo.Value.{Fields, no_fields}
use underlying_analyzer_rebo.Alerts.Rules.{ScheduledAlertRule, alert_payload_from_rule}
use underlying_analyzer_rebo.Alerts.Delivery.{Delivery, AlertDeliveryResult}
use underlying_analyzer_rebo.Alerts.Schedule.{
  Effect, inserted_run, posted, inserted_delivery, updated_run, marked_ran, Abort, Services,
  Summary, log_post, id_or_none, request, record_delivery, record_result, record_sent,
  run_alert_delivery, run_built, run_scheduled_alert_rule, run_each, list_due_rules,
  run_scheduled_alert_rules,
}

-- The rules that are marked as run, in order, and the number of posts.
abbrev pub marks : List Effect → List String
marks [] = []
marks (marked_ran id day ∷ log) = id ∷ marks log
marks (_ ∷ log) = marks log

abbrev pub posts : List Effect → ℕ
posts [] = 0
posts (posted url body ∷ log) = suc (posts log)
posts (_ ∷ log) = posts log

marks-append : (a b : List Effect) → marks (a ++ b) ≡ marks a ++ marks b
marks-append [] b = refl
marks-append (marked_ran id day ∷ a) b = ap (λ ids. id ∷ ids) (marks-append a b)
marks-append (inserted_run i s p m ∷ a) b = marks-append a b
marks-append (posted u v ∷ a) b = marks-append a b
marks-append (inserted_delivery i r p ∷ a) b = marks-append a b
marks-append (updated_run i r ∷ a) b = marks-append a b

posts-append : (a b : List Effect) → posts (a ++ b) ≡ posts a + posts b
posts-append [] b = omega arith
posts-append (posted u v ∷ a) b = omega (arith, posts-append a b)
posts-append (marked_ran id day ∷ a) b = posts-append a b
posts-append (inserted_run i s p m ∷ a) b = posts-append a b
posts-append (inserted_delivery i r p ∷ a) b = posts-append a b
posts-append (updated_run i r ∷ a) b = posts-append a b

-- The second log is the first with more effects, which mark the rules `ids` and post at most `n` webhooks.
abbrev pub Adds : List String → ℕ → List Effect → List Effect → Type 0
Adds ids n a b = (new : List Effect) × (b ≡ a ++ new) × (marks new ≡ ids) × (posts new ≤ n)

Adds-nothing : (n : ℕ) (a : List Effect) → Adds [] n a a
Adds-nothing n a = ([], sym (append-nil a), refl, omega arith)

abbrev Moves {ℓ} :
    {A : Type ℓ} → List String → ℕ → List Effect → Result Abort (List Effect × A) → Type 0
Moves ids n a (ok (b, x)) = Adds ids n a b
Moves ids n a (err abort) = Adds [] n a abort.log

Adds-trans :
    (ids : List String) (n k : ℕ) (a b c : List Effect)
    → Adds [] n a b
    → Adds ids k b c
    → Adds ids (n + k) a c
Adds-trans ids n k a b c (xs, grown, none_marked, few) (ys, longer, marked, more) = (
  xs ++ ys,
  longer ∙ ap (λ l. l ++ ys) grown ∙ append_assoc a xs ys,
  marks-append xs ys ∙ ap (λ ms. ms ++ marks ys) none_marked ∙ marked,
  omega (arith, posts-append xs ys),
)

Adds-more :
    (ids : List String) (n k : ℕ) (a b : List Effect) → n ≤ k → Adds ids n a b → Adds ids k a b
Adds-more ids n k a b le (new, grown, marked, few) = (new, grown, marked, omega arith)

Moves-after {ℓ} :
    {A : Type ℓ} (ids : List String) (n k : ℕ) (a b : List Effect)
    (m : Result Abort (List Effect × A))
    → Adds [] n a b
    → Moves ids k b m
    → Moves ids (n + k) a m
Moves-after ids n k a b (ok (c, x)) h g = Adds-trans ids n k a b c h g
Moves-after ids n k a b (err abort) h g = Adds-trans [] n k a b abort.log h g

Moves-bind {ℓ κ} :
    {A : Type ℓ} {B : Type κ} (ids : List String) (n k : ℕ) (a : List Effect)
    (m : Result Abort (List Effect × A)) (f : List Effect × A → Result Abort (List Effect × B))
    → Moves [] n a m
    → ((b : List Effect) (x : A) → Moves ids k b (f (b, x)))
    → Moves ids (n + k) a (m >>= f)
Moves-bind ids n k a (err abort) f h then_ = Adds-more [] n (n + k) a abort.log (omega arith) h
Moves-bind ids n k a (ok (b, x)) f h then_ = Moves-after ids n k a b (f (b, x)) h (then_ b x)

Moves-more {ℓ} :
    {A : Type ℓ} (ids : List String) (a : List Effect) (m : Result Abort (List Effect × A))
    → Moves ids 0 a m
    → Moves ids 1 a m
Moves-more ids a (err abort) h = Adds-more [] 0 1 a abort.log (omega arith) h
Moves-more ids a (ok (b, x)) h = Adds-more ids 0 1 a b (omega arith) h

Moves-map {ℓ κ} :
    {A : Type ℓ} {B : Type κ} (ids : List String) (n : ℕ) (a : List Effect)
    (m : Result Abort (List Effect × A)) (f : List Effect × A → B)
    → Moves ids n a m
    → Moves ids n a (m >>= λ r. ok (r.0, f r))
Moves-map ids n a (err abort) f h = h
Moves-map ids n a (ok (b, x)) f h = h

log_post-Adds : (d : Delivery) (log : List Effect) → Adds [] 1 log (log_post d log)
log_post-Adds d log = elim (Option-cases d.posted) [
  | inl quiet ↦ rw quiet (Adds-nothing 1 log)
  | inr (sent, loud) ↦ rw loud (posted sent.0 sent.1 ∷ [], refl, refl, omega arith)
]

-- The effects are those of the rules in their order: what is done for a rule marks it, once and no other
-- rule, and posts at most one webhook.
abbrev pub AreOf : List ScheduledAlertRule → List Effect → Type 0
AreOf [] new = new ≡ []
AreOf (rule ∷ rules) new =
    (one : List Effect) × (rest : List Effect) × (new ≡ one ++ rest)
    × (marks one ≡ rule.id ∷ [])
    × (posts one ≤ 1)
    × AreOf rules rest

-- What a run of several rules adds to the log: what is done for each, or, where the run stops, what is
-- done for the first `k`, and then effects that mark no rule and post at most one webhook.
abbrev pub IsBatch {ℓ} :
    {A : Type ℓ} → List ScheduledAlertRule → List Effect → Result Abort (List Effect × A) → Type 0
IsBatch rules a (ok (b, x)) = (new : List Effect) × (b ≡ a ++ new) × AreOf rules new
IsBatch rules a (err abort) =
    (k : ℕ) × (new : List Effect) × (last : List Effect) × (abort.log ≡ a ++ (new ++ last))
    × AreOf (take k rules) new
    × (marks last ≡ [])
    × (posts last ≤ 1)

AreOf-first :
    (rule : ScheduledAlertRule) (rules : List ScheduledAlertRule) (one rest : List Effect)
    → marks one ≡ rule.id ∷ []
    → posts one ≤ 1
    → AreOf rules rest
    → AreOf (rule ∷ rules) (one ++ rest)
AreOf-first rule rules one rest marked few others = (one, rest, refl, marked, few, others)

IsBatch-after {ℓ κ} :
    {A : Type ℓ} {B : Type κ} (rule : ScheduledAlertRule) (rules : List ScheduledAlertRule)
    (a b : List Effect) (f : List Effect × A → B) (rest : Result Abort (List Effect × A))
    → Adds (rule.id ∷ []) 1 a b
    → IsBatch rules b rest
    → IsBatch (rule ∷ rules) a (rest >>= λ r. ok (r.0, f r))
IsBatch-after rule rules a b f (ok (c, xs)) (one, grown, marked, few) (new, longer, others) = (
  one ++ new,
  longer ∙ ap (λ l. l ++ new) grown ∙ append_assoc a one new,
  AreOf-first rule rules one new marked few others,
)
IsBatch-after rule rules a b f (err abort) (one, grown, marked, few)
      (k, new, last, longer, others, quiet, least) =
    (
      suc k,
      one ++ new,
      last,
      longer
          ∙ ap (λ l. l ++ (new ++ last)) grown
          ∙ append_assoc a one (new ++ last)
          ∙ ap (λ l. a ++ l) (sym (append_assoc one new last)),
      AreOf-first rule (take k rules) one new marked few others,
      quiet,
      least,
    )

module _ (services : Services) where
  request-Moves :
      (effect : Effect) (log : List Effect)
      → Moves (marks (effect ∷ [])) (posts (effect ∷ [])) log (request services effect log)
  unfolding request
  request-Moves effect log = elim (Result-cases (services.store log effect)) [
    | inr (message, failed) ↦ rw (failed, request) (Adds-nothing _ log)
    | inl (answer, done) ↦ rw (done, request) (effect ∷ [], refl, refl, omega arith)
  ]

  record_delivery-Moves :
      (run_id : Option String) (result : AlertDeliveryResult) (payload : Fields) (log : List Effect)
      → Moves [] 0 log (record_delivery services run_id result payload log)
  unfolding record_delivery
  record_delivery-Moves none result payload log = Adds-nothing _ log
  record_delivery-Moves (some run_id) result payload log =
      Moves-bind [] 0 0 log (request services (inserted_delivery run_id result payload) log)
        (λ inserted. request services (updated_run run_id result) inserted.0)
        (request-Moves (inserted_delivery run_id result payload) log)
        (λ b x. request-Moves (updated_run run_id result) b)

  record_result-Moves :
      (run_id : Option String) (payload : Fields) (log : List Effect)
      (result : Option AlertDeliveryResult)
      → Moves [] 0 log (record_result services run_id payload log result)
  unfolding record_result
  record_result-Moves run_id payload log none = Adds-nothing _ log
  record_result-Moves run_id payload log (some result) =
      Moves-map [] 0 log (record_delivery services run_id result payload log) (λ after. some result)
        (record_delivery-Moves run_id result payload log)

  record_sent-Moves :
      (run_id : Option String) (payload : Fields) (log : List Effect) (d : Delivery)
      → Moves [] 1 log (record_sent services run_id payload log d)
  unfolding record_sent
  record_sent-Moves run_id payload log d =
      Moves-after [] 1 0 log (log_post d log)
        (record_result services run_id payload (log_post d log) d.result) (log_post-Adds d log)
        (record_result-Moves run_id payload (log_post d log) d.result)

  run_alert_delivery-Moves :
      (rule : ScheduledAlertRule) (run_date : ℕ) (run_id : Option String) (payload : Fields)
      (log : List Effect)
      → Moves [] 1 log (run_alert_delivery services rule run_date run_id payload log)
  unfolding run_alert_delivery
  run_alert_delivery-Moves rule run_date run_id payload log =
      elim (Bool-cases (rule.delivery_channel == "webhook")) [
        | inr other ↦ rw (other, run_alert_delivery) (Adds-nothing _ log)
        | inl webhook ↦ rw (webhook, run_alert_delivery) (record_sent-Moves run_id payload log _)
      ]

  marked-Moves :
      (rule : ScheduledAlertRule) (run_date : ℕ) (log : List Effect) (x : Summary)
      → Moves
          (rule.id ∷ [])
          0
          log
          (request services (marked_ran rule.id run_date) log >>= λ marked. ok (marked.0, x))
  marked-Moves rule run_date log x =
      Moves-map (rule.id ∷ []) 0 log (request services (marked_ran rule.id run_date) log)
        (λ marked. x) (request-Moves (marked_ran rule.id run_date) log)

  run_built-Moves :
      (rule : ScheduledAlertRule) (run_date : ℕ) (log : List Effect) (built : Result String Fields)
      → Moves (rule.id ∷ []) 1 log (run_built services rule run_date log built)
  unfolding run_built
  run_built-Moves rule run_date log (err message) =
      Moves-bind (rule.id ∷ []) 0 1 log _ _
        (request-Moves (inserted_run rule.id false no_fields (some message)) log)
        (λ b x. Moves-more (rule.id ∷ []) b _ (marked-Moves rule run_date b _))
  run_built-Moves rule run_date log (ok payload) =
      Moves-bind (rule.id ∷ []) 0 1 log _ _
        (request-Moves (inserted_run rule.id true payload none) log)
        (λ b x.
          Moves-bind (rule.id ∷ []) 1 0 b _ _
            (run_alert_delivery-Moves rule run_date (id_or_none x) payload b)
            (λ c y. marked-Moves rule run_date c _))

  run_scheduled_alert_rule-Moves :
      (rule : ScheduledAlertRule) (run_date : ℕ) (log : List Effect)
      → Moves (rule.id ∷ []) 1 log (run_scheduled_alert_rule services rule run_date log)
  unfolding run_scheduled_alert_rule
  run_scheduled_alert_rule-Moves rule run_date log =
      run_built-Moves rule run_date log (services.build (alert_payload_from_rule rule))

  run_each-IsBatch :
      (rules : List ScheduledAlertRule) (run_date : ℕ) (log : List Effect)
      → IsBatch rules log (run_each services rules run_date log)
  unfolding run_each
  run_each-IsBatch [] run_date log = ([], sym (append-nil log), refl)
  run_each-IsBatch (rule ∷ rules) run_date log =
      elim (Result-cases (run_scheduled_alert_rule services rule run_date log)) [
        | inr (abort, stopped) ↦
            let (last, grown, quiet, few) : Adds [] 1 log abort.log =
              rw stopped at (run_scheduled_alert_rule-Moves rule run_date log) in
            rw stopped (0, [], last, grown, refl, quiet, few)
        | inl ((b, summary), ran) ↦
            let h : Adds (rule.id ∷ []) 1 log b =
              rw ran at (run_scheduled_alert_rule-Moves rule run_date log) in
            rw ran (
              IsBatch-after rule rules log b (λ r. summary ∷ r.1)
                (run_each services rules run_date b) h (run_each-IsBatch rules run_date b))
      ]

  -- A scheduled run takes the rules that are due, up to the limit, in their order. If it ends, its log is
  -- what it has done for each of them, in this order: each is marked as run, once, and at most one webhook
  -- is posted for it. If an error of the store or an exception of a delivery ends it, the log has that
  -- for the first ones of them, and then at most one more post and no mark.
  pub run_scheduled_alert_rules-IsBatch :
      (rules : List ScheduledAlertRule) (run_date : ℕ) (force : Bool) (limit : ℕ)
      → IsBatch
          (take limit (list_due_rules rules run_date force))
          []
          (run_scheduled_alert_rules services rules run_date force limit)
  unfolding run_scheduled_alert_rules
  run_scheduled_alert_rules-IsBatch rules run_date force limit =
      run_each-IsBatch (take limit (list_due_rules rules run_date force)) run_date []
