-- ===== src/Agent/History/Accepts.antt =====
-- Which histories `normalize_history` of app/agent.py accepts.
use underlying_analyzer_rebo.Base.{
  ℕ, zero, suc, String, ◌-◌, ◌≤◌, ◌≡◌, refl, ap, some, List, [], ◌∷◌, ◌++◌, arith, length,
  length-append, drop, Bool-cases, inl, inr,
}
use underlying_analyzer_rebo.Base.Text.{◌⧺◌}
use underlying_analyzer_rebo.Base.Result.{ok}
use underlying_analyzer_rebo.Value.{Value, arr}
use underlying_analyzer_rebo.Value.Access.{items, of_items}
use underlying_analyzer_rebo.Value.Show.{Python}
use underlying_analyzer_rebo.Agent.History.{
  Role, user, Message, same_role, usable, add, add_entry, collect, from_user, last_role, check_last,
  normalize_history, max_history_messages,
}
use underlying_analyzer_rebo.Agent.History.Laws.{last_role-add, last_role-from_user}

items-of_items : (vs : List Value) → items (of_items vs) ≡ vs
items-of_items [] = refl
items-of_items (v ∷ vs) = ap (λ l. v ∷ l) (items-of_items vs)

drop-concat :
    (n : ℕ) (vs : List Value) (v : Value)
    → n ≤ length vs
    → (ys : List Value) × (drop n (vs ++ v ∷ []) ≡ ys ++ v ∷ [])
drop-concat zero vs v h = (vs, refl)
drop-concat (suc n) [] v h = absurd (omega arith)
drop-concat (suc n) (x ∷ vs) v h = drop-concat n vs v (omega arith)

add-cons :
    (role : Role) (text : String) (acc : List Message)
    → (m : Message) × (ms : List Message) × (add role text acc ≡ m ∷ ms)
unfolding add
add-cons role text [] = (record { role = role; content = text }, [], refl)
add-cons role text (m ∷ []) = elim (Bool-cases (same_role m.role role)) [
  | inl same ↦ (record m { content = m.content ⧺ "\n\n" ⧺ text }, [], rw same)
  | inr differs ↦ (m, record { role = role; content = text } ∷ [], rw differs)
]
add-cons role text (m ∷ n ∷ ms) = (m, add role text (n ∷ ms), refl)

check_last-from_user :
    (m : Message) (ms : List Message)
    → last_role user (m ∷ ms) ≡ user
    → (ns : List Message) × (check_last (from_user (m ∷ ms)) ≡ ok ns)
unfolding check_last last_role
check_last-from_user m ms h =
    let (n, ns, shape, last) = last_role-from_user m ms h in (n ∷ ns, rw shape (rw last))

module _ (py : Python) where
  collect-concat :
      (acc : List Message) (vs : List Value) (v : Value)
      → collect py acc (vs ++ v ∷ []) ≡ add_entry py (collect py acc vs) v
  unfolding collect
  collect-concat acc [] v = refl
  collect-concat acc (x ∷ vs) v = collect-concat (add_entry py acc x) vs v

  check_last-add :
      (text : String) (acc : List Message)
      → (ms : List Message) × (check_last (from_user (add user text acc)) ≡ ok ms)
  check_last-add text acc =
      let (m, ms, shape) = add-cons user text acc in
      rw shape (check_last-from_user m ms (rw shape at (last_role-add user user text acc)))

  added_last :
      (v : Value) (text : String) (acc ms : List Message)
      → usable py v ≡ some (user, text)
      → check_last (from_user (add user text acc)) ≡ ok ms
      → check_last (from_user (add_entry py acc v)) ≡ ok ms
  unfolding add_entry
  added_last v text acc ms h done = rw (h, add_entry) done

  -- A history whose last record is a message of the user, with some text in it, is accepted,
  -- whatever stands before.
  pub normalize_history_accepts :
      (before : List Value) (v : Value) (text : String)
      → usable py v ≡ some (user, text)
      → (ms : List Message) × (normalize_history py (arr (of_items (before ++ v ∷ []))) ≡ ok ms)
  unfolding normalize_history
  normalize_history_accepts before v text h =
      let vs = before ++ v ∷ [] in
      let (ys, cut) =
        drop-concat (length vs - max_history_messages) before v
          (omega (arith, length-append before (v ∷ []))) in
      let acc = collect py [] ys in
      let (ms, done) = check_last-add text acc in
      (ms, rw (items-of_items vs, cut, collect-concat [] ys v) (added_last v text acc ms h done))
