-- ===== src/Agent/History/Laws.antt =====
-- What `normalize_history` of app/agent.py hands to the model.
use mathlib.Core.Path.{subst}
use text.Mathlib.TextLemmas.{cons-append}
use underlying_analyzer_rebo.Base.{
  ℕ, suc, String, ◌+◌, ◌-◌, ◌≤◌, ◌≡◌, refl, inl, inr, true, false, some, List, [], ◌∷◌, arith,
  length, length-drop, take_last, All, Bool-cases, Option-cases,
}
use underlying_analyzer_rebo.Base.Text.{blank, ◌⧺◌}
use underlying_analyzer_rebo.Base.Result.{ok}
use underlying_analyzer_rebo.Value.{Value, arr, obj}
use underlying_analyzer_rebo.Value.Access.{items}
use underlying_analyzer_rebo.Value.Show.{Python}
use underlying_analyzer_rebo.Agent.History.{
  Role, user, assistant, Message, same_role, usable, add, add_entry, collect, from_user, last_role,
  check_last, normalize_history, max_history_messages,
}

abbrev pub other : Role → Role
other user = assistant
other assistant = user

-- The roles alternate, from the given one on.
abbrev pub Alternates : Role → List Message → Type 0
Alternates role [] = Unit
Alternates role (m ∷ ms) = (m.role ≡ role) × Alternates (other role) ms

abbrev pub IsWritten : Message → Type 0
IsWritten m = blank m.content ≡ false

-- A history that the Messages API takes.
pub record IsWellFormed (ms : List Message) : Type 0 where
  pub alternates : Alternates user ms
  pub ends_with_user : last_role assistant ms ≡ user
  pub written : All IsWritten ms
  pub bounded : length ms ≤ max_history_messages

-- No two neighbours have one role, where `role` stands before the list.
abbrev Differs : Role → List Message → Type 0
Differs role [] = Unit
Differs role (m ∷ ms) = (m.role ≡ other role) × Differs m.role ms

abbrev Mixed : List Message → Type 0
Mixed [] = Unit
Mixed (m ∷ ms) = Differs m.role ms

other-other : (r : Role) → other (other r) ≡ r
other-other user = refl
other-other assistant = refl

not_same_role : (r s : Role) → same_role r s ≡ false → s ≡ other r
not_same_role user assistant h = refl
not_same_role assistant user h = refl
not_same_role user user h = cc
not_same_role assistant assistant h = cc

same_role_eq : (r s : Role) → same_role r s ≡ true → r ≡ s
same_role_eq user user h = refl
same_role_eq assistant assistant h = refl
same_role_eq user assistant h = cc
same_role_eq assistant user h = cc

Alternates-of_Differs :
    (role : Role) (ms : List Message) → Differs role ms → Alternates (other role) ms
Alternates-of_Differs role [] h = tt
Alternates-of_Differs role (m ∷ ms) (p, h) =
    (p, subst (λ r. Alternates (other r) ms) p (Alternates-of_Differs m.role ms h))

add-Differs :
    (before role : Role) (text : String) (m : Message) (ms : List Message)
    → Differs before (m ∷ ms)
    → Differs before (add role text (m ∷ ms))
unfolding add
add-Differs before role text m [] (p, h) = ground (arith, not_same_role m.role role)
add-Differs before role text m (n ∷ ms) (p, h) = (p, add-Differs m.role role text n ms h)

add-Mixed : (role : Role) (text : String) (ms : List Message) → Mixed ms → Mixed (add role text ms)
unfolding add
add-Mixed role text [] h = tt
add-Mixed role text (m ∷ []) h = ground (arith, not_same_role m.role role)
add-Mixed role text (m ∷ n ∷ ms) h = add-Differs m.role role text n ms h

blank-append : (s t : String) → blank s ≡ false → blank (s ⧺ t) ≡ false
blank-append String.[] t h = cc
blank-append (String.◌∷◌ c s) t h = rw cons-append

add-IsWritten :
    (role : Role) (text : String) (ms : List Message)
    → blank text ≡ false
    → All IsWritten ms
    → All IsWritten (add role text ms)
unfolding add
add-IsWritten role text [] t h = (t, tt)
add-IsWritten role text (m ∷ []) t (w, _) = ground (arith, blank-append m.content ("\n\n" ⧺ text))
add-IsWritten role text (m ∷ n ∷ ms) t (w, h) = (w, add-IsWritten role text (n ∷ ms) t h)

length-add-le :
    (role : Role) (text : String) (ms : List Message) → length (add role text ms) ≤ suc (length ms)
unfolding add
length-add-le role text [] = ground arith
length-add-le role text (m ∷ []) = ground arith
length-add-le role text (m ∷ n ∷ ms) = omega (arith, length-add-le role text (n ∷ ms))

pub last_role-add :
    (before role : Role) (text : String) (ms : List Message)
    → last_role before (add role text ms) ≡ role
unfolding add last_role
last_role-add before role text [] = refl
last_role-add before role text (m ∷ []) = ground (arith, same_role_eq m.role role)
last_role-add before role text (m ∷ n ∷ ms) = last_role-add m.role role text (n ∷ ms)

-- What the loop over the records keeps; `n` records were read.
record IsCollected (n : ℕ) (ms : List Message) : Type 0 where
  mixed : Mixed ms
  written : All IsWritten ms
  few : length ms ≤ n

from_user-Alternates : (ms : List Message) → Mixed ms → Alternates user (from_user ms)
unfolding from_user
from_user-Alternates [] h = tt
from_user-Alternates (m ∷ ms) h = elim (Bool-cases (same_role m.role user)) [
  | inl first ↦ rw first (
    same_role_eq m.role user first,
    subst (λ r. Alternates (other r) ms) (same_role_eq m.role user first)
        (Alternates-of_Differs m.role ms h),
  )
  | inr later ↦ rw later (from_user-Alternates ms (Mixed-tail m ms h))
]
  where
    Mixed-tail : (m : Message) (ms : List Message) → Differs m.role ms → Mixed ms
    Mixed-tail m [] h = tt
    Mixed-tail m (n ∷ ms) (p, h) = h

from_user-IsWritten : (ms : List Message) → All IsWritten ms → All IsWritten (from_user ms)
unfolding from_user
from_user-IsWritten [] h = tt
from_user-IsWritten (m ∷ ms) (w, h) = ground (arith, from_user-IsWritten ms h)

length-from_user-le : (ms : List Message) → length (from_user ms) ≤ length ms
unfolding from_user
length-from_user-le [] = omega arith
length-from_user-le (m ∷ ms) = ground (arith, length-from_user-le ms)

-- A list that ends with a message of the user keeps that end.
pub last_role-from_user :
    (m : Message) (ms : List Message)
    → last_role m.role ms ≡ user
    → (n : Message) × (ns : List Message) × (from_user (m ∷ ms) ≡ n ∷ ns)
      × (last_role n.role ns ≡ user)
unfolding from_user last_role
last_role-from_user m [] h = (m, [], ground arith, h)
last_role-from_user m (p ∷ ps) h = elim (Bool-cases (same_role m.role user)) [
  | inl first ↦ (m, p ∷ ps, rw first, h)
  | inr later ↦ rw later (last_role-from_user p ps h)
]

module _ (py : Python) where
  usable-IsWritten :
      (v : Value) (role : Role) (text : String)
      → usable py v ≡ some (role, text)
      → blank text ≡ false
  unfolding usable
  usable-IsWritten (obj entry) role text h = ground arith
  usable-IsWritten _ role text h = cc

  add_entry-IsCollected :
      (n : ℕ) (acc : List Message) (v : Value)
      → IsCollected n acc
      → IsCollected (suc n) (add_entry py acc v)
  unfolding add_entry
  add_entry-IsCollected n acc v c = elim (Option-cases (usable py v)) [
    | inl skipped ↦
        rw (skipped, add_entry)
          (record { mixed = c.mixed; written = c.written; few = omega (arith, c.few) })
    | inr ((role, text), kept) ↦
        rw (kept, add_entry)
          (record {
            mixed = add-Mixed role text acc c.mixed;
            written = add-IsWritten role text acc (usable-IsWritten v role text kept) c.written;
            few = omega (arith, length-add-le role text acc, c.few);
          })
  ]

  collect-IsCollected :
      (n : ℕ) (acc : List Message) (vs : List Value)
      → IsCollected n acc
      → IsCollected (n + length vs) (collect py acc vs)
  unfolding collect
  collect-IsCollected n acc [] c = subst (λ k. IsCollected k acc) (omega arith) c
  collect-IsCollected n acc (v ∷ vs) c =
      let more =
        collect-IsCollected (suc n) (add_entry py acc v) vs (add_entry-IsCollected n acc v c) in
      subst (λ k. IsCollected k (collect py (add_entry py acc v) vs)) (omega arith) more

  check_last-ok :
      (ms ns : List Message) → check_last ms ≡ ok ns → (ns ≡ ms) × (last_role assistant ns ≡ user)
  unfolding check_last last_role
  check_last-ok [] ns h = absurd (ground arith)
  check_last-ok (m ∷ ms) ns h =
      let last : last_role m.role ms ≡ user =
        ground (arith, same_role_eq (last_role m.role ms) user) in
      let same : ns ≡ m ∷ ms = ground arith in (same, rw same last)

  length-take_last-le : (n : ℕ) (vs : List Value) → length (take_last n vs) ≤ n
  length-take_last-le n vs = omega (arith, length-drop (length vs - n) vs)

  -- What `normalize_history` returns is a valid history: its roles alternate and start with the
  -- user, it ends with the user, no message is empty, and there are at most 40.
  pub normalize_history-IsWellFormed :
      (v : Value) (ms : List Message) → normalize_history py v ≡ ok ms → IsWellFormed ms
  unfolding normalize_history
  normalize_history-IsWellFormed (arr messages) ms h =
      let kept = take_last max_history_messages (items messages) in
      let acc = collect py [] kept in
      let c : IsCollected (length kept) acc =
        subst (λ k. IsCollected k acc) (omega arith)
          (collect-IsCollected 0 [] kept
            (record { mixed = tt; written = tt; few = omega arith })) in
      let (same, last) = check_last-ok (from_user acc) ms h in
      rw same (record {
        alternates = from_user-Alternates acc c.mixed;
        ends_with_user = rw same at last;
        written = from_user-IsWritten acc c.written;
        bounded = omega (
          arith,
          c.few,
          length-from_user-le acc,
          length-take_last-le max_history_messages (items messages),
        );
      })
  normalize_history-IsWellFormed _ ms h = absurd (ground arith)
