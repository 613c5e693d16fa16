-- ===== src/Base/Equality.antt =====
-- Types with a Boolean equality, as Python's hashable keys have.
use Prim.Native.Nat.{ℕ}
use Prim.Native.String.{String}
use mathlib.Core.Path.{◌≡◌}
use mathlib.Core.Logic.{◌↔◌}
use mathlib.Core.Bool.{Bool, true}
use native.Mathlib.Omega.{arith}
use text.Mathlib.Text.{◌==◌}
use text.Mathlib.TextEquality.{eq_iff}
use underlying_analyzer_rebo.Base.Tests.{nat_eq}

-- The test that a `dict` makes on two keys.
pub record Key {ℓ} (K : Type ℓ) : Type ℓ where
  pub same : K → K → Bool
  pub same_iff : (j k : K) → (same j k ≡ true) ↔ (j ≡ k)

pub nat_eq_iff : (m n : ℕ) → (nat_eq m n ≡ true) ↔ (m ≡ n)
nat_eq_iff m n = ground arith

instance abbrev pub String-Key : Key String
String-Key = record { same = ◌==◌; same_iff = eq_iff }

instance abbrev pub ℕ-Key : Key ℕ
ℕ-Key = record { same = nat_eq; same_iff = nat_eq_iff }
