-- ===== src/Prelude/Keys.antt =====
-- Signed integers as keys of a dictionary.
use mathlib.Core.Path.{◌≡◌}
use mathlib.Core.Logic.{◌↔◌}
use mathlib.Core.Bool.{Bool, true, false}
use native.Mathlib.Omega.{arith}
use market_app.Prelude.Int.{ℤ, pos, negsuc}
use market_app.Prelude.Tests.{Eq, nat_eq}

abbrev int_eq : ℤ → ℤ → Bool
int_eq (pos a) (pos b) = nat_eq a b
int_eq (pos a) (negsuc b) = false
int_eq (negsuc a) (pos b) = false
int_eq (negsuc a) (negsuc b) = nat_eq a b

pub int_eq_iff : (a b : ℤ) → (int_eq a b ≡ true) ↔ (a ≡ b)
int_eq_iff a b = ground arith

instance abbrev pub ℤ_eq : Eq ℤ
ℤ_eq = record { beq = int_eq; beq_iff = int_eq_iff }
