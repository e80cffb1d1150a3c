-- ===== src/Outcomes/Settles.antt =====
-- Calls that settle: they end, with a value or with an error, and do not panic.
use db.Prelude.{Bool, true, false, ◌≡◌, sym, ap, ◌∙◌, ◌≢◌}
use db.Outcomes.{Outcome, ok, err, panic, out_of_fuel}

abbrev pub settles {ℓ} : {A : Type ℓ} → Outcome A → Bool
settles (ok a) = true
settles (err e) = true
settles panic = false
settles out_of_fuel = false

-- Calls that do not panic, though they may need more fuel.
abbrev pub is_safe {ℓ} : {A : Type ℓ} → Outcome A → Bool
is_safe (ok a) = true
is_safe (err e) = true
is_safe panic = false
is_safe out_of_fuel = true

pub is_safe-ne-panic {ℓ} : {A : Type ℓ} (m : Outcome A) → is_safe m ≡ true → m ≢ panic
is_safe-ne-panic m s e = let clash : false ≡ true = sym (ap is_safe e) ∙ s in cc
