-- ===== src/Tests/Runs.antt =====
-- How the tests name the result of a call that returns at a concrete input.
use ensuro.Prelude.{◌≡◌, refl, Bool, true, false}
use ensuro.Prelude.Calls.{Result, ok, err}

abbrev pub is_ok : {A : Type 0} → Result A → Bool
is_ok (ok a) = true
is_ok (err e) = false

-- The value that a call returns, or `other` if it raises.
abbrev pub got : {A : Type 0} → Result A → A → A
got (ok a) other = a
got (err e) other = other

pub ok_got : {A : Type 0} (m : Result A) (other : A) → is_ok m ≡ true → m ≡ ok (got m other)
ok_got (ok a) other h = refl
ok_got (err e) other h = cc
