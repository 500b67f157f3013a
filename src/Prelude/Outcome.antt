-- ===== src/Prelude/Outcome.antt =====
-- What a call does where it may stop the program: a failed `assert` or a call of `fatal`.

pub data Run {ℓ} (A : Type ℓ) : Type ℓ where
  aborted : Run A
  returns : A → Run A

abbrev pub then_run {ℓ κ} : {A : Type ℓ} {B : Type κ} → Run A → (A → Run B) → Run B
then_run aborted f = aborted
then_run (returns a) f = f a
