-- ===== src/Prelude/Status.antt =====
-- EFI_STATUS: the codes that the driver returns, and the result of a fallible routine.

use mathlib.Core.Path.{◌≡◌, ap}

-- EFI_STATUS codes by name; read_fault is none of them but a read outside of a buffer.
pub data EfiStatus : Type 0 where
  volume_corrupted : EfiStatus
  buffer_too_small : EfiStatus
  volume_full : EfiStatus
  device_error : EfiStatus
  out_of_resources : EfiStatus
  compromised_data : EfiStatus
  unsupported : EfiStatus
  read_fault : EfiStatus

-- EFI_SUCCESS with the outputs, or an error status.
pub data Result {ℓ} (A : Type ℓ) : Type ℓ where
  ok : A → Result A
  err : EfiStatus → Result A

infixl 5 ◌>>=◌
abbrev pub ◌>>=◌ {ℓ κ} : {A : Type ℓ} {B : Type κ} → Result A → (A → Result B) → Result B
ok a >>= f = f a
err e >>= f = err e

or_else {ℓ} : {A : Type ℓ} → A → Result A → A
or_else d (ok a) = a
or_else d (err e) = d

pub ok_injective {ℓ} : {A : Type ℓ} {a b : A} → ok a ≡ ok b → a ≡ b
unfolding or_else
ok_injective {a} h = ap (or_else a) h
