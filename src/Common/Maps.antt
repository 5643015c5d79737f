-- ===== src/Common/Maps.antt =====
-- Maps from numbers as functions.
use Prim.Native.Nat.{ℕ}
use mathlib.Core.Path.{◌≡◌}
use mathlib.Core.Logic.{◌≢◌}
use postmarketos_x00td_cellu.Common.Tests.{◌==◌, ==-refl, ==-ne, if◌then◌else◌}

abbrev pub update {ℓ} : {A : Type ℓ} → (ℕ → A) → ℕ → A → ℕ → A
update f n x m = if n == m then x else f m

pub update_self {ℓ} : {A : Type ℓ} (f : ℕ → A) (n : ℕ) (x : A) → update f n x n ≡ x
update_self f n x = rw (==-refl n)

pub update_ne {ℓ} : {A : Type ℓ} (f : ℕ → A) (n m : ℕ) (x : A) → n ≢ m → update f n x m ≡ f m
update_ne f n m x h = rw (==-ne n m h)
