-- ===== src/Common/Fault.antt =====
-- Computations on C arrays: `none` is an access out of bounds, which C leaves undefined.
use Prim.Native.Nat.{ℕ, ◌+◌}
use mathlib.Core.Path.{◌≡◌, refl}
use mathlib.Core.Option.{Option, none, some}
use mathlib.Core.List.{List, [], ◌∷◌}
use postmarketos_x00td_cellu.Common.Tests.{ltb, if◌then◌else◌}
use postmarketos_x00td_cellu.Common.Lists.{length, get_elem?, set}

infixl 5 ◌>>=◌
abbrev pub ◌>>=◌ {ℓ κ} : {A : Type ℓ} {B : Type κ} → Option A → (A → Option B) → Option B
none >>= f = none
some a >>= f = f a

pub >>=-some {ℓ κ} :
    {A : Type ℓ} {B : Type κ} {m : Option A} {a : A} (f : A → Option B)
    → m ≡ some a
    → (m >>= f) ≡ f a
>>=-some f e = rw e refl

-- b[i], and b[i] = v
abbrev pub read : List ℕ → ℕ → Option ℕ
read = get_elem?

unfoldable pub write : List ℕ → ℕ → ℕ → Option (List ℕ)
write b i v = if ltb i (length b) then some (set b i v) else none

-- Stores of consecutive elements from `i` on, as `memcpy` does.
unfoldable pub write_bytes : List ℕ → ℕ → List ℕ → Option (List ℕ)
write_bytes b i [] = some b
write_bytes b i (v ∷ vs) = do b' ← write b i v; write_bytes b' (i + 1) vs
