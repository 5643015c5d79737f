-- ===== src/Common/Text.antt =====
-- Text as bytes, and the conversions of printf that the program uses.
use Prim.Native.Nat.{ℕ, zero, suc, ◌+◌, ◌-◌, ◌/◌, ◌%◌}
use Prim.Native.Char.{code}
use Prim.Native.String.{String}
use mathlib.Core.List.{List, [], ◌∷◌, ◌++◌}
use postmarketos_x00td_cellu.Common.Tests.{ltb, if◌then◌else◌}
use postmarketos_x00td_cellu.Common.Int.{ℤ, pos, negsuc}

-- The code points of a text: its bytes, if it is ASCII.
unfoldable pub codes : String → List ℕ
codes String.[] = []
codes (String.◌∷◌ c s) = code c ∷ codes s

digit : ℕ → ℕ
digit d = if ltb d 10 then b'0' + d else b'a' + (d - 10)

-- The last `k` digits of `n` in a base, leading zeros dropped.
digits : ℕ → ℕ → ℕ → List ℕ
digits zero base n = []
digits (suc k) base n =
    let rest = digits k base (n / base) in
    if ltb n base then digit n ∷ [] else rest ++ digit (n % base) ∷ []

-- "%u" of a number of up to 20 digits.
unfoldable pub show_u : ℕ → List ℕ
unfolding digits digit
show_u n = digits 20 10 n

-- "%d"
unfoldable pub show_d : ℤ → List ℕ
unfolding show_u
show_d (pos n) = show_u n
show_d (negsuc n) = b'-' ∷ show_u (suc n)

fixed_hex : ℕ → ℕ → List ℕ
fixed_hex zero n = []
fixed_hex (suc k) n = fixed_hex k (n / 16) ++ digit (n % 16) ∷ []

-- "0x%08x" of a 32-bit number.
unfoldable pub show_x8 : ℕ → List ℕ
unfolding fixed_hex digit codes
show_x8 n = codes "0x" ++ fixed_hex 8 n

-- "%02x", "%04x"
unfoldable pub show_x : ℕ → ℕ → List ℕ
unfolding fixed_hex digit
show_x = fixed_hex

-- "%u.%u.%u.%u" of an IPv4 address in host order.
unfoldable pub show_ip : ℕ → List ℕ
unfolding show_u codes
show_ip v =
    show_u (v / 16777216 % 256)
    ++ (b'.'
        ∷ (show_u (v / 65536 % 256)
            ++ (b'.' ∷ (show_u (v / 256 % 256) ++ (b'.' ∷ show_u (v % 256))))))
