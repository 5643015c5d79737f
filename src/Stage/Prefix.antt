-- ===== src/Stage/Prefix.antt =====
-- vendor-init/stage_wds_start.c: the prefix length that is counted from a subnet mask.
use postmarketos_x00td_cellu.Common.{
  ℕ, zero, suc, ◌+◌, ◌-◌, ◌*◌, ◌%◌, ◌^◌, ◌≤◌, ◌<◌, ◌≡◌, refl, ap, ◌∙◌, true, false, Option, none,
  some, inl, inr, Bool-cases, if◌then◌else◌, leb, arith,
}
use native.Mathlib.Nat.{pow-suc}

-- `while (mask & 0x80000000U) { prefix++; mask <<= 1; }` in 32 bits; `none` if the fuel runs out.
unfoldable pub prefix_loop : ℕ → ℕ → ℕ → Option ℕ
prefix_loop zero mask prefix = none
prefix_loop (suc fuel) mask prefix =
    let rest = prefix_loop fuel (mask * 2 % 4294967296) (prefix + 1) in
    if leb 2147483648 (mask % 4294967296) then rest else some prefix

unfoldable pub prefix_of : ℕ → Option ℕ
prefix_of mask = prefix_loop 33 (mask % 4294967296) 0

pow_positive : (n : ℕ) → 1 ≤ 2 ^ n
pow_positive zero = omega arith
pow_positive (suc n) = omega (arith, pow-suc 2 n, pow_positive n)

pow_bound : (m n : ℕ) → m ≤ n → 2 ^ m ≤ 2 ^ n
pow_bound zero n h = pow_positive n
pow_bound (suc m) zero h = absurd (omega arith)
pow_bound (suc m) (suc n) h = omega (arith, pow-suc 2 m, pow-suc 2 n, pow_bound m n (omega arith))

-- One round, of a mask whose top bit is set, and of one whose top bit is clear.
prefix_loop-set :
    (fuel mask prefix : ℕ)
    → 2147483648 ≤ mask
    → mask < 4294967296
    → prefix_loop (suc fuel) mask prefix ≡ prefix_loop fuel (mask * 2 - 4294967296) (prefix + 1)
unfolding prefix_loop
prefix_loop-set fuel mask prefix h fits =
    let e : leb 2147483648 (mask % 4294967296) ≡ true = ground arith in
    let e' : mask * 2 % 4294967296 ≡ mask * 2 - 4294967296 = omega arith in rw (e, e')

prefix_loop-clear :
    (fuel mask prefix : ℕ) → mask < 2147483648 → prefix_loop (suc fuel) mask prefix ≡ some prefix
unfolding prefix_loop
prefix_loop-clear fuel mask prefix h =
    let e : leb 2147483648 (mask % 4294967296) ≡ false = ground arith in rw e

-- The distance of the mask to 2 ^ 32 doubles in each round.
prefix_loop_total :
    (left done mask prefix : ℕ)
    → left + done ≡ 32
    → mask + 2 ^ done ≤ 4294967296
    → (n : ℕ) × (prefix_loop (suc left) mask prefix ≡ some n) × (n ≤ prefix + left)
prefix_loop_total zero done mask prefix e h =
    let d : done ≡ 32 = omega arith in
    let p : 2 ^ done ≡ 4294967296 = ap (λ d. 2 ^ d) d in
    (prefix, prefix_loop-clear 0 mask prefix (omega arith), omega arith)
prefix_loop_total (suc left) done mask prefix e h = elim (Bool-cases (leb 2147483648 mask)) [
  | inl set ↦
      let b : 2147483648 ≤ mask = ground arith in
      let b' : mask < 4294967296 = omega (arith, pow_positive done) in
      let (n, q, r) =
        prefix_loop_total left (suc done) (mask * 2 - 4294967296) (prefix + 1) (omega arith)
          (omega (arith, pow-suc 2 done)) in
      (n, prefix_loop-set (suc left) mask prefix b b' ∙ q, omega arith)
  | inr clear ↦ (prefix, prefix_loop-clear (suc left) mask prefix (ground arith), omega arith)
]

-- For every mask the loop ends, and the prefix length that it counts is at most 32.
pub prefix_of_total : (mask : ℕ) → (n : ℕ) × (prefix_of mask ≡ some n) × (n ≤ 32)
unfolding prefix_of
prefix_of_total mask =
    let (n, e, h) = prefix_loop_total 32 0 (mask % 4294967296) 0 refl (omega arith) in
    (n, e, omega arith)

netmask_loop :
    (ones clear_bits fuel prefix : ℕ)
    → ones + clear_bits ≡ 32
    → ones ≤ fuel
    → prefix_loop (suc fuel) (4294967296 - 2 ^ clear_bits) prefix ≡ some (prefix + ones)
netmask_loop zero clear_bits fuel prefix e h =
    let d : clear_bits ≡ 32 = omega arith in
    let p : 2 ^ clear_bits ≡ 4294967296 = ap (λ d. 2 ^ d) d in
    prefix_loop-clear fuel (4294967296 - 2 ^ clear_bits) prefix (omega arith)
    ∙ ap some (omega arith)
netmask_loop (suc ones) clear_bits zero prefix e h = absurd (omega arith)
netmask_loop (suc ones) clear_bits (suc fuel) prefix e h =
    let b : 2 ^ clear_bits ≤ 2147483648 = pow_bound clear_bits 31 (omega arith) in
    let d : (4294967296 - 2 ^ clear_bits) * 2 - 4294967296 ≡ 4294967296 - 2 ^ suc clear_bits =
      omega (arith, pow-suc 2 clear_bits) in
    prefix_loop-set (suc fuel) (4294967296 - 2 ^ clear_bits) prefix (omega arith)
      (omega (arith, pow_positive clear_bits))
    ∙ ap (λ m. prefix_loop (suc fuel) m (prefix + 1)) d
    ∙ netmask_loop ones (suc clear_bits) fuel (prefix + 1) (omega arith) (omega arith)
    ∙ ap some (omega arith)

-- For a subnet mask of `n` ones and then zeros, with `n` at most 32, the prefix length is `n`.
pub prefix_of-netmask : (n : ℕ) → n ≤ 32 → prefix_of (4294967296 - 2 ^ (32 - n)) ≡ some n
unfolding prefix_of
prefix_of-netmask n h =
    let clear_bits : ℕ = 32 - n in
    let fits : (4294967296 - 2 ^ clear_bits) % 4294967296 ≡ 4294967296 - 2 ^ clear_bits =
      omega (arith, pow_positive clear_bits) in
    ap (λ m. prefix_loop 33 m 0) fits
    ∙ netmask_loop n clear_bits 32 0 (omega arith) h
    ∙ ap some (omega arith)
