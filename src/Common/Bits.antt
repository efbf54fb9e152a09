-- ===== src/Common/Bits.antt =====
-- Laws of the native `bit_and` and `bit_or` for every width, from their digit recursions: a mask
-- of k ones is a remainder, and an `or` with a multiple of 2 ^ k above k low bits is a sum.
use Prim.Native.Nat.{
  ℕ, zero, suc, ◌+◌, ◌-◌, ◌*◌, ◌/◌, ◌%◌, ◌^◌, ◌≤◌, ◌<◌, min, max, bit_and, bit_or, digits,
  bit_and-bitwise, bit_or-bitwise,
}
use mathlib.Core.Path.{◌≡◌, refl, sym, ap, ◌∙◌}
use native.Mathlib.Omega.{arith}
use native.Mathlib.Nat.{pow-suc, one-le-pow, le_refl}

-- A native operation on bits, by the digit recursion that it stands for.
module _ (rest : ℕ → ℕ) (op native_op : ℕ → ℕ → ℕ)
    (law : (a b : ℕ) → native_op a b ≡ digits rest op a a b)
    (on_zero : (b : ℕ) → rest b ≡ rest (b / 2) * 2 + op 0 (b % 2)) where
  -- One unit of fuel more than the first number needs changes nothing.
  one_more : (a b n : ℕ) → a ≤ n → digits rest op (suc n) a b ≡ digits rest op n a b
  one_more zero b zero h = refl
  one_more zero b (suc n) h = refl
  one_more (suc a) b zero h = ground arith
  one_more (suc a) b (suc n) h = rw (one_more (suc a / 2) (b / 2) n (omega arith))

  more : (d a b : ℕ) → digits rest op (a + d) a b ≡ digits rest op a a b
  more zero a b = let none_more : a + 0 ≡ a = omega arith in rw none_more
  more (suc d) a b =
      let last : a + suc d ≡ suc (a + d) = omega arith in
      rw (last, one_more a b (a + d) (omega arith)) (more d a b)

  half_fuel : (a b : ℕ) → digits rest op a (suc a / 2) b ≡ digits rest op (suc a / 2) (suc a / 2) b
  half_fuel a b =
      let split : a ≡ suc a / 2 + (a - suc a / 2) = omega arith in
      ap (λ n. digits rest op n (suc a / 2) b) split ∙ more (a - suc a / 2) (suc a / 2) b

  by_digits : (a b : ℕ) → native_op a b ≡ native_op (a / 2) (b / 2) * 2 + op (a % 2) (b % 2)
  by_digits zero b =
      let here = law 0 b in let there = law 0 (b / 2) in omega (arith, here, there, on_zero b)
  by_digits (suc a) b =
      let whole = law (suc a) b in
      let half = half_fuel a (b / 2) in
      let other = law (suc a / 2) (b / 2) in
      whole ∙ ap (λ t. t * 2 + op (suc a % 2) (b % 2)) (half ∙ sym other)

bit_and_low : (a b : ℕ) → bit_and a b ≡ bit_and (a / 2) (b / 2) * 2 + min (a % 2) (b % 2)
bit_and_low = by_digits (λ b. 0) min bit_and bit_and-bitwise (λ b. omega arith)

bit_or_low : (a b : ℕ) → bit_or a b ≡ bit_or (a / 2) (b / 2) * 2 + max (a % 2) (b % 2)
bit_or_low = by_digits (λ b. b) max bit_or bit_or-bitwise (λ b. omega arith)

-- Below any bound, so that the recursion on the bound reaches every number.
no_common_bits : (bound a : ℕ) → a ≤ bound → bit_and a 0 ≡ 0
no_common_bits bound zero h = bit_and-bitwise 0 0
no_common_bits zero (suc a) h = ground arith
no_common_bits (suc bound) (suc a) h =
    let half = no_common_bits bound (suc a / 2) (omega arith) in
    omega (arith, half, bit_and_low (suc a) 0)

twice_power : (q k : ℕ) → q * 2 ^ suc k ≡ 2 * (q * 2 ^ k)
twice_power q k = omega (arith, ap (λ (t : ℕ). q * t) (pow-suc 2 k))

-- `lo | (hi << k)` is a sum when `lo` fits k bits.
pub bit_or_shifted : (k lo hi : ℕ) → lo < 2 ^ k → bit_or lo (hi * 2 ^ k) ≡ lo + hi * 2 ^ k
bit_or_shifted zero lo hi h = ground (arith, bit_or-bitwise 0 (hi * 1))
bit_or_shifted (suc k) lo hi h = ground (
  arith,
  bit_or_low lo (hi * 2 ^ suc k),
  twice_power hi k,
  pow-suc 2 k,
  bit_or_shifted k (lo / 2) hi (omega (arith, pow-suc 2 k)),
)

-- `a & (2^k - 1)` is the remainder by `2 ^ k`, with `a` split at bit k.
bit_and_split : (k hi lo : ℕ) → lo < 2 ^ k → bit_and (lo + hi * 2 ^ k) (2 ^ k - 1) ≡ lo
bit_and_split zero hi lo h = ground (arith, no_common_bits (lo + hi * 1) (lo + hi * 1) (le_refl _))
bit_and_split (suc k) hi lo h = ground (
  arith,
  bit_and_low (lo + hi * 2 ^ suc k) (2 ^ suc k - 1),
  twice_power hi k,
  pow-suc 2 k,
  one-le-pow k 2,
  bit_and_split k hi (lo / 2) (omega (arith, pow-suc 2 k)),
)

pub bit_and_mask : (k a : ℕ) → bit_and a (2 ^ k - 1) ≡ a % 2 ^ k
bit_and_mask k a = ground (arith, one-le-pow k 2, bit_and_split k (a / 2 ^ k) (a % 2 ^ k))

-- A mask whose ones start at bit k reads the bits from k on.
pub bit_and_above :
    (k hi lo m : ℕ) → lo < 2 ^ k → bit_and (lo + hi * 2 ^ k) (m * 2 ^ k) ≡ bit_and hi m * 2 ^ k
bit_and_above zero hi zero m h = ground arith
bit_and_above zero hi (suc lo) m h = absurd (omega arith)
bit_and_above (suc k) hi lo m h = ground (
  arith,
  bit_and_low (lo + hi * 2 ^ suc k) (m * 2 ^ suc k),
  twice_power hi k,
  twice_power m k,
  twice_power (bit_and hi m) k,
  pow-suc 2 k,
  bit_and_above k hi (lo / 2) m (omega (arith, pow-suc 2 k)),
)

-- `(a & ~m) & m` is 0, of numbers of w bits.
pub bit_and_cleared : (w a m : ℕ) → m < 2 ^ w → bit_and (bit_and a (2 ^ w - 1 - m)) m ≡ 0
bit_and_cleared zero a zero h = no_common_bits _ (bit_and a (2 ^ zero - 1 - 0)) (le_refl _)
bit_and_cleared zero a (suc m) h = absurd (omega arith)
bit_and_cleared (suc w) a m h =
    let other = 2 ^ suc w - 1 - m in
    let half : other / 2 ≡ 2 ^ w - 1 - m / 2 = omega (arith, pow-suc 2 w) in
    let parity : other % 2 ≡ 1 - m % 2 = omega (arith, pow-suc 2 w) in
    let inner = bit_and_low a other in
    let outer = bit_and_low (bit_and a other) m in
    let kept : bit_and a other / 2 ≡ bit_and (a / 2) (2 ^ w - 1 - m / 2) =
      omega (arith, inner, ap (bit_and (a / 2)) half) in
    let rest = bit_and_cleared w (a / 2) (m / 2) (omega (arith, pow-suc 2 w)) in
    let above : bit_and (bit_and a other / 2) (m / 2) ≡ 0 =
      ap (λ (x : ℕ). bit_and x (m / 2)) kept ∙ rest in
    omega (arith, inner, outer, parity, above)
