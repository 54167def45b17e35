-- ===== src/Runtime/PowTwo.antt =====
-- `pow2ceil` of include/util.hpp, on 32-bit words.
use bad_snap.Common.{
  ℕ, zero, suc, ◌+◌, ◌-◌, ◌*◌, ◌/◌, ◌%◌, ◌^◌, ◌≤◌, ◌<◌, ◌≡◌, ap, arith, if◌then◌else◌, ◌==◌, ◌||◌,
}

-- `a | b` on the lowest bits of two numbers.
unfoldable pub bit_or : ℕ → ℕ → ℕ → ℕ
bit_or zero a b = 0
bit_or (suc bits) a b =
    (if a % 2 == 1 || b % 2 == 1 then 1 else 0) + 2 * bit_or bits (a / 2) (b / 2)

-- `v |= v >> n`, where `d` is 2 ^ n.
unfoldable pub or_shifted : ℕ → ℕ → ℕ
unfolding bit_or
or_shifted d v = bit_or 32 v (v / d)

-- The five shifts of `pow2ceil`.
unfoldable pub spread : ℕ → ℕ
unfolding or_shifted
spread v =
    or_shifted (2 ^ 16)
      (or_shifted (2 ^ 8) (or_shifted (2 ^ 4) (or_shifted (2 ^ 2) (or_shifted 2 v))))

unfoldable pub pow2ceil : ℕ → ℕ
unfolding spread
pow2ceil v = (spread ((v + 2 ^ 32 - 1) % 2 ^ 32) + 1) % 2 ^ 32

unfoldable doubled : ℕ → ℕ
doubled zero = 1
doubled (suc k) = 2 * doubled k

bit_or_ge : (bits a b : ℕ) → a < doubled bits → a ≤ bit_or bits a b
unfolding bit_or doubled
bit_or_ge zero a b small = ground arith
bit_or_ge (suc bits) a b small = ground (arith, bit_or_ge bits (a / 2) (b / 2))

bit_or_lt : (bits k a b : ℕ) → a < doubled k → b < doubled k → bit_or bits a b < doubled k
unfolding bit_or doubled
bit_or_lt zero k a b small_a small_b = ground arith
bit_or_lt (suc bits) zero a b small_a small_b = ground (arith, bit_or_lt bits zero (a / 2) (b / 2))
bit_or_lt (suc bits) (suc k) a b small_a small_b = ground (arith, bit_or_lt bits k (a / 2) (b / 2))

or_shifted_lem :
    (d v : ℕ) → v / d ≤ v → v < doubled 31 → (v ≤ or_shifted d v) × (or_shifted d v < doubled 31)
unfolding or_shifted doubled
or_shifted_lem d v less small =
    (bit_or_ge 32 v (v / d) (omega arith), bit_or_lt 32 31 v (v / d) small (omega arith))

spread_lem : (v : ℕ) → v < doubled 31 → (v ≤ spread v) × (spread v < doubled 31)
unfolding spread
spread_lem v small =
    let (ge1, lt1) = or_shifted_lem 2 v (omega arith) small in
    let v1 = or_shifted 2 v in
    let (ge2, lt2) = or_shifted_lem (2 ^ 2) v1 (omega arith) lt1 in
    let v2 = or_shifted (2 ^ 2) v1 in
    let (ge3, lt3) = or_shifted_lem (2 ^ 4) v2 (omega arith) lt2 in
    let v3 = or_shifted (2 ^ 4) v2 in
    let (ge4, lt4) = or_shifted_lem (2 ^ 8) v3 (omega arith) lt3 in
    let (ge5, lt5) = or_shifted_lem (2 ^ 16) (or_shifted (2 ^ 8) v3) (omega arith) lt4 in
    (omega arith, lt5)

no_wrap : (v n r : ℕ) → r ≡ (n + 1) % 2 ^ 32 → v ≤ n → n < 2 ^ 31 → (suc v ≤ r) × (r ≤ 2 ^ 31)
no_wrap v n r e ge lt = (omega arith, omega arith)

-- Up to 2 ^ 31 the sum does not wrap, and the result is no less than the argument.
pub pow2ceil_ge : (v : ℕ) → v ≤ 2 ^ 31 → (v ≤ pow2ceil v) × (pow2ceil v ≤ 2 ^ 31)
unfolding pow2ceil doubled
pow2ceil_ge zero small = (omega arith, omega arith)
pow2ceil_ge (suc v) small =
    let less : (suc v + 2 ^ 32 - 1) % 2 ^ 32 ≡ v = omega arith in
    let same : pow2ceil (suc v) ≡ (spread v + 1) % 2 ^ 32 =
      ap (λ n. (spread n + 1) % 2 ^ 32) less in
    let (ge, lt) = spread_lem v (omega arith) in no_wrap v (spread v) (pow2ceil (suc v)) same ge lt
