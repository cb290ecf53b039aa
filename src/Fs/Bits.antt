-- ===== src/Fs/Bits.antt =====
-- The bit operations of balloc and bfree.
use operating_systems_projec.Prelude.{
  ℕ, zero, suc, ◌+◌, ◌*◌, ◌/◌, ◌%◌, ◌≡◌, ◌==◌, if◌then◌else◌, arith,
}
use operating_systems_projec.Fs.{bit, set_bit, clear_bit}

pub bit-set_bit : (k j x : ℕ) → bit j (set_bit k x) ≡ (if k == j then 1 else bit j x)
unfolding bit set_bit
bit-set_bit zero zero x = omega arith
bit-set_bit zero (suc j) x = ground (arith, half x)
  where
    half : (x : ℕ) → (x / 2 * 2 + 1) / 2 ≡ x / 2
    half x = omega arith
bit-set_bit (suc k) zero x = ground arith
bit-set_bit (suc k) (suc j) x = ground (arith, half x, bit-set_bit k j (x / 2))
  where
    half : (x : ℕ) → (x % 2 + 2 * set_bit k (x / 2)) / 2 ≡ set_bit k (x / 2)
    half x = omega arith

pub bit-clear_bit : (k j x : ℕ) → bit j (clear_bit k x) ≡ (if k == j then 0 else bit j x)
unfolding bit clear_bit
bit-clear_bit zero zero x = omega arith
bit-clear_bit zero (suc j) x = ground (arith, half x)
  where
    half : (x : ℕ) → (x / 2 * 2) / 2 ≡ x / 2
    half x = omega arith
bit-clear_bit (suc k) zero x = ground arith
bit-clear_bit (suc k) (suc j) x = ground (arith, half x, bit-clear_bit k j (x / 2))
  where
    half : (x : ℕ) → (x % 2 + 2 * clear_bit k (x / 2)) / 2 ≡ clear_bit k (x / 2)
    half x = omega arith
