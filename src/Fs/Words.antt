-- ===== src/Fs/Words.antt =====
-- Numbers in the bytes of a block, low byte first: `uint` words and the fields of `struct dinode`.
use operating_systems_projec.Prelude.{
  ℕ, zero, suc, ◌+◌, ◌*◌, ◌/◌, ◌%◌, ◌<◌, ◌≡◌, ◌==◌, if◌then◌else◌, arith,
}
use operating_systems_projec.Fs.{Block}

-- Byte `k` of a 32-bit number.
abbrev pub byte_of : ℕ → ℕ → ℕ
byte_of v zero = v % 256
byte_of v (suc zero) = v / 256 % 256
byte_of v (suc (suc zero)) = v / 65536 % 256
byte_of v (suc (suc (suc k))) = v / 16777216 % 256

abbrev pub get_short : Block → ℕ → ℕ
get_short w i = w i + w (i + 1) * 256

-- `*(uint*)` at byte `i`, and `((uint*)w)[i]`.
abbrev pub get_uint : Block → ℕ → ℕ
get_uint w i = w i + w (i + 1) * 256 + w (i + 2) * 65536 + w (i + 3) * 16777216

unfoldable pub get_word : Block → ℕ → ℕ
get_word w i = get_uint w (i * 4)

unfoldable pub put_word : ℕ → ℕ → Block → Block
put_word i v w j = if j / 4 == i then byte_of v (j % 4) else w j

pub get-byte_of :
    (v : ℕ)
    → v < 4294967296
    → byte_of v 0 + byte_of v 1 * 256 + byte_of v 2 * 65536 + byte_of v 3 * 16777216 ≡ v
get-byte_of v h = omega arith

pub get_word-put_word :
    (w : Block) (i j v : ℕ)
    → v < 4294967296
    → get_word (put_word i v w) j ≡ (if i == j then v else get_word w j)
unfolding get_word put_word
get_word-put_word w i j v h =
    let a : (j * 4) / 4 ≡ j = omega arith in
    let b : (j * 4 + 1) / 4 ≡ j = omega arith in
    let c : (j * 4 + 2) / 4 ≡ j = omega arith in
    let d : (j * 4 + 3) / 4 ≡ j = omega arith in
    let a' : (j * 4) % 4 ≡ 0 = omega arith in
    let b' : (j * 4 + 1) % 4 ≡ 1 = omega arith in
    let c' : (j * 4 + 2) % 4 ≡ 2 = omega arith in
    let d' : (j * 4 + 3) % 4 ≡ 3 = omega arith in
    rw (a, b, c, d, a', b', c', d') (ground (arith, get-byte_of v h))

pub get_word-zero : (w : Block) (i : ℕ) → ((j : ℕ) → j < 512 → w j ≡ 0) → i < 128 → get_word w i ≡ 0
unfolding get_word
get_word-zero w i z h = omega (arith, z (i * 4), z (i * 4 + 1), z (i * 4 + 2), z (i * 4 + 3))
