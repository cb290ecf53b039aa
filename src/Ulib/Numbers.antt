-- ===== src/Ulib/Numbers.antt =====
-- atoi reads what printint prints.
use operating_systems_projec.Prelude.{
  ℕ, zero, suc, ◌+◌, ◌-◌, ◌*◌, ◌/◌, ◌%◌, ◌^◌, ◌≤◌, ◌<◌, ◌≡◌, refl, ap, ◌∙◌, inl, inr, true, ◌&&◌,
  List, [], ◌∷◌, ◌==◌, leb, get_or, length, Bool-cases, arith,
}
use operating_systems_projec.Ulib.{
  digits, minus, store_digits, max_digits, printint, atoi_from, atoi,
}

abbrev power : ℕ → ℕ
power zero = 1
power (suc n) = 10 * power n

get_or-digits : (x : ℕ) → x < 10 → get_or digits x 0 ≡ 48 + x
get_or-digits zero h = refl
get_or-digits (suc zero) h = refl
get_or-digits (suc (suc zero)) h = refl
get_or-digits (suc (suc (suc zero))) h = refl
get_or-digits (suc (suc (suc (suc zero)))) h = refl
get_or-digits (suc (suc (suc (suc (suc zero))))) h = refl
get_or-digits (suc (suc (suc (suc (suc (suc zero)))))) h = refl
get_or-digits (suc (suc (suc (suc (suc (suc (suc zero))))))) h = refl
get_or-digits (suc (suc (suc (suc (suc (suc (suc (suc zero)))))))) h = refl
get_or-digits (suc (suc (suc (suc (suc (suc (suc (suc (suc zero))))))))) h = refl
get_or-digits (suc (suc (suc (suc (suc (suc (suc (suc (suc (suc n)))))))))) h = absurd (omega arith)

atoi_from-digit :
    (n x : ℕ) (s : List ℕ)
    → x < 10
    → n * 10 + x < 2 ^ 32
    → atoi_from n (get_or digits x 0 ∷ s) ≡ atoi_from (n * 10 + x) s
unfolding atoi_from
atoi_from-digit n x s h k =
    let d = get_or-digits x h in
    let e : (n * 10 + (48 + x) + 2 ^ 32 - 48) % 2 ^ 32 ≡ n * 10 + x = omega arith in
    let l : leb 48 (48 + x) && leb (48 + x) 57 ≡ true = ground arith in rw (d, l, e) refl

atoi_from-store_digits :
    (r x : ℕ) (buf : List ℕ)
    → x < power r
    → x < 2 ^ 32
    → atoi_from 0 (store_digits r 10 x buf) ≡ atoi_from x buf
unfolding store_digits
atoi_from-store_digits zero x buf h k = let e : 0 ≡ x = omega arith in ap (λ n. atoi_from n buf) e
atoi_from-store_digits (suc r) x buf h k = elim (Bool-cases (x / 10 == 0)) [
  | inl e ↦
      let q : 0 * 10 + x % 10 ≡ x = ground arith in
      rw e
        (atoi_from-digit 0 (x % 10) buf (omega arith) (omega arith) ∙ ap (λ n. atoi_from n buf) q)
  | inr e ↦
      let q : x / 10 * 10 + x % 10 ≡ x = omega arith in
      let below : x / 10 < power r = omega arith in
      rw e (
        atoi_from-store_digits r (x / 10) (get_or digits (x % 10) 0 ∷ buf) below (omega arith)
        ∙ atoi_from-digit (x / 10) (x % 10) buf (omega arith) (omega arith)
        ∙ ap (λ n. atoi_from n buf) q)
]

length-store_digits :
    (r k x : ℕ) (buf : List ℕ)
    → x < power (suc k)
    → length (store_digits r 10 x buf) ≤ length buf + suc k
unfolding store_digits
length-store_digits zero k x buf h = omega arith
length-store_digits (suc r) zero x buf h =
    let e : (x / 10 == 0) ≡ true = ground arith in rw e (omega arith)
length-store_digits (suc r) (suc k) x buf h =
    let ih = length-store_digits r k (x / 10) (get_or digits (x % 10) 0 ∷ buf) (omega arith) in
    elim (Bool-cases (x / 10 == 0)) [
      | inl e ↦ rw e (omega arith)
      | inr e ↦ rw e (omega (arith, ih))
    ]

-- The digits of a `uint`.
store_digits_lem :
    (x : ℕ)
    → x < 2 ^ 32
    → (length (store_digits max_digits 10 x []) ≤ 10)
      × (atoi_from 0 (store_digits max_digits 10 x []) ≡ x)
store_digits_lem x h =
    let few : x < 10 ^ 10 = omega arith in
    let many : x < 10 ^ 32 = omega arith in
    (
      omega (arith, length-store_digits max_digits 9 x [] few),
      atoi_from-store_digits max_digits x [] many h ∙ (unfold atoi_from in refl),
    )

-- printint of an `int` in base 10: it stores at most 11 characters, so that they fit its array of 16. Of
-- a number that is not negative they are text that atoi reads back as this number; of a negative one they
-- are a minus sign, in front of text that atoi reads as its absolute value.
pub atoi-printint :
    (xx : ℕ)
    → xx < 2 ^ 32
    → (length (printint xx 10 true) ≤ 11)
      × (xx < 2 ^ 31 → atoi (printint xx 10 true) ≡ xx)
      × (2 ^ 31 ≤ xx
          → (text : List ℕ) × (printint xx 10 true ≡ minus ∷ text) × (atoi text ≡ 2 ^ 32 - xx))
unfolding printint atoi
atoi-printint xx h = elim (Bool-cases (leb (2 ^ 31) xx)) [
  | inl e ↦
      let big : 2 ^ 31 ≤ xx = ground arith in
      let m : (2 ^ 32 - xx) % 2 ^ 32 ≡ 2 ^ 32 - xx = omega arith in
      let (l, a) = store_digits_lem (2 ^ 32 - xx) (omega arith) in
      let text = store_digits max_digits 10 (2 ^ 32 - xx) [] in
      rw (e, m) (omega (arith, l), λ k. absurd (omega (arith, k)), λ k. (text, refl, a))
  | inr e ↦
      let below : xx < 2 ^ 31 = ground arith in
      let (l, a) = store_digits_lem xx h in
      rw e (omega (arith, l), λ k. a, λ k. absurd (omega (arith, k)))
]
