-- ===== src/Subr/Decimal.antt =====
-- `sysfs_atoi` of kext/sysfs_subr.c against the decimal numbers that `%u` prints, by way of a reader
-- whose value has no bound.
use m_sl_sys_fs.Base.{
  tests, ℕ, zero, suc, ◌+◌, ◌*◌, ◌/◌, ◌%◌, ◌-◌, ◌^◌, ◌≤◌, ◌<◌, ◌≡◌, refl, arith, ap, ◌∙◌, leb, ltb,
  Bool-cases, inl, inr, Bool, true, false, ◌&&◌, if◌then◌else◌, some, [], ◌∷◌, ◌++◌, Bytes,
  to_decimal, digits_fuel, ltb→le,
}
use m_sl_sys_fs.Subr.{atoi, atoi_loop}

abbrev pub is_digit : ℕ → Bool
is_digit c = leb b'0' c && leb c b'9'

-- A text that does not go on with a digit.
abbrev pub stops : Bytes → Bool
stops [] = true
stops (c ∷ s) = if is_digit c then false else true

-- Decimal digits, as many as there are: the value so far, and the digits read
unfoldable pub read_digits : Bytes → ℕ → ℕ → ℕ × ℕ × Bytes
read_digits [] value digits = (value, digits, [])
read_digits (c ∷ s) value digits =
    if is_digit c
    then read_digits s (value * 10 + (c - b'0')) (digits + 1)
    else (value, digits, c ∷ s)

digit_loop :
    (d : ℕ) (s : Bytes) (v k : ℕ)
    → d < 10
    → read_digits ((b'0' + d) ∷ s) v k ≡ read_digits s (v * 10 + d) (k + 1)
unfolding read_digits
digit_loop d s v k h = ground arith

-- The digits of `n` in front of `out` read as `n`, and there is at least one.
digits_loop :
    (f n : ℕ) (out : Bytes)
    → n < f
    → (k : ℕ) × (0 < k) × (read_digits (digits_fuel f n out) 0 0 ≡ read_digits out n k)
unfolding digits_fuel
digits_loop zero n out h = ground arith
digits_loop (suc f) n out h = elim (Bool-cases (ltb n 10)) [
  | inl e ↦
      let l : n < 10 = grind tests in
      (
        1,
        omega arith,
        rw e (
            digit_loop (n % 10) out 0 0 (omega arith)
            ∙ ap (λ v. read_digits out v 1) (omega arith)),
      )
  | inr e ↦
      let l : 10 ≤ n = ltb→le n 10 e in
      let (k, p, q) = digits_loop f (n / 10) ((b'0' + n % 10) ∷ out) (omega arith) in
      (
        k + 1,
        omega arith,
        rw e (
            q
            ∙ digit_loop (n % 10) out (n / 10) k (omega arith)
            ∙ ap (λ v. read_digits out v (k + 1)) (omega arith)),
      )
]

stops_loop : (s : Bytes) (v k : ℕ) → stops s ≡ true → read_digits s v k ≡ (v, k, s)
unfolding read_digits
stops_loop [] v k h = refl
stops_loop (c ∷ s) v k h = ground arith

append_digits :
    (f n : ℕ) (out rest : Bytes) → digits_fuel f n out ++ rest ≡ digits_fuel f n (out ++ rest)
unfolding digits_fuel
append_digits zero n out rest = refl
append_digits (suc f) n out rest =
    ground (arith, append_digits f (n / 10) ((b'0' + n % 10) ∷ out) rest)

-- The exact reader reads back what `%u` prints, up to the first character that is no digit.
pub read-to_decimal :
    (n : ℕ) (rest : Bytes)
    → stops rest ≡ true
    → (k : ℕ) × (0 < k) × (read_digits (to_decimal n ++ rest) 0 0 ≡ (n, k, rest))
unfolding to_decimal
read-to_decimal n rest h =
    let (k, p, q) = digits_loop (suc n) n rest (omega arith) in
    (
      k,
      p,
      ap (λ s. read_digits s 0 0) (append_digits (suc n) n [] rest) ∙ q ∙ stops_loop rest n k h,
    )

abbrev wrap : ℕ × ℕ × Bytes → ℕ × ℕ × Bytes
wrap (value, digits, rest) = (value % 2 ^ 32, digits, rest)

-- The loop comes to the bit pattern of the exact value.
loop-wrap : (s : Bytes) (v k : ℕ) → atoi_loop s (v % 2 ^ 32) k ≡ wrap (read_digits s v k)
unfolding atoi_loop read_digits
loop-wrap [] v k = refl
loop-wrap (c ∷ s) v k = elim (Bool-cases (is_digit c)) [
  | inl e ↦
      let z : (v % 2 ^ 32 * 10 + (c - b'0')) % 2 ^ 32 ≡ (v * 10 + (c - b'0')) % 2 ^ 32 =
        omega arith in
      rw e (ap (λ x. atoi_loop s x (k + 1)) z ∙ loop-wrap s (v * 10 + (c - b'0')) (k + 1))
  | inr e ↦ rw e refl
]

-- `sysfs_atoi` reads back what `%u` prints for a number that an `int` can hold, up to the first
-- character that is no digit, and returns the rest.
pub atoi-to_decimal :
    (n : ℕ) (rest : Bytes)
    → n < 2 ^ 31
    → stops rest ≡ true
    → atoi (to_decimal n ++ rest) ≡ (some n, rest)
unfolding atoi
atoi-to_decimal n rest b h =
    let (k, p, q) = read-to_decimal n rest h in
    let z : n % 2 ^ 32 ≡ n = omega (arith, b) in
    let e : atoi_loop (to_decimal n ++ rest) 0 0 ≡ (n, k, rest) =
      loop-wrap (to_decimal n ++ rest) 0 0 ∙ ap wrap q ∙ ap (λ v. (v, k, rest)) z in
    rw e (ground (arith, p))
