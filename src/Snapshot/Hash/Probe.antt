-- ===== src/Snapshot/Hash/Probe.antt =====
-- Linear probing (kext/sysfs_iokit.cpp): a mask is a remainder, and the probes reach every slot.
use Prim.Native.Nat.{digits, bit_and-bitwise}
use native.Mathlib.Nat.{
  one-le-pow, two-pow-succ, mod-add-mod, add-mod_right, mod-eq_of_lt, mod-lt, zero-mod,
}
use m_sl_sys_fs.Base.{
  ℕ, zero, suc, ◌+◌, ◌-◌, ◌*◌, ◌/◌, ◌%◌, ◌^◌, ◌≤◌, ◌<◌, min, bit_and, ◌≡◌, ◌∙◌, ap, sym, arith,
  tests, leb, Bool-cases, inl, inr,
}
use m_sl_sys_fs.Snapshot.Hash.{masked}

-- A remainder by `2 * m`, digit by digit.
mod_double : (a m : ℕ) → 0 < m → (a / 2 % m) * 2 + a % 2 ≡ a % (2 * m)
mod_double a m h = grind arith

mask_digits : (n a k : ℕ) → a ≤ n → digits (λ b. 0) min n a (2 ^ k - 1) ≡ a % 2 ^ k
mask_digits zero zero k h = omega (arith, zero-mod (2 ^ k))
mask_digits zero (suc a) k h = absurd (omega arith)
mask_digits (suc n) zero k h = omega (arith, zero-mod (2 ^ k))
mask_digits (suc n) (suc a) zero h = omega (arith, mask_digits n (suc a / 2) 0 (omega arith))
mask_digits (suc n) (suc a) (suc k) h =
    let pos : 0 < 2 ^ k = one-le-pow k 2 (omega arith) in
    let d : 2 ^ suc k ≡ 2 * 2 ^ k = omega (arith, two-pow-succ k) in
    let half : (2 ^ suc k - 1) / 2 ≡ 2 ^ k - 1 = omega (arith, d, pos) in
    let odd : (2 ^ suc k - 1) % 2 ≡ 1 = omega (arith, d, pos) in
    let rest = mask_digits n (suc a / 2) k (omega arith) in
    let m : (suc a / 2 % 2 ^ k) * 2 + suc a % 2 ≡ suc a % 2 ^ suc k =
      mod_double (suc a) (2 ^ k) pos ∙ ap (λ z. suc a % z) (sym d) in
    rw (half, odd, rest) (omega (arith, m))

-- The sizes of the tables: powers of two.
abbrev pub IsPow2 : ℕ → Type 0
IsPow2 size = (k : ℕ) × (size ≡ 2 ^ k)

module _ (size : ℕ) (p : IsPow2 size) where
  pub size_pos : 0 < size
  size_pos = rw (p.1) (one-le-pow p.0 2 (omega arith))

  pub masked-mod : (h : ℕ) → masked size h ≡ h % size
  masked-mod h =
      let e : bit_and h (2 ^ p.0 - 1) ≡ h % 2 ^ p.0 =
        bit_and-bitwise h _ ∙ mask_digits h h p.0 (omega arith) in
      rw (p.1) e

  pub masked-lt : (h : ℕ) → masked size h < size
  masked-lt h = rw (masked-mod h) (mod-lt h size_pos)

-- The `j`-th slot that is looked at from slot `h` on.
unfoldable pub probe : ℕ → ℕ → ℕ → ℕ
probe size h zero = h
probe size h (suc j) = probe size (masked size (h + 1)) j

module _ (size : ℕ) (p : IsPow2 size) where
  probe-mod : (h j : ℕ) → h < size → probe size h j ≡ (h + j) % size
  unfolding probe
  probe-mod h zero l = sym (ap (λ z. z % size) (omega arith) ∙ mod-eq_of_lt l)
  probe-mod h (suc j) l =
      probe-mod (masked size (h + 1)) j (masked-lt size p (h + 1))
      ∙ ap (λ z. (z + j) % size) (masked-mod size p (h + 1))
      ∙ mod-add-mod (h + 1) size j
      ∙ ap (λ z. z % size) (omega arith)

  pub probe-lt : (h j : ℕ) → h < size → probe size h j < size
  probe-lt h j l = rw (probe-mod h j l) (mod-lt (h + j) (size_pos size p))

  -- Within as many probes as there are slots, every slot is reached.
  pub probe_reaches : (h s : ℕ) → h < size → s < size → (j : ℕ) × (j < size) × (probe size h j ≡ s)
  probe_reaches h s hl sl = elim (Bool-cases (leb h s)) [
    | inl e ↦
        let le : h ≤ s = grind tests in
        (
          s - h,
          omega arith,
          probe-mod h (s - h) hl ∙ ap (λ z. z % size) (omega arith) ∙ mod-eq_of_lt sl,
        )
    | inr e ↦
        let lt : s < h = grind tests in
        (
          s + size - h,
          omega arith,
          probe-mod h (s + size - h) hl
              ∙ ap (λ z. z % size) (omega arith)
              ∙ add-mod_right s size
              ∙ mod-eq_of_lt sl,
        )
  ]
