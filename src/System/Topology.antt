-- ===== src/System/Topology.antt =====
-- The topology files of kext/sysfs_system.c: cores and thread siblings.
use m_sl_sys_fs.Base.{
  ℕ, zero, suc, ◌+◌, ◌*◌, ◌/◌, ◌≤◌, ◌<◌, ◌≡◌, ◌↔◌, arith, sym, leb, Bool-cases, inl, inr, lt_of_leb,
  tests, refl, ap, ◌∙◌, subst, ◌-◌, ◌%◌, ◌^◌, [], ◌∷◌, ◌++◌, Bytes, codes, to_decimal, ◌==◌,
  if◌then◌else◌,
}
use native.Mathlib.Nat.{div-mul-le_self, lt-div-mul-add, div-eq_of_lt-le, le-div_iff_mul-le}
use m_sl_sys_fs.System.{
  Sysctl, Answer, no_answer, negative, number, ncpu, threads_of, threads_per_core, core_id,
  first_sibling, siblings_text,
}
use m_sl_sys_fs.Subr.Decimal.{read_digits, read-to_decimal}

-- A core has at least one thread.
threads_pos : (sys : Sysctl) (a : Answer) → 0 < threads_of sys a
unfolding threads_of
threads_pos sys no_answer = omega arith
threads_pos sys (negative n) = omega arith
threads_pos sys (number zero) = omega arith
threads_pos sys (number (suc phys)) = elim (Bool-cases (leb (ncpu sys) (suc phys))) [
  | inl e ↦ rw e (omega arith)
  | inr e ↦
      let l : suc phys < ncpu sys = lt_of_leb (ncpu sys) (suc phys) e in
      rw e ((le-div_iff_mul-le {k = suc phys} (omega arith)).1 (omega arith))
]

same_core : (t c d : ℕ) → 0 < t → (d / t ≡ c / t) ↔ ((c / t * t ≤ d) × (d < c / t * t + t))
same_core t c d h = (
  (λ e.
      let lo : d / t * t ≤ d = div-mul-le_self d t in
      let hi : d < d / t * t + t = lt-div-mul-add h in (rw (sym e) lo, rw (sym e) hi)),
  (λ (lo, hi).
      div-eq_of_lt-le {k = c / t} t lo
        (let e : (c / t + 1) * t ≡ c / t * t + t = omega arith in rw e hi)),
)

core_id-run :
    (sys : Sysctl) (c d : ℕ)
    → (core_id sys d ≡ core_id sys c)
      ↔ ((first_sibling sys c ≤ d) × (d < first_sibling sys c + threads_per_core sys))
unfolding core_id first_sibling
core_id-run sys c d = same_core (threads_per_core sys) c d (threads_pos sys sys.physicalcpu_max)

-- A reader of a list of one CPU or one run of CPUs: its first and its last one
abbrev range_end : ℕ → Bytes → ℕ × ℕ
range_end lo [] = (lo, lo)
range_end lo (c ∷ s) = if c == b'-' then (lo, (read_digits s 0 0).0) else (lo, lo)

unfoldable pub read_range : Bytes → ℕ × ℕ
read_range s = let (lo, k, rest) = read_digits s 0 0 in range_end lo rest

read_single : (n : ℕ) → read_range (to_decimal n ++ codes "\n") ≡ (n, n)
unfolding read_range
read_single n = let (k, p, q) = read-to_decimal n (codes "\n") refl in rw q refl

read_run :
    (lo hi : ℕ)
    → read_range (to_decimal lo ++ (codes "-" ++ (to_decimal hi ++ codes "\n"))) ≡ (lo, hi)
unfolding read_range
read_run lo hi =
    let (k, p, q) = read-to_decimal lo (codes "-" ++ (to_decimal hi ++ codes "\n")) refl in
    let (k', p', q') = read-to_decimal hi (codes "\n") refl in
    rw q (ap (λ (r : ℕ × ℕ × Bytes). (lo, r.0)) q')

-- What thread_siblings_list shows, read back
siblings_text-range :
    (sys : Sysctl) (c : ℕ)
    → c + threads_per_core sys ≤ 2 ^ 32
    → read_range (siblings_text sys c)
      ≡ (first_sibling sys c, first_sibling sys c + threads_per_core sys - 1)
unfolding siblings_text
siblings_text-range sys c h =
    let t : ℕ = threads_per_core sys in
    let pos : 0 < t = threads_pos sys sys.physicalcpu_max in
    let below : first_sibling sys c ≤ c = unfold first_sibling in div-mul-le_self c t in
    elim (Bool-cases (leb t 1)) [
      | inl e ↦
          let le : t ≤ 1 = grind tests in
          let one : t ≡ 1 = omega (arith, le, pos) in
          let z : c ≡ first_sibling sys c =
            unfold first_sibling in
            let w : c ≡ c / 1 * 1 = omega arith in subst (λ t. c ≡ c / t * t) (sym one) w in
          let z' : c ≡ first_sibling sys c + t - 1 = omega (arith, z, one) in
          rw e (read_single c ∙ ap (λ a. (a, c)) z ∙ ap (λ b. (first_sibling sys c, b)) z')
      | inr e ↦
          let hi : ℕ = first_sibling sys c + t - 1 in
          let z : hi % 2 ^ 32 ≡ hi = omega (arith, below, h, pos) in
          rw e (read_run (first_sibling sys c) (hi % 2 ^ 32) ∙ ap (λ b. (first_sibling sys c, b)) z)
    ]

-- Two CPUs have the same core_id exactly if one is in the run of CPUs that the text of
-- thread_siblings_list, read back, names for the other; the last number of the text is below 2 ^ 32.
pub core_id-siblings :
    (sys : Sysctl) (c d : ℕ)
    → c + threads_per_core sys ≤ 2 ^ 32
    → (core_id sys d ≡ core_id sys c)
      ↔ (((read_range (siblings_text sys c)).0 ≤ d) × (d ≤ (read_range (siblings_text sys c)).1))
core_id-siblings sys c d h =
    let (there, back) = core_id-run sys c d in
    let pos : 0 < threads_per_core sys = threads_pos sys sys.physicalcpu_max in
    let e = siblings_text-range sys c h in
    (
      λ q. let (lo, hi) = there q in rw e (lo, omega (arith, hi)),
      λ (lo, hi).
          let lo' : first_sibling sys c ≤ d = subst (λ (r : ℕ × ℕ). r.0 ≤ d) e lo in
          let hi' : d ≤ first_sibling sys c + threads_per_core sys - 1 =
            subst (λ (r : ℕ × ℕ). d ≤ r.1) e hi in
          back (lo', omega (arith, hi', pos)),
    )
