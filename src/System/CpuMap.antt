-- ===== src/System/CpuMap.antt =====
-- The CPU map of kext/sysfs_system.c, read back as a number.
use m_sl_sys_fs.Base.{
  tests, ℕ, zero, suc, ◌+◌, ◌-◌, ◌*◌, ◌/◌, ◌%◌, ◌^◌, ◌≤◌, ◌<◌, ◌≡◌, refl, arith, sym, true, false,
  append-nil, ap, ◌∙◌, leb, ltb, Bool-cases, inl, inr, if◌then◌else◌, [], ◌∷◌, ◌++◌, Bytes, codes,
  length, length-append, ◌==◌, append_assoc,
}
use native.Mathlib.Nat.{one-le-pow, two-pow-succ, pow-le-pow_right}
use m_sl_sys_fs.System.{
  to_hex, hex_digit, cpumap_loop, cpumap_text, group_text, in_buffer, top_mask, group_count,
  system_bufmax,
}

-- Groups of 32 CPUs each, preceded by a comma
unfoldable full_groups : ℕ → Bytes
full_groups zero = []
full_groups (suc g) = (44 ∷ to_hex 8 4294967295) ++ full_groups g

abbrev pub hex_value : ℕ → ℕ
hex_value c = if ltb c 97 then c - 48 else c - 87

-- A reader of the map: hexadecimal digits, commas between groups, and the end of the line.
pub read_map : Bytes → ℕ → ℕ
read_map [] acc = acc
read_map (c ∷ s) acc =
    let more = read_map s (acc * 16 + hex_value c) in
    let skip = read_map s acc in if c == 10 then acc else if c == 44 then skip else more

digit_read :
    (d : ℕ) (s : Bytes) (acc : ℕ)
    → d < 16
    → read_map (hex_digit d ∷ s) acc ≡ read_map s (acc * 16 + d)
unfolding read_map
digit_read d s acc h = ground arith

hex_read :
    (n : ℕ) (s : Bytes) (acc : ℕ)
    → n < 2 ^ 32
    → read_map (to_hex 8 n ++ s) acc ≡ read_map s (acc * 2 ^ 32 + n)
unfolding to_hex
hex_read n s acc h =
    let n1 : ℕ = n / 16 in
    let n2 : ℕ = n1 / 16 in
    let n3 : ℕ = n2 / 16 in
    let n4 : ℕ = n3 / 16 in
    let n5 : ℕ = n4 / 16 in
    let n6 : ℕ = n5 / 16 in
    let n7 : ℕ = n6 / 16 in
    let z : n7 / 16 ≡ 0 = omega arith in
    digit_read (n7 % 16) _ acc (omega arith)
    ∙ digit_read (n6 % 16) _ _ (omega arith)
    ∙ digit_read (n5 % 16) _ _ (omega arith)
    ∙ digit_read (n4 % 16) _ _ (omega arith)
    ∙ digit_read (n3 % 16) _ _ (omega arith)
    ∙ digit_read (n2 % 16) _ _ (omega arith)
    ∙ digit_read (n1 % 16) _ _ (omega arith)
    ∙ digit_read (n % 16) _ _ (omega arith)
    ∙ ap (read_map s) (omega arith)

pow_pos : (r : ℕ) → 1 ≤ 2 ^ r
pow_pos r = one-le-pow r 2 (omega arith)

pow_32 : (r : ℕ) → 2 ^ (r + 32) ≡ 2 ^ r * 2 ^ 32
pow_32 zero = refl
pow_32 (suc r) =
    let z : suc r + 32 ≡ suc (r + 32) = omega arith in
    ap (λ k. 2 ^ k) z ∙ two-pow-succ (r + 32) ∙ (omega (arith, pow_32 r, two-pow-succ r))

-- The groups of ones behind a group of `r` ones.
groups_read : (g r : ℕ) → read_map (full_groups g ++ codes "\n") (2 ^ r - 1) ≡ 2 ^ (r + g * 32) - 1
unfolding full_groups read_map
groups_read zero r = ap (λ k. 2 ^ k - 1) (omega arith)
groups_read (suc g) r =
    let rest : Bytes = full_groups g ++ codes "\n" in
    let e : (2 ^ r - 1) * 2 ^ 32 + 4294967295 ≡ 2 ^ (r + 32) - 1 =
      omega (arith, pow_pos r, pow_32 r) in
    let k : r + 32 + g * 32 ≡ r + suc g * 32 = omega arith in
    ap (λ s. read_map s (2 ^ r - 1))
      (ap (λ l. 44 ∷ l) (append_assoc (to_hex 8 4294967295) (full_groups g) (codes "\n")))
    ∙ hex_read 4294967295 rest (2 ^ r - 1) (omega arith)
    ∙ ap (read_map rest) e
    ∙ groups_read g (r + 32)
    ∙ ap (λ m. 2 ^ m - 1) k

top_mask_is : (r : ℕ) → r ≤ 32 → (top_mask r ≡ 2 ^ r - 1) × (top_mask r < 2 ^ 32)
top_mask_is r h = elim (Bool-cases (leb 32 r)) [
  | inl e ↦
      let z : r ≡ 32 = grind tests in
      let p : 2 ^ r ≡ 4294967296 = ap (λ k. 2 ^ k) z in rw e (omega arith, omega arith)
  | inr e ↦
      let p : 2 ^ r ≤ 4294967296 = pow-le-pow_right {n = 2} (omega arith) {i = r} {j = 32} h in
      rw e (refl, omega (arith, pow_pos r))
]

hex_length : (n : ℕ) → length (to_hex 8 n) ≡ 8
unfolding to_hex
hex_length n = refl

groups_length : (g : ℕ) → length (full_groups g) ≡ 9 * g
unfolding full_groups
groups_length zero = refl
groups_length (suc g) = omega (
  arith,
  length-append (44 ∷ to_hex 8 4294967295) (full_groups g),
  hex_length 4294967295,
  groups_length g,
)

full_group : (n g : ℕ) → g < group_count n → group_text n g ≡ 44 ∷ to_hex 8 4294967295
full_group n g h = let e : (g == group_count n) ≡ false = ground (arith, h) in rw e refl

-- While the buffer has room for them, the loop prints all groups below the most significant one.
loop_full :
    (n g : ℕ) (printed : Bytes)
    → g < group_count n
    → length printed + 9 * g < 512
    → cpumap_loop n g printed ≡ printed ++ full_groups g
unfolding cpumap_loop full_groups
loop_full n zero printed h b = sym (append-nil printed)
loop_full n (suc g) printed h b =
    let group : Bytes = 44 ∷ to_hex 8 4294967295 in
    let l : length (printed ++ group) + 9 * g < 512 =
      omega (arith, length-append printed group, hex_length 4294967295, b) in
    let room : ltb (length printed) system_bufmax ≡ true = ground (arith, b) in
    rw room (
      ap (λ t. cpumap_loop n g (printed ++ t)) (full_group n (suc g) h)
      ∙ loop_full n g (printed ++ group) (omega (arith, h)) l
      ∙ append_assoc printed group (full_groups g))

-- All that is printed for up to 1792 CPUs
plain_text : ℕ → Bytes
plain_text n =
    to_hex 8 (top_mask (n - (group_count n - 1) * 32))
    ++ (full_groups (group_count n - 1) ++ codes "\n")

plain_length : (n : ℕ) → 0 < n → length (plain_text n) ≡ 9 * group_count n
unfolding plain_text
plain_length n h =
    let g : ℕ = group_count n - 1 in
    let m : ℕ = top_mask (n - g * 32) in
    omega (
      arith,
      length-append (to_hex 8 m) (full_groups g ++ codes "\n"),
      length-append (full_groups g) (codes "\n"),
      hex_length m,
      groups_length g,
    )

loop_first :
    (n g : ℕ)
    → group_count n ≡ suc g
    → g < 56
    → cpumap_loop n (suc g) [] ++ codes "\n" ≡ plain_text n
unfolding cpumap_loop plain_text
loop_first n g e h =
    let m : ℕ = top_mask (n - (group_count n - 1) * 32) in
    let same : (suc g == group_count n) ≡ true = ground (arith, e) in
    let z : g ≡ group_count n - 1 = omega (arith, e) in
    let t : group_text n (suc g) ≡ to_hex 8 m = rw same refl in
    ap (λ t. cpumap_loop n g t ++ codes "\n") t
    ∙ ap (λ t. t ++ codes "\n")
        (loop_full n g (to_hex 8 m) (omega (arith, e)) (omega (arith, h, hex_length m)))
    ∙ append_assoc (to_hex 8 m) (full_groups g) (codes "\n")
    ∙ ap (λ g. to_hex 8 m ++ (full_groups g ++ codes "\n")) z

cpumap_text-plain : (behind n : ℕ) → 0 < n → n ≤ 1792 → cpumap_text behind n ≡ plain_text n
unfolding cpumap_text
cpumap_text-plain behind n h b =
    let g : ℕ = group_count n - 1 in
    let e : group_count n ≡ suc g = omega (arith, h) in
    let p : cpumap_loop n (group_count n) [] ++ codes "\n" ≡ plain_text n =
      ap (λ k. cpumap_loop n k [] ++ codes "\n") e ∙ loop_first n g e (omega (arith, b)) in
    let l : length (plain_text n) < 512 = omega (arith, plain_length n h, b) in
    let room : ltb (length (plain_text n)) system_bufmax ≡ true = ground (arith, l) in
    ap (in_buffer behind) p ∙ (rw room refl)

-- The CPU map of at most 1792 CPUs, read as a hexadecimal number, is 2 ^ n - 1: the bits 0 to n - 1 are
-- set and no others.
pub cpumap_text-ones :
    (behind n : ℕ) → 0 < n → n ≤ 1792 → read_map (cpumap_text behind n) 0 ≡ 2 ^ n - 1
unfolding plain_text
cpumap_text-ones behind n h b =
    let g : ℕ = group_count n - 1 in
    let r : ℕ = n - g * 32 in
    let (m, l) = top_mask_is r (omega arith) in
    let k : r + g * 32 ≡ n = omega arith in
    ap (λ t. read_map t 0) (cpumap_text-plain behind n h b)
    ∙ hex_read (top_mask r) (full_groups g ++ codes "\n") 0 l
    ∙ ap (read_map (full_groups g ++ codes "\n"))
        (let z : 0 * 2 ^ 32 + top_mask r ≡ top_mask r = omega arith in z ∙ m)
    ∙ groups_read g r
    ∙ ap (λ x. 2 ^ x - 1) k

-- The CPU map of at most 1792 CPUs fits into the buffer of 512 bytes, with its terminator: it has nine
-- characters for each group of 32 CPUs.
pub cpumap_text-length :
    (behind n : ℕ)
    → 0 < n
    → n ≤ 1792
    → (length (cpumap_text behind n) ≡ 9 * group_count n) × (length (cpumap_text behind n) < 512)
cpumap_text-length behind n h b =
    let e : length (cpumap_text behind n) ≡ 9 * group_count n =
      ap length (cpumap_text-plain behind n h b) ∙ plain_length n h in
    (e, omega (arith, e, b))
