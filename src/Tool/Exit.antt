-- ===== src/Tool/Exit.antt =====
-- When the mount tool (fs/mount_sysfs.c) succeeds, and what it hands to the kernel.
use m_sl_sys_fs.Base.{
  subst, Option-cases, inl, inr, ℕ, ◌≡◌, ◌↔◌, refl, sym, ap, Bool, true, Option, none, some, List,
  [], ◌∷◌, Bytes, All, arith,
}
use m_sl_sys_fs.Tool.{
  Opt, opt_unknown, opt_h, opt_v, opt_o, Settings, defaults, read_options, mount_on, tool_main,
}

-- An option that does not end in the usage message
abbrev pub IsAccepted : Opt → Type 0
IsAccepted opt_unknown = ⊥
IsAccepted opt_h = ⊥
IsAccepted opt_v = Unit
IsAccepted (opt_o change) = Unit

-- The two option words after all -o options, in their order; none where getmntopts does not know one
abbrev pub words : List Opt → ℕ × ℕ → Option (ℕ × ℕ)
words [] w = some w
words (opt_unknown ∷ opts) w = words opts w
words (opt_h ∷ opts) w = words opts w
words (opt_v ∷ opts) w = words opts w
words (opt_o change ∷ opts) w = elim (change w) [ none ↦ none | some w' ↦ words opts w' ]

abbrev words_of : Settings → ℕ × ℕ
words_of s = (s.generic_options, s.sysfs_options)

-- What the loop comes to
read_options-IsAccepted :
    (opts : List Opt) (s t : Settings)
    → read_options opts s ≡ some t
    → All IsAccepted opts × (words opts (words_of s) ≡ some (words_of t))
unfolding read_options
read_options-IsAccepted [] s t e =
    (tt, let z : s ≡ t = cc e in ap (λ (x : Settings). some (words_of x)) z)
read_options-IsAccepted (opt_unknown ∷ opts) s t e = absurd (cc e)
read_options-IsAccepted (opt_h ∷ opts) s t e = absurd (cc e)
read_options-IsAccepted (opt_v ∷ opts) s t e =
    let (a, w) = read_options-IsAccepted opts (record s { verbose = true }) t e in ((tt, a), w)
read_options-IsAccepted (opt_o change ∷ opts) s t e = elim (Option-cases (change (words_of s))) [
  | inl c ↦ absurd (let z : none ≡ some t = rw (c, read_options) at e in cc z)
  | inr ((generic, sysfs), c) ↦
      let s' : Settings = record s { generic_options = generic; sysfs_options = sysfs } in
      let z : read_options opts s' ≡ some t = rw (c, read_options) at e in
      let (a, w) = read_options-IsAccepted opts s' t z in rw c ((tt, a), w)
]

read_options-found :
    (opts : List Opt) (s : Settings) (w : ℕ × ℕ)
    → All IsAccepted opts
    → words opts (words_of s) ≡ some w
    → (t : Settings) × (read_options opts s ≡ some t) × (words_of t ≡ w)
unfolding read_options
read_options-found [] s w a e = (s, refl, let z : words_of s ≡ w = cc e in z)
read_options-found (opt_unknown ∷ opts) s w a e = absurd a.0
read_options-found (opt_h ∷ opts) s w a e = absurd a.0
read_options-found (opt_v ∷ opts) s w a e =
    read_options-found opts (record s { verbose = true }) w a.1 e
read_options-found (opt_o change ∷ opts) s w a e = elim (Option-cases (change (words_of s))) [
  | inl c ↦ absurd (let z : none ≡ some w = rw (c, read_options) at e in cc z)
  | inr ((generic, sysfs), c) ↦
      let s' : Settings = record s { generic_options = generic; sysfs_options = sysfs } in
      let z : words opts (generic, sysfs) ≡ some w = rw c at e in
      rw (c, read_options) (read_options-found opts s' w a.1 z)
]

mount_on-succeeds :
    (mount : Bytes → ℕ → ℕ → Bool) (o : Option Settings) (operands : List Bytes)
    → (mount_on mount o operands).status ≡ 0
    → (s : Settings) × (special : Bytes) × (mntdir : Bytes) × (o ≡ some s)
      × (operands ≡ special ∷ mntdir ∷ [])
      × (mount mntdir s.generic_options s.sysfs_options ≡ true)
      × ((mount_on mount o operands).call ≡ some (mntdir, s.generic_options, s.sysfs_options))
mount_on-succeeds mount none operands e = absurd (cc e)
mount_on-succeeds mount (some s) [] e = absurd (cc e)
mount_on-succeeds mount (some s) (special ∷ []) e = absurd (cc e)
mount_on-succeeds mount (some s) (special ∷ mntdir ∷ []) e =
    (s, special, mntdir, refl, refl, ground (arith, e), refl)
mount_on-succeeds mount (some s) (special ∷ mntdir ∷ other ∷ operands) e = absurd (cc e)

-- The tool ends with status 0 exactly if every option is -v or -o, every -o argument has only options
-- that getmntopts knows, there are two operands, and mount(2) on the second with the option words, as
-- the -o options change them one after the other from 0, succeeds.
pub tool_main-succeeds :
    (mount : Bytes → ℕ → ℕ → Bool) (opts : List Opt) (operands : List Bytes)
    → ((tool_main mount opts operands).status ≡ 0) ↔ (
        All IsAccepted opts
        × (generic : ℕ) × (sysfs : ℕ) × (words opts (0, 0) ≡ some (generic, sysfs))
        × (special : Bytes) × (mntdir : Bytes) × (operands ≡ special ∷ mntdir ∷ [])
        × (mount mntdir generic sysfs ≡ true))
unfolding tool_main
tool_main-succeeds mount opts operands = (
  λ e.
      let (s, special, mntdir, o, q, m, call) =
        mount_on-succeeds mount (read_options opts defaults) operands e in
      let (a, w) = read_options-IsAccepted opts defaults s o in
      (a, s.generic_options, s.sysfs_options, w, special, mntdir, q, m),
  λ (a, generic, sysfs, w, special, mntdir, q, m).
      let (s, o, z) = read_options-found opts defaults (generic, sysfs) a w in
      let m' : mount mntdir s.generic_options s.sysfs_options ≡ true =
        subst (λ (w : ℕ × ℕ). mount mntdir w.0 w.1 ≡ true) (sym z) m in
      rw (o, q, m') refl,
)
