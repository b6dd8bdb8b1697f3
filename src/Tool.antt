-- ===== src/Tool.antt =====
-- fs/mount_sysfs.c: the mount tool. What getopt(3) finds in the command line, whether getmntopts(3)
-- knows the options of a -o argument and how it changes the two option words, and mount(2) are
-- parameters.
pub mod Exit
use m_sl_sys_fs.Base.{
  ℕ, zero, suc, Bool, true, false, not, Option, none, some, List, [], ◌∷◌, Bytes, if◌then◌else◌,
}

-- What getopt returns: `?` or an option that it does not know, -h, -v, or -o with the effect of its
-- argument on the generic and the sysfs options. As the tool leaves `getmnt_silent` 0, getmntopts
-- exits with status 1 on an option that is not in `mopts`; that is none.
pub data Opt : Type 0 where
  opt_unknown opt_h opt_v : Opt
  opt_o : (ℕ × ℕ → Option (ℕ × ℕ)) → Opt

-- The variables that the loop sets
pub record Settings : Type 0 where
  pub verbose : Bool
  pub generic_options : ℕ
  pub sysfs_options : ℕ

abbrev pub defaults : Settings
defaults = record { verbose = false; generic_options = 0; sysfs_options = 0 }

abbrev pub with_options : Option (ℕ × ℕ) → Settings → Option Settings
with_options none s = none
with_options (some (generic, sysfs)) s =
    some (record s { generic_options = generic; sysfs_options = sysfs })

-- The getopt loop; none where `usage` or getmntopts exits, both with status 1.
unfoldable pub read_options : List Opt → Settings → Option Settings
read_options [] s = some s
read_options (opt_unknown ∷ opts) s = none
read_options (opt_h ∷ opts) s = none
read_options (opt_v ∷ opts) s = read_options opts (record s { verbose = true })
read_options (opt_o change ∷ opts) s =
    elim (with_options (change (s.generic_options, s.sysfs_options)) s) [
      | none ↦ none
      | some s' ↦ read_options opts s'
    ]

-- The exit status, and the directory and the two option words that mount(2) is called with.
pub record Outcome : Type 0 where
  pub status : ℕ
  pub call : Option (Bytes × ℕ × ℕ)

-- The outcome of `usage` and of getmntopts where they exit
abbrev pub usage : Outcome
usage = record { status = 1; call = none }

-- From the test of the operands on: special and mount point
abbrev pub mount_on : (Bytes → ℕ → ℕ → Bool) → Option Settings → List Bytes → Outcome
mount_on mount none operands = usage
mount_on mount (some s) [] = usage
mount_on mount (some s) (special ∷ []) = usage
mount_on mount (some s) (special ∷ mntdir ∷ []) = record {
  status = if mount mntdir s.generic_options s.sysfs_options then 0 else 1;
  call = some (mntdir, s.generic_options, s.sysfs_options);
}
mount_on mount (some s) (special ∷ mntdir ∷ other ∷ operands) = usage

-- `main`
unfoldable pub tool_main : (Bytes → ℕ → ℕ → Bool) → List Opt → List Bytes → Outcome
tool_main mount opts operands = mount_on mount (read_options opts defaults) operands
