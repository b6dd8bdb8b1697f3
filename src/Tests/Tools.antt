-- ===== src/Tests/Tools.antt =====
-- A command line of the mount tool.
use m_sl_sys_fs.Base.{ℕ, some, ◌+◌, ◌≡◌, ◌↔◌, true, List, [], ◌∷◌, Bytes, codes, All}
use m_sl_sys_fs.Tool.{Opt, opt_v, opt_o, tool_main}
use m_sl_sys_fs.Tool.Exit.{IsAccepted, words, tool_main-succeeds}

abbrev options : List Opt
options = opt_v ∷ opt_o (λ (generic, sysfs). some (generic + 8, sysfs)) ∷ []

abbrev operands : List Bytes
operands = codes "sysfs" ∷ codes "/sys" ∷ []

tool_main-succeeds_example :
    ((tool_main (λ dir generic sysfs. true) options operands).status ≡ 0) ↔ (
      All IsAccepted options
      × (generic : ℕ) × (sysfs : ℕ) × (words options (0, 0) ≡ some (generic, sysfs))
      × (special : Bytes) × (mntdir : Bytes) × (operands ≡ special ∷ mntdir ∷ [])
      × (true ≡ true))
tool_main-succeeds_example = tool_main-succeeds (λ dir generic sysfs. true) options operands
