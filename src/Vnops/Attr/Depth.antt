-- ===== src/Vnops/Attr/Depth.antt =====
-- The target of a class link (`sysfs_link_target` of kext/sysfs_vnops.c), followed through the layout.
use m_sl_sys_fs.Base.{
  ℕ, zero, suc, ◌<◌, ◌≡◌, refl, sym, arith, ap, ◌∙◌, Bool-cases, Option-cases, inl, inr, true,
  false, Option, none, some, [], ◌∷◌, ◌++◌, Bytes, codes, length, ◌==◌, ==_iff, ◌&&◌, ltb,
  if◌then◌else◌,
}
use m_sl_sys_fs.Types.{SfsType, Snode, Sfsnode, is_root}
use m_sl_sys_fs.Structure.{Structure, deref, node_at}
use m_sl_sys_fs.Structure.Init.{structure_init}
use m_sl_sys_fs.Structure.Links.{IsTree}
use m_sl_sys_fs.Structure.Links.Whole.{IsVacant, structure_init-IsWhole}
use m_sl_sys_fs.Iokit.{Iokit}
use m_sl_sys_fs.Vnops.Readdir.Ops.{is_sfs_link}
use m_sl_sys_fs.Vnops.Attr.{climb, target_text, bounded_target, link_target, link_target_max}

-- The directory that ".." leads to
abbrev above : Structure → Option ℕ → Option ℕ
above st none = none
above st (some p) = (deref st p).parent

-- A reader of paths: each "../" in front leads to the parent. The directory that is come to, and the
-- rest of the path.
unfoldable pub follow : Structure → Bytes → Option ℕ → Option ℕ × Bytes
follow st [] p = (p, [])
follow st (a ∷ []) p = (p, a ∷ [])
follow st (a ∷ b ∷ []) p = (p, a ∷ b ∷ [])
follow st (a ∷ b ∷ c ∷ s) p =
    let up = follow st s (above st p) in
    if (a == b'.') && ((b == b'.') && (c == b'/')) then up else (p, a ∷ b ∷ c ∷ s)

abbrev up_from : Structure → ℕ → Option ℕ → Option ℕ
up_from st zero p = p
up_from st (suc n) p = up_from st n (above st p)

-- As many "../" as there are lead as many directories up.
follow-dot_dots :
    (st : Structure) (n : ℕ) (path : Bytes) (p : Option ℕ)
    → follow st (target_text n path) p ≡ (up_from st n p, codes "devices/" ++ path)
unfolding follow
follow-dot_dots st zero path p = refl
follow-dot_dots st (suc n) path p = follow-dot_dots st n path (above st p)

module _ {n0 k : ℕ} (st : Structure) (t : IsTree n0 k st.next st.cell) where
  -- The walk of `sysfs_link_target` counts the directories up to the root; the address of the first
  -- one bounds the walk.
  climb-up_from :
      (fuel p : ℕ) (x : Snode)
      → st.cell p ≡ some x
      → p < fuel
      → up_from st (climb st fuel (some p)) (some p) ≡ some n0
  unfolding climb
  climb-up_from zero p x c h = absurd (omega (arith, h))
  climb-up_from (suc fuel) p x c h =
      let here : is_root (deref st p).node_type ≡ (p == n0) =
        ap (λ o. is_root (node_at o).node_type) c ∙ t.typed p x c in
      elim (Bool-cases (is_root (deref st p).node_type)) [
        | inl r ↦ rw r (ap some ((==_iff p n0).0 (sym here ∙ r)))
        | inr r ↦ elim (Option-cases x.parent) [
          | inl e ↦
              absurd (let z : (p == n0) ≡ true = (==_iff p n0).1 (t.top p x c e) in cc (r, here, z))
          | inr (q, e) ↦
              let (y, l, cy, m) = t.up p x q c e in
              let e' : (deref st p).parent ≡ some q = ap (λ o. (node_at o).parent) c ∙ e in
              rw r (
                ap (λ o. up_from st (climb st fuel o) o) e'
                ∙ climb-up_from fuel q y cy (omega (arith, l, h)))
        ]
      ]

-- A target that is not empty is the whole text.
bounded_target-whole :
    (path : Bytes) (depth : ℕ)
    → 0 < length (bounded_target path depth)
    → bounded_target path depth ≡ target_text depth path
bounded_target-whole [] depth h = absurd (omega (arith, h))
bounded_target-whole (c ∷ path) depth h =
    elim (Bool-cases (ltb (length (target_text depth (c ∷ path))) link_target_max)) [
      | inl e ↦ rw e refl
      | inr e ↦ absurd (let z : 0 < 0 = rw e at h in omega (arith, z))
    ]

link-no_root : (t : SfsType) → is_sfs_link t ≡ true → is_root t ≡ false
link-no_root t e = ground (arith, e)

-- In the layout that the first mount builds, the target of a class link, where there is one, leads from
-- the directory of the link to the root of the file system by its "../", and goes on with "devices/"
-- and the path of the entry.
pub link_target-follow :
    (s : Structure) (v : IsVacant s) (ncpu : ℕ) (io : Iokit) (snp : Sfsnode) (x : Snode)
    → (structure_init ncpu s).cell snp.structure_node ≡ some x
    → is_sfs_link x.node_type ≡ true
    → 0 < length (link_target io (structure_init ncpu s) snp)
    → follow (structure_init ncpu s) (link_target io (structure_init ncpu s) snp) x.parent ≡ (
      (structure_init ncpu s).root_node,
      codes "devices/" ++ io.path_of snp.node_id.regid link_target_max,
    )
unfolding link_target
link_target-follow s v ncpu io snp x c l h =
    let st : Structure = structure_init ncpu s in
    let n : ℕ = snp.structure_node in
    let path : Bytes = io.path_of snp.node_id.regid link_target_max in
    let w = structure_init-IsWhole s v ncpu in
    let e : (deref st n).parent ≡ x.parent = ap (λ o. (node_at o).parent) c in
    let depth : ℕ = climb st n (deref st n).parent in
    ap (λ b. follow st b x.parent) (bounded_target-whole path depth h)
    ∙ follow-dot_dots st depth path x.parent
    ∙ ap (λ q. (q, codes "devices/" ++ path))
        (elim (Option-cases x.parent) [
          | inl none_there ↦ absurd (
              let z : (n == s.next) ≡ true = (==_iff n s.next).1 (w.tree.top n x c none_there) in
              cc (w.tree.typed n x c, z, link-no_root x.node_type l))
          | inr (p, q) ↦
              let (y, lt, cy, m) = w.tree.up n x p c q in
              ap (λ o. up_from st (climb st n o) x.parent) (e ∙ q)
              ∙ ap (λ o. up_from st (climb st n (some p)) o) q
              ∙ climb-up_from st w.tree n p y cy lt
              ∙ sym w.rooted
        ])
