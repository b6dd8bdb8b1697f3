-- ===== src/Structure/Links/Relabel.antt =====
-- Writing a node anew with the same base id, parent and children keeps the tree.
use m_sl_sys_fs.Base.{
  ℕ, ◌≡◌, inl, inr, refl, sym, ap, ◌∙◌, subst, Option, some, arith, ◌==◌, Bool-cases, ==_iff,
}
use m_sl_sys_fs.Types.{Snode, is_root}
use m_sl_sys_fs.Structure.{write}
use m_sl_sys_fs.Structure.Links.{Member, IsIncreasing, AllBelow, IsTree}

-- Two nodes that differ in nothing that the shape of the tree depends on.
pub record Alike (x y : Snode) : Type 0 where
  pub same_id : x.base_node_id ≡ y.base_node_id
  pub same_type : x.node_type ≡ y.node_type
  pub same_parent : x.parent ≡ y.parent
  pub same_children : x.children ≡ y.children

abbrev Covers : (ℕ → Option Snode) → (ℕ → Option Snode) → Type 0
Covers old new = (n : ℕ) (x : Snode) → old n ≡ some x → (y : Snode) × (new n ≡ some y) × Alike x y

module _ {n0 k next : ℕ} {old new : ℕ → Option Snode} (t : IsTree n0 k next old)
    (f : Covers old new) (b : Covers new old) where
  alike-IsTree : IsTree n0 k next new
  alike-IsTree = record {
    range = λ n x e. let (y, e', a) = b n x e in t.range n y e';
    live = λ n lo hi. let (x, e) = t.live n lo hi in let (y, e', a) = f n x e in (y, e');
    ids = λ n x e. let (y, e', a) = b n x e in a.same_id ∙ t.ids n y e';
    typed = λ n x e. let (y, e', a) = b n x e in ap is_root a.same_type ∙ t.typed n y e';
    top = λ n x e p. let (y, e', a) = b n x e in t.top n y e' (sym a.same_parent ∙ p);
    up = λ n x p e h.
        let (y, e', a) = b n x e in
        let (z, lt, ez, m) = t.up n y p e' (sym a.same_parent ∙ h) in
        let (z', ez', az) = f p z ez in (z', lt, ez', subst (λ l. Member n l) az.same_children m);
    down = λ n x c e m.
        let (y, e', a) = b n x e in
        let (z, lt, ez, h) = t.down n y c e' (subst (λ l. Member c l) a.same_children m) in
        let (z', ez', az) = f c z ez in (z', lt, ez', sym az.same_parent ∙ h);
    ordered = λ n x e.
        let (y, e', a) = b n x e in
        subst (λ l. IsIncreasing n l × AllBelow next l) (sym a.same_children) (t.ordered n y e');
  }

module _ {n0 k next : ℕ} {cell : ℕ → Option Snode} (t : IsTree n0 k next cell) (p : ℕ)
    (y y' : Snode) (at_p : cell p ≡ some y) (alike : Alike y y') where
  here : write cell p (some y') p ≡ some y'
  here = ground arith

  forth : Covers cell (write cell p (some y'))
  forth n x e = elim (Bool-cases (p == n)) [
    | inl q ↦
        let pn : p ≡ n = (==_iff p n).0 q in
        let same : y ≡ x = cc in (y', rw (← pn) here, subst (λ w. Alike w y') same alike)
    | inr q ↦ (
      x,
      ground arith,
      record { same_id = refl; same_type = refl; same_parent = refl; same_children = refl },
    )
  ]

  back : Covers (write cell p (some y')) cell
  back n x e = elim (Bool-cases (p == n)) [
    | inl q ↦
        let pn : p ≡ n = (==_iff p n).0 q in
        let same : y' ≡ x = ground arith in
        (
          y,
          rw (← pn) at_p,
          record {
            same_id = sym (rw (← same) alike.same_id);
            same_type = sym (rw (← same) alike.same_type);
            same_parent = sym (rw (← same) alike.same_parent);
            same_children = sym (rw (← same) alike.same_children);
          },
        )
    | inr q ↦ (
      x,
      ground arith,
      record { same_id = refl; same_type = refl; same_parent = refl; same_children = refl },
    )
  ]

  pub relabel-IsTree : IsTree n0 k next (write cell p (some y'))
  relabel-IsTree = alike-IsTree t forth back
