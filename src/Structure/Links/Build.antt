-- ===== src/Structure/Links/Build.antt =====
-- Each building step of the layout keeps the tree, returns the address of what it adds and grows
-- the heap by a known number of nodes.
use m_sl_sys_fs.Base.{
  ℕ, zero, suc, ◌+◌, ◌-◌, ◌%◌, ◌^◌, ◌≤◌, ◌<◌, ◌≡◌, ◌≢◌, refl, sym, ◌∙◌, subst, Option, none, some,
  [], ◌∷◌, ◌++◌, Bytes, arith, codes, false,
}
use m_sl_sys_fs.Types.{is_root, no_flags, SfsType, SsnFlags, SizeFn, ReadFn, Snode}
use m_sl_sys_fs.Structure.{
  Structure, Build, ◌>>=◌, ◌>>◌, write, insert_tail, new_node, parent_dynamic, fresh_node_id,
  add_node, add_directory, directory, node, file, add_file, set_instance, only_dynamic, pure,
}
use m_sl_sys_fs.Structure.Links.{id_at, IsTree}
use m_sl_sys_fs.Structure.Links.Grow.{grow-IsTree}
use m_sl_sys_fs.Structure.Links.Relabel.{relabel-IsTree}

-- The state between two building steps.
pub record IsBuilt (n0 k : ℕ) (s : Structure) : Type 0 where
  pub tree : IsTree n0 k s.next s.cell
  pub rooted : n0 < s.next
  pub counter : s.next_node_id ≡ (k + (s.next - n0 - 1)) % 2 ^ 16

id_at_pos : (k m : ℕ) → 0 < m → id_at k m ≡ (k + (m - 1)) % 2 ^ 16
id_at_pos k zero h = absurd (omega arith)
id_at_pos k (suc m) h = let e : suc m - 1 ≡ m = omega arith in rw e

insert_tail-some :
    (cell : ℕ → Option Snode) (p n : ℕ) (y : Snode)
    → cell p ≡ some y
    → insert_tail cell p n ≡ write cell p (some (record y { children = y.children ++ n ∷ [] }))
insert_tail-some cell p n y e = rw (e, insert_tail)

write_ne :
    (cell : ℕ → Option Snode) (n p : ℕ) (v : Option Snode) → n ≢ p → write cell n v p ≡ cell p
write_ne cell n p v h = ground arith

-- `m` run from a heap of `n` nodes returns `a` and adds `g` nodes.
pub record Adds (n0 k n g : ℕ) {A : Type 0} (a : A) (m : Build A) : Type 0 where
  pub run :
      (s : Structure)
      → IsBuilt n0 k s
      → s.next ≡ n
      → IsBuilt n0 k (m s).1 × ((m s).0 ≡ a) × ((m s).1.next ≡ n + g)

-- The "." and ".." entries, as the end of `add_directory` makes them.
unfoldable pub dots : SsnFlags → ℕ → Build ℕ
dots flags snode = do
  this_id ← fresh_node_id
  add_node (some snode) (codes ".") SfsType.sfs_dirthis this_id (only_dynamic flags) 0 none none
  parent_id ← fresh_node_id
  add_node (some snode) (codes "..") SfsType.sfs_dirparent parent_id (only_dynamic flags) 0 none
      none
  pure snode

module _ {n0 k : ℕ} where
  add_node-IsTree :
      (s : Structure) (p : ℕ) (y : Snode) (name : Bytes) (type : SfsType) (node_id : ℕ)
      (flags : SsnFlags) (size : ℕ) (size_fn : Option SizeFn) (read_fn : Option ReadFn)
      → IsTree n0 k s.next s.cell
      → s.cell p ≡ some y
      → node_id ≡ id_at k (s.next - n0)
      → is_root type ≡ false
      → IsTree n0 k
          (s.next + 1)
          (add_node (some p) name type node_id flags size size_fn read_fn s).1.cell
  unfolding add_node
  add_node-IsTree s p y name type node_id flags size size_fn read_fn t e id r =
      let new : Snode =
        new_node (some p) name type node_id flags size size_fn read_fn
          (parent_dynamic s (some p)) in
      rw
        (insert_tail-some (write s.cell s.next (some new)) p s.next y
          (write_ne s.cell s.next p (some new) (λ q. absurd (omega (arith, t.range p y e))) ∙ e))
        (grow-IsTree t p y new e refl refl id r)

  -- `next_node_id++` followed by `add_node` under a live parent.
  fresh_add-Adds :
      (n p : ℕ) (name : Bytes) (type : SfsType) (flags : SsnFlags) (size : ℕ)
      (size_fn : Option SizeFn) (read_fn : Option ReadFn)
      → n0 ≤ p
      → p < n
      → is_root type ≡ false
      → Adds n0 k n 1 n
          (do id ← fresh_node_id; add_node (some p) name type id flags size size_fn read_fn)
  unfolding fresh_node_id add_node
  fresh_add-Adds n p name type flags size size_fn read_fn lo hi r = record {
    run = λ s b e.
        let (y, at_p) = b.tree.live p lo (omega arith) in
        let (_, s1) = fresh_node_id s in
        let id : s.next_node_id ≡ id_at k (s.next - n0) =
          b.counter ∙ sym (id_at_pos k (s.next - n0) (omega (arith, b.rooted))) in
        (
          record {
            tree =
                add_node-IsTree s1 p y name type s.next_node_id flags size size_fn read_fn b.tree
                  at_p id r;
            rooted = omega (arith, b.rooted);
            counter = omega (arith, b.rooted, b.counter);
          },
          e,
          omega arith,
        );
  }

  pub bind-Adds :
      {A B : Type 0} {n g h : ℕ} {a : A} {b : B} (m : Build A) (f : A → Build B)
      → Adds n0 k n g a m
      → Adds n0 k (n + g) h b (f a)
      → Adds n0 k n (g + h) b (m >>= f)
  bind-Adds {n} {g} {h} {a} {b} m f x y = record {
    run = λ s built e.
        let (built1, ea, e1) = x.run s built e in
        subst
          (λ q.
            IsBuilt n0 k (f q (m s).1).1
            × ((f q (m s).1).0 ≡ b)
            × ((f q (m s).1).1.next ≡ n + (g + h)))
          (sym ea) (let (built2, eb, e2) = y.run (m s).1 built1 e1 in (built2, eb, omega arith));
  }

  pub then-Adds :
      {A B : Type 0} {n g h : ℕ} {a : A} {b : B} (m : Build A) (f : Build B)
      → Adds n0 k n g a m
      → Adds n0 k (n + g) h b f
      → Adds n0 k n (g + h) b (m >> f)
  then-Adds m f x y = record {
    run = λ s built e.
        let (built1, ea, e1) = x.run s built e in
        let (built2, eb, e2) = y.run (m s).1 built1 e1 in (built2, eb, omega arith);
  }

  pub pure-Adds : {A : Type 0} (n : ℕ) (a : A) → Adds n0 k n 0 a (λ s. (a, s))
  pure-Adds n a = record { run = λ s built e. (built, refl, omega arith) }

  pub dots-Adds : (n : ℕ) (flags : SsnFlags) → n0 ≤ n → Adds n0 k (n + 1) 2 n (dots flags n)
  unfolding dots
  dots-Adds n flags lo =
      then-Adds _ _
        (fresh_add-Adds (n + 1) n (codes ".") SfsType.sfs_dirthis (only_dynamic flags) 0 none none
          lo (omega arith) refl)
        (then-Adds _ _
          (fresh_add-Adds (n + 1 + 1) n (codes "..") SfsType.sfs_dirparent (only_dynamic flags) 0
            none none lo (omega arith) refl)
          (pure-Adds (n + 1 + 1 + 1) n))

  pub node-Adds :
      (n p : ℕ) (name : Bytes) (type : SfsType) (flags : SsnFlags)
      → n0 ≤ p
      → p < n
      → is_root type ≡ false
      → Adds n0 k n 1 n (node p name type flags)
  unfolding node
  node-Adds n p name type flags lo hi r = fresh_add-Adds n p name type flags 0 none none lo hi r

  pub file-Adds :
      (n p : ℕ) (name : Bytes) (size : ℕ) (read_fn : ReadFn)
      → n0 ≤ p
      → p < n
      → Adds n0 k n 1 n (file p name size read_fn)
  unfolding file add_file
  file-Adds n p name size read_fn lo hi =
      fresh_add-Adds n p name SfsType.sfs_file no_flags size none (some read_fn) lo hi refl

  -- A directory adds itself, "." and "..".
  pub directory-Adds :
      (n p : ℕ) (name : Bytes) (flags : SsnFlags)
      → n0 ≤ p
      → p < n
      → Adds n0 k n 3 n (directory p name flags)
  unfolding directory add_directory dots
  directory-Adds n p name flags lo hi =
      bind-Adds (do id ← fresh_node_id; add_node (some p) name SfsType.sfs_dir id flags 0 none none)
        (dots flags) (fresh_add-Adds n p name SfsType.sfs_dir flags 0 none none lo hi refl)
        (dots-Adds n flags (omega arith))

  pub set_instance-Adds : (n p c : ℕ) → n0 ≤ p → p < n → Adds n0 k n 0 tt (set_instance p c)
  unfolding set_instance
  set_instance-Adds n p c lo hi = record {
    run = λ s built e.
        let (y, at_p) = built.tree.live p lo (omega arith) in
        let t =
          relabel-IsTree built.tree p y (record y { instance_no = c }) at_p
            (record {
              same_id = refl;
              same_type = refl;
              same_parent = refl;
              same_children = refl;
            }) in
        (
          record { tree = rw (at_p) t; rooted = built.rooted; counter = built.counter },
          refl,
          omega arith,
        );
  }
