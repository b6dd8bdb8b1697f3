-- ===== src/Snapshot/Query/Lead.antt =====
-- Names that lead from an entry to a descendant, by the queries of kext/sysfs_iokit.cpp.
use m_sl_sys_fs.Base.{
  ℕ, zero, suc, ◌+◌, ◌-◌, ◌<◌, ◌≡◌, refl, ◌∙◌, ap, sym, true, Option, none, some, List, [], ◌∷◌,
  ◌++◌, Bytes, ◌==◌, ==_iff, if◌then◌else◌, ltb, arith, tests, Bool-cases, inl, inr, map, subst,
  str_eq, str_eq→eq, str_eq_refl,
}
use m_sl_sys_fs.Iokit.{Iokit}
use m_sl_sys_fs.Structure.Links.{Member}
use m_sl_sys_fs.Snapshot.{Snapshot}
use m_sl_sys_fs.Snapshot.Children.{or_root, parent_index}
use m_sl_sys_fs.Snapshot.Children.Counts.{kids}
use m_sl_sys_fs.Snapshot.Children.Fill.{piece}
use m_sl_sys_fs.Snapshot.Build.{parents}
use m_sl_sys_fs.Snapshot.Build.Sound.{IsSound, HasTree, IsSound-IsBounded}
use m_sl_sys_fs.Snapshot.Query.{display, find, iokit, chain_up, slash}
use m_sl_sys_fs.Snapshot.Query.Shows.{shown, iokit-Names}
use m_sl_sys_fs.Snapshot.Query.Siblings.{no_at, siblings_apart}
use m_sl_sys_fs.Snapshot.Registry.{view-children, kids-Member, parents-lt, Member-snoc}
use m_sl_sys_fs.Vnops.Lookup.Listed.{id_named}

abbrev pub follow : Option ℕ → (ℕ → Option ℕ) → Option ℕ
follow none rest = none
follow (some c) rest = rest c

-- Following names from an entry on, as a lookup does.
unfoldable pub resolve : Iokit → ℕ → List Bytes → Option ℕ
resolve io id [] = some id
resolve io id (name ∷ names) = follow (io.child_named id name) (λ c. resolve io c names)

-- Names with slashes between them, behind `buf`.
unfoldable pub join_from : Bytes → List Bytes → Bytes
join_from buf [] = buf
join_from buf (name ∷ names) = join_from (buf ++ (slash buf ++ name)) names

-- Where the walk up ends: at the root, unless the depth is used up before.
unfoldable pub stop : Snapshot → ℕ → Option ℕ → ℕ
stop s n none = 0
stop s zero (some i) = i
stop s (suc n) (some i) =
    let rest = stop s n (find s (s.nodes i).parent_regid) in if i == 0 then 0 else rest

pub Member-piece :
    (a : ℕ → ℕ) (base n x : ℕ) → Member x (piece a base n) → (k : ℕ) × (k < n) × (a (base + k) ≡ x)
unfolding piece
Member-piece a base zero x m = absurd m
Member-piece a base (suc n) x m = elim ((Member-snoc x (a (base + n)) (piece a base n)).0 m) [
  | inl r ↦ let (k, l, e) = Member-piece a base n x r in (k, omega arith, e)
  | inr e ↦ (n, omega arith, sym e)
]

pub id_named-only :
    (s : Snapshot) (i : ℕ) (xs : List ℕ)
    → Member i xs
    → ((j : ℕ) → Member j xs → display (s.nodes j) ≡ display (s.nodes i) → j ≡ i)
    → id_named (display (s.nodes i)) (map (shown s) xs) ≡ some (s.nodes i).regid
id_named-only s i [] m only = absurd m
id_named-only s i (j ∷ xs) m only =
    elim (Bool-cases (str_eq (display (s.nodes i)) (display (s.nodes j)))) [
      | inl same ↦
          let q : j ≡ i = only j (inl refl) (sym (str_eq→eq _ _ same)) in
          rw same (ap (λ k. some (s.nodes k).regid) q)
      | inr other ↦ rw other (
          id_named-only s i xs
            (elim m [
              | inl e ↦ absurd (
                  cc (
                    other,
                    str_eq_refl (display (s.nodes i)),
                    ap (λ k. str_eq (display (s.nodes i)) (display (s.nodes k))) e,
                  ))
              | inr r ↦ r
            ])
            (λ k r. only k (inr r)))
    ]

module _ (s : Snapshot) (w : IsSound s) (t : HasTree s)
    (bare : (x : ℕ) → no_at (s.nodes x).name ≡ true) where
  same_child :
      (p i j : ℕ)
      → p < s.node_count
      → Member i (kids (parents s) p (s.node_count - 1))
      → Member j (kids (parents s) p (s.node_count - 1))
      → display (s.nodes j) ≡ display (s.nodes i)
      → j ≡ i
  same_child p i j l mi mj e =
      let (k, lk, ek) =
        Member-piece s.child_idx (s.nodes p).first_child (s.nodes p).num_children i
          (subst (Member i) (sym (t.children p l)) mi) in
      let (m, lm, em) =
        Member-piece s.child_idx (s.nodes p).first_child (s.nodes p).num_children j
          (subst (Member j) (sym (t.children p l)) mj) in
      let alike : display (s.nodes (s.child_idx ((s.nodes p).first_child + m)))
          ≡ display (s.nodes (s.child_idx ((s.nodes p).first_child + k))) =
        ap (λ x. display (s.nodes x)) em ∙ e ∙ ap (λ x. display (s.nodes x)) (sym ek) in
      elim (Bool-cases (ltb m k)) [
        | inl lt ↦ absurd (siblings_apart s p m k t bare l (grind tests) lk alike)
        | inr ge ↦ elim (Bool-cases (ltb k m)) [
          | inl lt ↦ absurd (siblings_apart s p k m t bare l (grind tests) lm (sym alike))
          | inr le ↦
              let q : m ≡ k = ground (arith, ge, le) in
              sym em ∙ ap (λ x. s.child_idx ((s.nodes p).first_child + x)) q ∙ ek
        ]
      ]

  -- A child is found by the name that it is shown under.
  pub named_child :
      (i : ℕ)
      → 0 < i
      → i < s.node_count
      → (iokit s).child_named (s.nodes (parents s i)).regid (display (s.nodes i))
        ≡ some (s.nodes i).regid
  named_child i pos l =
      let p = parents s i in
      let lp : p < s.node_count = parents-lt s w i in
      let among : Member i (kids (parents s) p (s.node_count - 1)) =
        (kids-Member (parents s) p (s.node_count - 1) i).1 (pos, omega arith, refl) in
      (iokit-Names s (IsSound-IsBounded s w)).child (s.nodes p).regid (display (s.nodes i))
      ∙ ap (id_named (display (s.nodes i))) (view-children s (s.nodes p).regid p w t (w.at p lp))
      ∙ id_named-only s i (kids (parents s) p (s.node_count - 1)) among
          (λ j m e. same_child p i j lp among m e)

  abbrev names_of : List ℕ → List Bytes
  names_of chain = map (λ i. display (s.nodes i)) chain

  resolve_named :
      (id c : ℕ) (name : Bytes) (names : List Bytes)
      → (iokit s).child_named id name ≡ some c
      → resolve (iokit s) id (name ∷ names) ≡ resolve (iokit s) c names
  unfolding resolve
  resolve_named id c name names e = ap (λ o. follow o (λ c. resolve (iokit s) c names)) e

  index_of : (i : ℕ) → or_root (find s (s.nodes i).parent_regid) ≡ parents s i
  unfolding parent_index
  index_of i = refl

  pub chain-resolves :
      (n : ℕ) (o : Option ℕ) (acc : List ℕ)
      → ((i : ℕ) → o ≡ some i → i < s.node_count)
      → resolve (iokit s) (s.nodes (stop s n o)).regid (names_of (chain_up s n o acc))
        ≡ resolve (iokit s) (s.nodes (or_root o)).regid (names_of acc)
  unfolding chain_up stop
  chain-resolves n none acc l = refl
  chain-resolves zero (some i) acc l = refl
  chain-resolves (suc n) (some i) acc l = elim (Bool-cases (i == 0)) [
    | inl z ↦
        rw z (ap (λ k. resolve (iokit s) (s.nodes k).regid (names_of acc)) (sym ((==_iff i 0).0 z)))
    | inr z ↦ rw z (
        chain-resolves n (find s (s.nodes i).parent_regid) (i ∷ acc) (λ j e. (w.from _ j e).0)
        ∙ ap (λ k. resolve (iokit s) (s.nodes k).regid (names_of (i ∷ acc))) (index_of i)
        ∙ resolve_named (s.nodes (parents s i)).regid (s.nodes i).regid (display (s.nodes i))
            (names_of acc) (named_child i (ground (arith, z)) (l i refl)))
  ]
