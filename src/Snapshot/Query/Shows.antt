-- ===== src/Snapshot/Query/Shows.antt =====
-- The queries of kext/sysfs_iokit.cpp by position and by name answer from the same lists.
use m_sl_sys_fs.Base.{
  ℕ, zero, suc, ◌+◌, ◌-◌, ◌≤◌, ◌<◌, ◌≡◌, refl, ◌∙◌, ap, sym, Bool, Option, none, some, List, [],
  ◌∷◌, Bytes, ◌==◌, if◌then◌else◌, ltb, arith, Bool-cases, inl, inr, map, length, take_all,
  get_elem?, lt→ltb,
}
use m_sl_sys_fs.Iokit.{ModuleInfo}
use m_sl_sys_fs.Snapshot.{Snapshot}
use m_sl_sys_fs.Snapshot.Query.{
  display, cut, find, child_node, child_display, child_at_index, scan_children, child_named_index,
  in_class, scan_class_at, scan_class_named, module_list, first_named, iokit,
}
use m_sl_sys_fs.Vnops.Readdir.Dirs.{Answers}
use m_sl_sys_fs.Vnops.Readdir.Pages.{View, Shows}
use m_sl_sys_fs.Vnops.Lookup.Listed.{id_named, info_named, Names}

-- The elements from `base` on.
unfoldable pub row : (ℕ → ℕ) → ℕ → ℕ → List ℕ
row a base zero = []
row a base (suc n) = a base ∷ row a (base + 1) n

abbrev pub shown : Snapshot → ℕ → Bytes × ℕ
shown s ci = (display (s.nodes ci), (s.nodes ci).regid)

abbrev pub children_at : Snapshot → Option ℕ → List (Bytes × ℕ)
children_at s none = []
children_at s (some p) =
    map (shown s) (row s.child_idx (s.nodes p).first_child (s.nodes p).num_children)

-- The members of a class among the `n` nodes from `i` on.
unfoldable pub members_from : Snapshot → ℕ → Bool → ℕ → ℕ → List (Bytes × ℕ)
members_from s class whole zero i = []
members_from s class whole (suc n) i =
    let rest = members_from s class whole n (suc i) in
    if in_class class whole (s.nodes i)
    then ((s.nodes i).bsdname, (s.nodes i).regid) ∷ rest
    else rest

-- What a snapshot holds, as lists.
unfoldable pub view : Snapshot → View
view s = record {
  children = λ id. children_at s (find s id);
  members = λ class whole. members_from s class whole (s.node_count - 1) 1;
  modules = module_list s.modules;
}

-- Every name fits into the buffers, and what is found is in the table.
pub record IsBounded (s : Snapshot) : Type 0 where
  pub in_table : (r i : ℕ) → find s r ≡ some i → i < s.node_count
  pub shown_fits : (i : ℕ) → length (display (s.nodes i)) < 144
  pub bsdname_fits : (i : ℕ) → length (s.nodes i).bsdname < 144

get_elem?-row :
    {A : Type 0} (f : ℕ → A) (a : ℕ → ℕ) (base n k : ℕ)
    → get_elem? (map f (row a base n)) k ≡ (if ltb k n then some (f (a (base + k))) else none)
unfolding row
get_elem?-row f a base zero k = ground arith
get_elem?-row f a base (suc n) zero = let e : base + 0 ≡ base = omega arith in rw (e) (ground arith)
get_elem?-row f a base (suc n) (suc k) =
    let e : base + suc k ≡ base + 1 + k = omega arith in
    rw (e) (get_elem?-row f a (base + 1) n k ∙ ground arith)

cut_fits : (s : Bytes) (n : ℕ) → length s < 144 → 144 ≤ n → cut n s ≡ s
cut_fits s n l le = take_all (n - 1) s (omega arith)

module _ (s : Snapshot) (b : IsBounded s) where
  display_at :
      (p i buflen : ℕ)
      → p < s.node_count
      → 144 ≤ buflen
      → child_display s p i buflen ≡ (
          if ltb i (s.nodes p).num_children
          then some (shown s (s.child_idx ((s.nodes p).first_child + i)))
          else none)
  unfolding child_display
  display_at p i buflen l le =
      rw (lt→ltb p s.node_count l, cut_fits (display (child_node s p i)) buflen (b.shown_fits _) le)
        refl

  child_answers :
      (o : Option ℕ)
      → ((p : ℕ) → o ≡ some p → p < s.node_count)
      → Answers (λ i. child_at_index s o i 256) (children_at s o)
  child_answers none l k = refl
  child_answers (some p) l k =
      display_at p k 256 (l p refl) (omega arith)
      ∙ sym (get_elem?-row (shown s) s.child_idx (s.nodes p).first_child (s.nodes p).num_children k)

  scan_children-row :
      (p : ℕ) (name : Bytes) (n i : ℕ)
      → p < s.node_count
      → i + n ≡ (s.nodes p).num_children
      → scan_children s p name n i
        ≡ id_named name (map (shown s) (row s.child_idx ((s.nodes p).first_child + i) n))
  unfolding scan_children row
  scan_children-row p name zero i l e = refl
  scan_children-row p name (suc n) i l e =
      let f : (s.nodes p).first_child + suc i ≡ (s.nodes p).first_child + i + 1 = omega arith in
      rw
        (
          display_at p i 144 l (omega arith),
          lt→ltb i (s.nodes p).num_children (omega arith),
          scan_children-row p name n (suc i) l (omega arith),
          f,
        )
        refl

  named_answers :
      (o : Option ℕ) (name : Bytes)
      → ((p : ℕ) → o ≡ some p → p < s.node_count)
      → child_named_index s o name ≡ id_named name (children_at s o)
  named_answers none name l = refl
  named_answers (some p) name l =
      let f : (s.nodes p).first_child + 0 ≡ (s.nodes p).first_child = omega arith in
      scan_children-row p name (s.nodes p).num_children 0 (l p refl) (omega arith)
      ∙ ap (λ z. id_named name (map (shown s) (row s.child_idx z (s.nodes p).num_children))) f

  class_answers :
      (class : ℕ) (whole : Bool) (index n i seen : ℕ)
      → seen ≤ index
      → scan_class_at s class whole index 256 n i seen
        ≡ get_elem? (members_from s class whole n i) (index - seen)
  unfolding scan_class_at members_from
  class_answers class whole index zero i seen l = refl
  class_answers class whole index (suc n) i seen l =
      elim (Bool-cases (in_class class whole (s.nodes i))) [
        | inr out ↦ rw out (class_answers class whole index n (suc i) seen l)
        | inl member ↦ elim (Bool-cases (seen == index)) [
          | inl now ↦
              let z : index - seen ≡ 0 = ground (arith, now) in
              rw (member, now, z, cut_fits (s.nodes i).bsdname 256 (b.bsdname_fits i) (omega arith))
                refl
          | inr later ↦
              let lt : seen + 1 ≤ index = ground (arith, later, l) in
              let z : index - seen ≡ suc (index - (seen + 1)) = omega arith in
              rw (member, later, z) (class_answers class whole index n (suc i) (seen + 1) lt)
        ]
      ]

  pub iokit-class_named :
      (class : ℕ) (whole : Bool) (name : Bytes) (n i : ℕ)
      → scan_class_named s class whole name n i ≡ id_named name (members_from s class whole n i)
  unfolding scan_class_named members_from
  iokit-class_named class whole name zero i = refl
  iokit-class_named class whole name (suc n) i =
      elim (Bool-cases (in_class class whole (s.nodes i))) [
        | inr out ↦ rw out (iokit-class_named class whole name n (suc i))
        | inl member ↦ rw member (ground (arith, iokit-class_named class whole name n (suc i)))
      ]

  -- The queries by position answer from the lists of the view.
  pub iokit-Shows : Shows (iokit s) (view s)
  unfolding iokit view
  iokit-Shows = record {
    child = λ id. child_answers (find s id) (b.in_table id);
    member = λ class whole k.
        let z : k - 0 ≡ k = omega arith in
        class_answers class whole k (s.node_count - 1) 1 0 (omega arith)
        ∙ ap (get_elem? (members_from s class whole (s.node_count - 1) 1)) z;
    module_ = λ k. refl;
  }

  first_named-info :
      (name : Bytes) (ms : List ModuleInfo) → first_named name ms ≡ info_named name ms
  unfolding first_named
  first_named-info name [] = refl
  first_named-info name (m ∷ ms) = rw (first_named-info name ms) refl

  -- The queries by name answer with the first in the lists of the view.
  pub iokit-Names : Names (iokit s) (view s)
  unfolding iokit view
  iokit-Names = record {
    child = λ id name. named_answers (find s id) name (b.in_table id);
    module_ = λ name. first_named-info name (module_list s.modules);
  }
