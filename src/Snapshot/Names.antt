-- ===== src/Snapshot/Names.antt =====
-- The names that a built snapshot shows (kext/sysfs_iokit.cpp), where IOKit's names hold no `@`.
use m_sl_sys_fs.Base.{
  ℕ, zero, suc, ◌+◌, ◌<◌, ◌≡◌, ◌≢◌, refl, ◌∙◌, ap, true, ◌&&◌, Option, none, some, List, [], ◌∷◌,
  Bytes, ◌==◌, take, All, Bool-cases, inl, inr, arith,
}
use m_sl_sys_fs.Snapshot.{SnapNode, Snapshot}
use m_sl_sys_fs.Snapshot.Walk.{RegEntry, node_of, kept_name, start_walk, table_cap, table_size}
use m_sl_sys_fs.Snapshot.Build.{Sizes, Answers, World, snap_build, estimate}
use m_sl_sys_fs.Snapshot.Build.Fits.{walk_each}
use m_sl_sys_fs.Snapshot.Build.Whole.{snap_build-Built}
use m_sl_sys_fs.Snapshot.Query.{display, find, iokit, path_of, path_depth}
use m_sl_sys_fs.Snapshot.Query.Siblings.{no_at, siblings_apart}
use m_sl_sys_fs.Snapshot.Query.Path.{path_text, path_of-resolves}
use m_sl_sys_fs.Snapshot.Query.Lead.{resolve, stop}

-- The name that an entry has, if any, holds no `@`.
abbrev pub IsPlainName : Option Bytes → Type 0
IsPlainName none = Unit
IsPlainName (some name) = no_at name ≡ true

abbrev pub ArePlain : List RegEntry → Type 0
ArePlain es = All (λ e. IsPlainName e.entry_name) es

no_at-take : (n : ℕ) (s : Bytes) → no_at s ≡ true → no_at (take n s) ≡ true
no_at-take zero s h = refl
no_at-take (suc n) [] h = refl
no_at-take (suc n) (c ∷ s) h = elim (Bool-cases (c == b'@')) [
  | inl e ↦ absurd (ground (arith, h, e))
  | inr e ↦ let t : no_at s ≡ true = ground (arith, h, e) in rw e (no_at-take n s t)
]

kept_name-no_at : (o : Option Bytes) → IsPlainName o → no_at (kept_name o) ≡ true
kept_name-no_at none h = refl
kept_name-no_at (some s) h = no_at-take 127 s h

nodes_of-no_at : (es : List RegEntry) → ArePlain es → All (λ e. no_at (node_of e).name ≡ true) es
unfolding node_of
nodes_of-no_at [] h = tt
nodes_of-no_at (e ∷ es) h = (kept_name-no_at e.entry_name h.0, nodes_of-no_at es h.1)

module _ (z : Sizes) (a : Answers) (w : World) (s : Snapshot) (e : (snap_build z a w).0 ≡ some s)
    (plain : ArePlain a.entries) where
  names-no_at : (x : ℕ) → no_at (s.nodes x).name ≡ true
  names-no_at x =
      let size = table_size (table_cap (estimate a w)) in
      let b = snap_build-Built z a w s e in
      ap (λ (y : SnapNode). no_at y.name) (b.keeps x)
      ∙ walk_each (λ y. no_at y.name ≡ true) size (table_cap (estimate a w)) a.entries
          (start_walk size) (nodes_of-no_at a.entries plain) (λ i. unfold start_walk in refl) x

-- In a built snapshot the children of a node are shown under different names, if no name that IOKit
-- gives an entry holds an `@`.
pub snap_build-siblings_apart :
    (z : Sizes) (a : Answers) (w : World) (s : Snapshot)
    → (snap_build z a w).0 ≡ some s
    → (a.counts_ok && a.cursor_ok) ≡ true
    → ArePlain a.entries
    → (p i j : ℕ) → p < s.node_count
    → i < j
    → j < (s.nodes p).num_children
    → display (s.nodes (s.child_idx ((s.nodes p).first_child + i)))
      ≢ display (s.nodes (s.child_idx ((s.nodes p).first_child + j)))
snap_build-siblings_apart z a w s e memory plain p i j =
    siblings_apart s p i j ((snap_build-Built z a w s e).tree memory) (names-no_at z a w s e plain)

-- In a built snapshot, if no name that IOKit gives an entry holds an `@`: the path of an entry is a list
-- of names with slashes between them, if they fit into the buffer and the first is not empty; and these
-- names, looked up one after the other, lead to the entry. They start at the root, unless the entry is
-- more than 64 below it: then they start at the ancestor where the walk up stops.
pub snap_build-path_of :
    (z : Sizes) (a : Answers) (w : World) (s : Snapshot)
    → (snap_build z a w).0 ≡ some s
    → (a.counts_ok && a.cursor_ok) ≡ true
    → ArePlain a.entries
    → (regid buflen i : ℕ) → regid ≢ 0
    → 0 < buflen
    → find s regid ≡ some i
    → (names : List Bytes) × (path_of s regid buflen ≡ path_text buflen names)
      × (resolve (iokit s) (s.nodes (stop s path_depth (some i))).regid names ≡ some regid)
snap_build-path_of z a w s e memory plain regid buflen i =
    let b = snap_build-Built z a w s e in
    path_of-resolves s regid buflen i b.sound (b.tree memory) (names-no_at z a w s e plain)
