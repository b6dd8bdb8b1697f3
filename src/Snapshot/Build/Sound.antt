-- ===== src/Snapshot/Build/Sound.antt =====
-- What a built snapshot is (kext/sysfs_iokit.cpp): its table, its hash and its child lists agree.
use m_sl_sys_fs.Base.{ℕ, ◌+◌, ◌-◌, ◌≤◌, ◌<◌, ◌≡◌, Option, some, List, arith, inl, inr, ◌⊎◌}
use m_sl_sys_fs.Iokit.{ModuleInfo}
use m_sl_sys_fs.Snapshot.{Snapshot}
use m_sl_sys_fs.Snapshot.Children.{count_dups}
use m_sl_sys_fs.Snapshot.Children.Counts.{kids}
use m_sl_sys_fs.Snapshot.Children.Fill.{piece}
use m_sl_sys_fs.Snapshot.Build.{parents}
use m_sl_sys_fs.Snapshot.Build.Fits.{Fits, display-lt}
use m_sl_sys_fs.Snapshot.Query.{find}
use m_sl_sys_fs.Snapshot.Query.Shows.{IsBounded}

-- The child lists: the piece of a node holds its children in order, and a child's ordinal counts the
-- earlier siblings with its name.
pub record HasTree (s : Snapshot) : Type 0 where
  pub children :
      (p : ℕ)
      → p < s.node_count
      → piece s.child_idx (s.nodes p).first_child (s.nodes p).num_children
        ≡ kids (parents s) p (s.node_count - 1)
  pub ordinal :
      (p k : ℕ)
      → p < s.node_count
      → k < (s.nodes p).num_children
      → (s.nodes (s.child_idx ((s.nodes p).first_child + k))).dup_ordinal
        ≡ count_dups s.nodes s.child_idx
            (s.nodes p).first_child
            (s.child_idx ((s.nodes p).first_child + k))
            k

-- A sound snapshot. Where memory was short, no node has children.
pub record IsSound (s : Snapshot) : Type 0 where
  pub pos : 0 < s.node_count
  pub bound : s.node_count ≤ 16384
  pub root : (s.nodes 0).regid ≡ 0
  pub at : (i : ℕ) → i < s.node_count → find s (s.nodes i).regid ≡ some i
  pub from : (r i : ℕ) → find s r ≡ some i → (i < s.node_count) × ((s.nodes i).regid ≡ r)
  pub fits : (i : ℕ) → Fits (s.nodes i)
  pub ordinal_le : (i : ℕ) → (s.nodes i).dup_ordinal ≤ 16384
  pub tree : HasTree s ⊎ ((p : ℕ) → (s.nodes p).num_children ≡ 0)

pub IsSound-IsBounded : (s : Snapshot) → IsSound s → IsBounded s
IsSound-IsBounded s w = record {
  in_table = λ r i e. (w.from r i e).0;
  shown_fits = λ i. display-lt (s.nodes i) (w.fits i).name_fits (w.ordinal_le i);
  bsdname_fits = λ i. omega (arith, (w.fits i).bsdname_fits);
}

-- The modules take no part in it.
pub with_modules-IsSound :
    (s : Snapshot) (ms : Option (List ModuleInfo)) (cap bytes : ℕ)
    → IsSound s
    → IsSound (record s { modules = ms; module_cap = cap; bytes = bytes })
with_modules-IsSound s ms cap bytes w = record {
  pos = w.pos;
  bound = w.bound;
  root = w.root;
  at = w.at;
  from = w.from;
  fits = w.fits;
  ordinal_le = w.ordinal_le;
  tree = elim w.tree [
    | inl t ↦ inl (record { children = t.children; ordinal = t.ordinal })
    | inr empty ↦ inr empty
  ];
}

-- A snapshot after the walk: sound, with no child placed and no ordinal given.
pub record IsFresh (s : Snapshot) : Type 0 where
  pub sound : IsSound s
  pub childless : (p : ℕ) → (s.nodes p).num_children ≡ 0
  pub unnumbered : (i : ℕ) → (s.nodes i).dup_ordinal ≡ 0
