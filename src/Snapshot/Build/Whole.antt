-- ===== src/Snapshot/Build/Whole.antt =====
-- `sysfs_snap_build` of kext/sysfs_iokit.cpp makes sound snapshots of what it walks over.
use m_sl_sys_fs.Base.{
  ℕ, ◌≤◌, ◌<◌, ◌≡◌, refl, Bool, true, false, ◌&&◌, Option, none, some, List, ◌==◌, ltb, arith,
  if_holds, inr, subst, length, min,
}
use m_sl_sys_fs.Snapshot.{Snapshot}
use m_sl_sys_fs.Iokit.{ModuleInfo}
use m_sl_sys_fs.Snapshot.Hash.{hash_find}
use m_sl_sys_fs.Snapshot.Walk.{RegEntry, Walk, start_walk, walk, table_cap, table_size}
use m_sl_sys_fs.Snapshot.Walk.Sound.{Captures, walk-Captures, start_walk-IsWalked}
use m_sl_sys_fs.Snapshot.Children.{sum_counts}
use m_sl_sys_fs.Snapshot.Build.{
  Sizes, Answers, World, KextEntry, build_modules, walked_snapshot, child_counts, place_children,
  build_children, build_tables, snap_build, estimate,
}
use m_sl_sys_fs.Snapshot.Build.Fits.{
  table_cap-pos, table_cap-le, table_size-IsPow2, table_size-room, start-Fits, start-IsBare,
}
use m_sl_sys_fs.Snapshot.Build.Sound.{HasTree, IsSound, IsFresh, with_modules-IsSound}
use m_sl_sys_fs.Snapshot.Build.Tree.{
  place_children-IsSound, place_children-HasTree, children_fit, Replaced, place_children_keeps,
}
use m_sl_sys_fs.Snapshot.Query.{find}

module _ (es : List RegEntry) (n : ℕ) where
  -- The walk with the capacity for an estimate of `n` entries.
  abbrev pub whole_walk : Walk
  whole_walk =
      walk (table_size (table_cap n)) (table_cap n) es (start_walk (table_size (table_cap n)))

  room : table_cap n < table_size (table_cap n)
  room = omega (arith, table_size-room (table_cap n), table_cap-pos n)

  pub whole_walk-Captures :
      Captures
        (table_size (table_cap n))
        (table_cap n)
        es
        (start_walk (table_size (table_cap n)))
        whole_walk
  whole_walk-Captures =
      walk-Captures (table_size (table_cap n)) (table_cap n) (table_size-IsPow2 (table_cap n)) room
        es (start_walk (table_size (table_cap n)))
        (start_walk-IsWalked (table_size (table_cap n)) (table_cap n)
          (table_size-IsPow2 (table_cap n)) room (table_cap-pos n))

fresh :
    (es : List RegEntry) (n : ℕ) (z : Sizes) (uptime : ℕ)
    → IsFresh (walked_snapshot z (table_cap n) (table_size (table_cap n)) (whole_walk es n) uptime)
unfolding walked_snapshot
fresh es n z uptime =
    let size = table_size (table_cap n) in
    let w = (whole_walk-Captures es n).walked in
    record {
      sound = record {
        pos = w.pos;
        bound = omega (arith, w.fits, table_cap-le n);
        root = w.root;
        at = w.at;
        from = w.from;
        fits = start-Fits size (table_cap n) es;
        ordinal_le = λ i. omega (arith, (start-IsBare size (table_cap n) es i).1);
        tree = inr (λ p. (start-IsBare size (table_cap n) es p).0);
      };
      childless = λ p. (start-IsBare size (table_cap n) es p).0;
      unnumbered = λ i. (start-IsBare size (table_cap n) es i).1;
    }

-- What a build over the table `b` may return; `placed` says whether there was memory for the children.
pub record Built (placed : Bool) (size : ℕ) (b : Walk) (t : Snapshot) : Type 0 where
  pub sound : IsSound t
  pub tree : placed ≡ true → HasTree t
  pub count : t.node_count ≡ b.count
  pub finds : (r : ℕ) → find t r ≡ hash_find size b.hash r
  pub keeps : (i : ℕ) → Replaced (b.nodes i) (t.nodes i)

abbrev pub IfSome : (Snapshot → Type 0) → Option Snapshot → Type 0
IfSome P none = Unit
IfSome P (some t) = P t

module _ (placed : Bool) (size : ℕ) (b : Walk) where
  with_modules-Built :
      (t : Snapshot) (ms : Option (List ModuleInfo)) (cap bytes : ℕ)
      → Built placed size b t
      → Built placed size b (record t { modules = ms; module_cap = cap; bytes = bytes })
  with_modules-Built t ms cap bytes w = record {
    sound = with_modules-IsSound t ms cap bytes w.sound;
    tree = λ c. let h = w.tree c in record { children = h.children; ordinal = h.ordinal };
    count = w.count;
    finds = w.finds;
    keeps = w.keeps;
  }

  build_modules-Built :
      (z : Sizes) (a : Answers) (ks : Option (List KextEntry)) (t : Snapshot) (w : World)
      → Built placed size b t
      → Built placed size b (build_modules z a ks t w).0
  unfolding build_modules
  build_modules-Built z a none t w built = built
  build_modules-Built z a (some ks) t w built =
      let Good : Snapshot × World → Type 0 = λ r. Built placed size b r.0 in
      if_holds Good (min (length ks) 1024 == 0) _ _ (λ e. built)
        (λ e.
          if_holds Good a.modules_ok _ _
            (λ e.
              if_holds Good a.iterator_ok _ _ (λ e. with_modules-Built t _ _ _ built) (λ e. built))
            (λ e. built))

module _ (z : Sizes) (a : Answers) (n : ℕ) where
  abbrev table : Walk
  table = whole_walk a.entries n

  abbrev table_snapshot : Snapshot
  table_snapshot =
      walked_snapshot z (table_cap n) (table_size (table_cap n)) (whole_walk a.entries n) a.uptime

  is_fresh : IsFresh table_snapshot
  is_fresh = fresh a.entries n z a.uptime

  abbrev BuiltHere : Bool → Snapshot → Type 0
  BuiltHere placed = Built placed (table_size (table_cap n)) (whole_walk a.entries n)

  keeps_nodes :
      (ok : Bool) (i : ℕ) → Replaced (table.nodes i) ((place_children ok table_snapshot).nodes i)
  keeps_nodes ok i = unfold walked_snapshot in place_children_keeps table_snapshot is_fresh ok i

  placed-Built : (ok : Bool) → BuiltHere ok (place_children ok table_snapshot)
  placed-Built true = record {
    sound = place_children-IsSound table_snapshot is_fresh true;
    tree = λ c. place_children-HasTree table_snapshot is_fresh;
    count = unfold place_children walked_snapshot in refl;
    finds = λ r. unfold place_children walked_snapshot in refl;
    keeps = keeps_nodes true;
  }
  placed-Built false = record {
    sound = place_children-IsSound table_snapshot is_fresh false;
    tree = λ c. absurd (cc c);
    count = unfold place_children walked_snapshot in refl;
    finds = λ r. unfold place_children walked_snapshot in refl;
    keeps = keeps_nodes false;
  }

  unplaced-Built : BuiltHere false table_snapshot
  unfolding walked_snapshot
  unplaced-Built = record {
    sound = is_fresh.sound;
    tree = λ c. absurd (cc c);
    count = refl;
    finds = λ r. refl;
    keeps = λ i. refl;
  }

  fits_cap : table_snapshot.node_count ≤ table_snapshot.child_cap
  unfolding walked_snapshot
  fits_cap = (whole_walk-Captures a.entries n).walked.fits

  abbrev was_placed : Bool
  was_placed = a.counts_ok && a.cursor_ok

  weaken : (p q : Bool) (t : Snapshot) → (q ≡ true → p ≡ true) → BuiltHere p t → BuiltHere q t
  weaken p q t h w = record {
    sound = w.sound;
    tree = λ c. w.tree (h c);
    count = w.count;
    finds = w.finds;
    keeps = w.keeps;
  }

  build_children-Built :
      (w : World) → IfSome (BuiltHere was_placed) (build_children z a table_snapshot w).0
  unfolding build_children
  build_children-Built w =
      let Good : Option Snapshot × World → Type 0 = λ r. IfSome (BuiltHere was_placed) r.0 in
      if_holds Good a.counts_ok _ _
        (λ memory.
          if_holds Good
            (ltb table_snapshot.child_cap
              (sum_counts (child_counts table_snapshot) table_snapshot.node_count))
            _ _ (λ much. absurd (cc (much, children_fit table_snapshot is_fresh fits_cap)))
            (λ few.
              build_modules-Built was_placed (table_size (table_cap n)) (whole_walk a.entries n) z a
                a.kexts (place_children a.cursor_ok table_snapshot) _
                (weaken a.cursor_ok was_placed (place_children a.cursor_ok table_snapshot)
                  (λ c. ground (arith, c)) (placed-Built a.cursor_ok))))
        (λ short.
          weaken false was_placed table_snapshot (λ c. ground (arith, c, short)) unplaced-Built)

  build_tables-Built :
      (w : World)
      → IfSome
          (BuiltHere was_placed)
          (build_tables z a (table_cap n) (table_size (table_cap n)) w).0
  unfolding build_tables
  build_tables-Built w =
      let Good : Option Snapshot × World → Type 0 = λ r. IfSome (BuiltHere was_placed) r.0 in
      if_holds Good (a.nodes_ok && (a.child_ok && a.hash_ok)) _ _ (λ e. build_children-Built _)
        (λ e. tt)

from_some :
    (P : Snapshot → Type 0) (o : Option Snapshot) (t : Snapshot) → IfSome P o → o ≡ some t → P t
from_some P none t p e = absurd (cc e)
from_some P (some s) t p e = let q : s ≡ t = cc e in subst P q p

-- A snapshot that `sysfs_snap_build` returns is sound; it has its tree if there was memory for it; and
-- its table is that of the walk.
pub snap_build-Built :
    (z : Sizes) (a : Answers) (w : World) (s : Snapshot)
    → (snap_build z a w).0 ≡ some s
    → Built
        (a.counts_ok && a.cursor_ok)
        (table_size (table_cap (estimate a w)))
        (whole_walk a.entries (estimate a w))
        s
unfolding snap_build
snap_build-Built z a w s e =
    let Here : Snapshot → Type 0 =
      Built (a.counts_ok && a.cursor_ok) (table_size (table_cap (estimate a w)))
        (whole_walk a.entries (estimate a w)) in
    from_some Here (snap_build z a w).0 s
      (if_holds (λ (r : Option Snapshot × World). IfSome Here r.0) a.snapshot_ok _ _
        (λ ok. build_tables-Built z a (estimate a w) _) (λ ok. tt))
      e
