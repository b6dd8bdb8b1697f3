-- ===== src/Snapshot/Walk/Sound.antt =====
-- The walk of kext/sysfs_iokit.cpp: the table and the hash agree, and hold the entries that it meets.
use m_sl_sys_fs.Base.{
  ℕ, ◌+◌, ◌≤◌, ◌<◌, ◌≡◌, refl, ◌∙◌, ap, sym, false, none, some, List, [], ◌∷◌, ◌==◌, ==_iff, ltb,
  arith, tests, Bool-cases, Option-cases, inl, inr, ◌⊎◌, subst, All,
}
use m_sl_sys_fs.Node.Hash.Invariant.{write-same, write-other}
use m_sl_sys_fs.Snapshot.{SnapNode}
use m_sl_sys_fs.Snapshot.Hash.{hash_insert, hash_find}
use m_sl_sys_fs.Snapshot.Hash.Probe.{IsPow2}
use m_sl_sys_fs.Snapshot.Hash.Find.{IsMap}
use m_sl_sys_fs.Snapshot.Hash.Map.{
  Inserts, hash_insert-Inserts, used, no_slots, no_slots-IsMap, used-no_slots, hash_find-no_slots,
}
use m_sl_sys_fs.Snapshot.Walk.{RegEntry, node_of, Walk, start_walk, append, visit, walk}

-- The table and the hash during the walk: each node is found under its regid, and nothing else is.
pub record IsWalked (size cap : ℕ) (b : Walk) : Type 0 where
  pub is_map : IsMap size b.hash
  pub filled : used size b.hash ≡ b.count
  pub pos : 0 < b.count
  pub fits : b.count ≤ cap
  pub root : (b.nodes 0).regid ≡ 0
  pub at : (i : ℕ) → i < b.count → hash_find size b.hash (b.nodes i).regid ≡ some i
  pub from : (r i : ℕ) → hash_find size b.hash r ≡ some i → (i < b.count) × ((b.nodes i).regid ≡ r)

node_of-regid : (e : RegEntry) → (node_of e).regid ≡ e.id
unfolding node_of
node_of-regid e = refl

module _ (size cap : ℕ) (p : IsPow2 size) (room : cap < size) where
  module _ (e : RegEntry) (b : Walk) (w : IsWalked size cap b) (less : b.count < cap)
      (absent : hash_find size b.hash e.id ≡ none) where
    inserts : Inserts size p e.id b.count b.hash w.is_map (hash_insert size b.hash e.id b.count)
    inserts = hash_insert-Inserts size p e.id b.count b.hash w.is_map (omega (arith, w.filled))

    own_index : hash_find size (hash_insert size b.hash e.id b.count) e.id ≡ some b.count
    own_index = inserts.own ∙ rw absent refl

    old_node : (i : ℕ) → i < b.count → (append size e b).nodes i ≡ b.nodes i
    old_node i l = write-other b.nodes b.count i (node_of e) (ground (arith, l))

    new_node : ((append size e b).nodes b.count).regid ≡ e.id
    new_node =
        ap (λ (x : SnapNode). x.regid) (write-same b.nodes b.count (node_of e)) ∙ node_of-regid e

    other_id : (i : ℕ) → i < b.count → ((b.nodes i).regid == e.id) ≡ false
    other_id i l = elim (Bool-cases ((b.nodes i).regid == e.id)) [
      | inl same ↦
          absurd (cc (absent, w.at i l, ap (hash_find size b.hash) ((==_iff _ e.id).0 same)))
      | inr other ↦ other
    ]

    at_index :
        (i : ℕ)
        → i < b.count + 1
        → hash_find size (append size e b).hash ((append size e b).nodes i).regid ≡ some i
    at_index i l = elim (Bool-cases (b.count == i)) [
      | inl same ↦
          let q : b.count ≡ i = (==_iff b.count i).0 same in
          subst
            (λ k. hash_find size (append size e b).hash ((append size e b).nodes k).regid ≡ some k)
            q (ap (hash_find size (append size e b).hash) new_node ∙ own_index)
      | inr other ↦
          let l' : i < b.count = ground (arith, other) in
          ap (λ (x : SnapNode). hash_find size (append size e b).hash x.regid) (old_node i l')
          ∙ inserts.others (b.nodes i).regid (other_id i l')
          ∙ w.at i l'
    ]

    from_index :
        (r i : ℕ)
        → hash_find size (append size e b).hash r ≡ some i
        → (i < b.count + 1) × (((append size e b).nodes i).regid ≡ r)
    from_index r i h = elim (Bool-cases (r == e.id)) [
      | inl same ↦
          let q : r ≡ e.id = (==_iff r e.id).0 same in
          let k : b.count ≡ i =
            let f : some b.count ≡ some i =
              sym own_index ∙ ap (hash_find size (append size e b).hash) (sym q) ∙ h in
            cc f in
          (omega arith, ap (λ j. ((append size e b).nodes j).regid) (sym k) ∙ new_node ∙ sym q)
      | inr other ↦
          let (l, g) = w.from r i (sym (inserts.others r other) ∙ h) in
          (omega arith, ap (λ (x : SnapNode). x.regid) (old_node i l) ∙ g)
    ]

    append-IsWalked : IsWalked size cap (append size e b)
    append-IsWalked = record {
      is_map = inserts.is_map;
      filled = inserts.count ∙ rw absent (omega (arith, w.filled));
      pos = omega arith;
      fits = omega arith;
      root = ap (λ (x : SnapNode). x.regid) (old_node 0 w.pos) ∙ w.root;
      at = at_index;
      from = from_index;
    }

    append-kept :
        (r i : ℕ)
        → hash_find size b.hash r ≡ some i
        → hash_find size (append size e b).hash r ≡ some i
    append-kept r i h =
        inserts.others r (elim (Bool-cases (r == e.id)) [
          | inl same ↦ absurd (cc (absent, h, ap (hash_find size b.hash) ((==_iff r e.id).0 same)))
          | inr other ↦ other
        ])
        ∙ h

abbrev pub Drawn : List RegEntry → SnapNode → Type 0
Drawn [] x = ⊥
Drawn (e ∷ es) x = (x ≡ node_of e) ⊎ Drawn es x

-- What a walk from `b` over `es` comes to: the table stays sound; what was found stays found; the new
-- nodes are those of entries; and unless the table is full, each entry with an id is found.
pub record Captures (size cap : ℕ) (es : List RegEntry) (b b' : Walk) : Type 0 where
  pub walked : IsWalked size cap b'
  pub more : b.count ≤ b'.count
  pub kept : (r i : ℕ) → hash_find size b.hash r ≡ some i → hash_find size b'.hash r ≡ some i
  pub old : (i : ℕ) → i < b.count → b'.nodes i ≡ b.nodes i
  pub new : (i : ℕ) → b.count ≤ i → i < b'.count → Drawn es (b'.nodes i)
  pub all :
      b'.count < cap → All (λ e. (e.id ≡ 0) ⊎ ((i : ℕ) × (hash_find size b'.hash e.id ≡ some i))) es

module _ (size cap : ℕ) (p : IsPow2 size) (room : cap < size) where
  stay-Captures : (b : Walk) → IsWalked size cap b → Captures size cap [] b b
  stay-Captures b w = record {
    walked = w;
    more = omega arith;
    kept = λ r i h. h;
    old = λ i l. refl;
    new = λ i l l'. absurd (omega arith);
    all = λ l. tt;
  }

  full-Captures :
      (es : List RegEntry) (b : Walk)
      → IsWalked size cap b
      → cap ≤ b.count
      → Captures size cap es b b
  full-Captures es b w le = record {
    walked = w;
    more = omega arith;
    kept = λ r i h. h;
    old = λ i l. refl;
    new = λ i l l'. absurd (omega arith);
    all = λ l. absurd (omega arith);
  }

  -- An entry that is skipped: it has no id, or it was met before.
  skip-Captures :
      (e : RegEntry) (es : List RegEntry) (b b' : Walk)
      → (e.id ≡ 0) ⊎ ((i : ℕ) × (hash_find size b.hash e.id ≡ some i))
      → Captures size cap es b b'
      → Captures size cap (e ∷ es) b b'
  skip-Captures e es b b' seen c = record {
    walked = c.walked;
    more = c.more;
    kept = c.kept;
    old = c.old;
    new = λ i l l'. inr (c.new i l l');
    all = λ l. (elim seen [ inl z ↦ inl z | inr (i, h) ↦ inr (i, c.kept e.id i h) ], c.all l);
  }

  take-Captures :
      (e : RegEntry) (es : List RegEntry) (b b' : Walk)
      → IsWalked size cap b
      → b.count < cap
      → hash_find size b.hash e.id ≡ none
      → Captures size cap es (append size e b) b'
      → Captures size cap (e ∷ es) b b'
  take-Captures e es b b' w less absent c = record {
    walked = c.walked;
    more = let m : b.count + 1 ≤ b'.count = c.more in omega arith;
    kept = λ r i h. c.kept r i (append-kept size cap p room e b w less absent r i h);
    old = λ i l. c.old i (omega arith) ∙ old_node size cap p room e b w less absent i l;
    new = λ i l l'. elim (Bool-cases (b.count == i)) [
      | inl same ↦
          let q : b.count ≡ i = (==_iff b.count i).0 same in
          inl (
            c.old i (omega arith)
            ∙ ap (append size e b).nodes (sym q)
            ∙ write-same b.nodes b.count (node_of e))
      | inr other ↦ inr (c.new i (ground (arith, other)) l')
    ];
    all = λ l.
        (inr (b.count, c.kept e.id b.count (own_index size cap p room e b w less absent)), c.all l);
  }

  visit-IsWalked :
      (e : RegEntry) (b : Walk)
      → IsWalked size cap b
      → b.count < cap
      → IsWalked size cap (visit size e b)
  unfolding visit
  visit-IsWalked e b w less = elim (Bool-cases (e.id == 0)) [
    | inl z ↦ rw z w
    | inr z ↦ elim (Option-cases (hash_find size b.hash e.id)) [
      | inl absent ↦ rw (z, absent) (append-IsWalked size cap p room e b w less absent)
      | inr (i, h) ↦ rw (z, h) w
    ]
  ]

  visit-Captures :
      (e : RegEntry) (es : List RegEntry) (b b' : Walk)
      → IsWalked size cap b
      → b.count < cap
      → Captures size cap es (visit size e b) b'
      → Captures size cap (e ∷ es) b b'
  unfolding visit
  visit-Captures e es b b' w less c = elim (Bool-cases (e.id == 0)) [
    | inl z ↦ skip-Captures e es b b' (inl ((==_iff e.id 0).0 z)) (rw z at c)
    | inr z ↦ elim (Option-cases (hash_find size b.hash e.id)) [
      | inl absent ↦ take-Captures e es b b' w less absent (rw (z, absent) at c)
      | inr (i, h) ↦ skip-Captures e es b b' (inr (i, h)) (rw (z, h) at c)
    ]
  ]

  pub walk-Captures :
      (es : List RegEntry) (b : Walk)
      → IsWalked size cap b
      → Captures size cap es b (walk size cap es b)
  unfolding walk
  walk-Captures [] b w = stay-Captures b w
  walk-Captures (e ∷ es) b w = elim (Bool-cases (ltb b.count cap)) [
    | inl l ↦
        let less : b.count < cap = grind tests in
        rw l (
          visit-Captures e es b _ w less
            (walk-Captures es (visit size e b) (visit-IsWalked e b w less)))
    | inr l ↦ rw l (full-Captures (e ∷ es) b w (grind tests))
  ]

  start_map : Inserts size p 0 0 no_slots (no_slots-IsMap size) (hash_insert size no_slots 0 0)
  start_map =
      hash_insert-Inserts size p 0 0 no_slots (no_slots-IsMap size)
        (omega (arith, used-no_slots size))

  pub start_walk-IsWalked : 1 ≤ cap → IsWalked size cap (start_walk size)
  unfolding start_walk
  start_walk-IsWalked one =
      let own : hash_find size (hash_insert size no_slots 0 0) 0 ≡ some 0 =
        start_map.own ∙ rw (hash_find-no_slots size 0) refl in
      record {
        is_map = start_map.is_map;
        filled =
            start_map.count ∙ rw (hash_find-no_slots size 0) (omega (arith, used-no_slots size));
        pos = omega arith;
        fits = one;
        root = refl;
        at = λ i l. let z : 0 ≡ i = omega arith in own ∙ ap some z;
        from = λ r i h. elim (Bool-cases (r == 0)) [
          | inl z ↦
              let q : r ≡ 0 = (==_iff r 0).0 z in
              let f : some 0 ≡ some i =
                sym own ∙ ap (hash_find size (hash_insert size no_slots 0 0)) (sym q) ∙ h in
              let g : 0 ≡ i = cc f in (omega arith, sym q)
          | inr z ↦ absurd (cc (start_map.others r z, h, hash_find-no_slots size r))
        ];
      }
