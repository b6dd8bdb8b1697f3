-- ===== src/Vfsops/Count.antt =====
-- The mounts of kext/sysfs_vfsops.c: their number, their identifiers, and the node hash.
use m_sl_sys_fs.Base.{
  ℕ, ◌+◌, ◌-◌, ◌^◌, ◌≤◌, ◌<◌, ◌≡◌, ◌≢◌, refl, sym, Bool, true, false, Option, none, some, List, [],
  ◌∷◌, arith, ◌==◌, if◌then◌else◌, length, Bool-cases, inl, inr, ==_iff, subst,
}
use m_sl_sys_fs.Structure.{empty}
use m_sl_sys_fs.Vfsops.{
  MountArgs, Kext, Mount, mount_of, new_mount, mount, unmount, drop_mount, without, next_mount_id,
}

-- The identifiers are below a bound, and no two are the same; nor are two mount structures.
abbrev pub Fresh : ℕ → ℕ → List Mount → Type 0
Fresh id mp [] = Unit
Fresh id mp (m ∷ ms) = (m.pmnt_id ≢ id) × (m.mp ≢ mp) × Fresh id mp ms

abbrev pub Distinct : List Mount → Type 0
Distinct [] = Unit
Distinct (m ∷ ms) = Fresh m.pmnt_id m.mp ms × Distinct ms

abbrev pub Bounded : ℕ → List Mount → Type 0
Bounded b [] = Unit
Bounded b (m ∷ ms) = (m.pmnt_id ≤ b) × Bounded b ms

pub record IsConsistent (k : Kext) : Type 0 where
  pub counted : k.mounted_instance_count ≡ length k.mounts
  pub distinct : Distinct k.mounts
  pub bounded : Bounded k.mount_id k.mounts
  pub hashed : k.hash_ready ≡ (if k.mounted_instance_count == 0 then false else true)

-- Any sequence of mounts and unmounts, from the loaded kext.
pub data Runs : Kext → Type 0 where
  loaded : Runs (record {
    mounts = [];
    mount_id = 0;
    mounted_instance_count = 0;
    hash_ready = false;
    structure = empty;
    stat_vfs_getattr = 0;
  })
  mounts :
      (ncpu mp : ℕ) (args : MountArgs) (memory : Bool) (k : Kext)
      → Runs k
      → Runs (mount ncpu memory mp args k).1
  unmounts : (mp : ℕ) (k : Kext) → Runs k → Runs (unmount mp k)

-- The calls of `sysfs_mount` in such a sequence
unfoldable pub mount_calls : (k : Kext) → Runs k → ℕ
mount_calls k loaded = 0
mount_calls k (mounts ncpu mp args memory k' r) = mount_calls k' r + 1
mount_calls k (unmounts mp k' r) = mount_calls k' r

Bounded-more : (b : ℕ) (ms : List Mount) → Bounded b ms → Bounded (b + 1) ms
Bounded-more b [] h = tt
Bounded-more b (m ∷ ms) h = (let l : m.pmnt_id ≤ b = h.0 in omega arith, Bounded-more b ms h.1)

Fresh-above :
    (b mp : ℕ) (ms : List Mount) → Bounded b ms → mount_of ms mp ≡ none → Fresh (b + 1) mp ms
unfolding mount_of
Fresh-above b mp [] h e = tt
Fresh-above b mp (m ∷ ms) h e = elim (Bool-cases (m.mp == mp)) [
  | inl q ↦ absurd (
      let z : some m ≡ none = subst (λ c. (if c then some m else mount_of ms mp) ≡ none) q e in
      cc z)
  | inr q ↦
      let e' : mount_of ms mp ≡ none =
        subst (λ c. (if c then some m else mount_of ms mp) ≡ none) q e in
      (
        λ z. (let l : m.pmnt_id ≤ b = h.0 in absurd (omega arith)),
        λ z. absurd (let w : (m.mp == mp) ≡ true = (==_iff m.mp mp).1 z in cc (q, w)),
        Fresh-above b mp ms h.1 e',
      )
]

Bounded-without : (b mp : ℕ) (ms : List Mount) → Bounded b ms → Bounded b (without ms mp)
Bounded-without b mp [] h = tt
Bounded-without b mp (m ∷ ms) h = elim (Bool-cases (m.mp == mp)) [
  | inl q ↦ rw q h.1
  | inr q ↦ rw q (h.0, Bounded-without b mp ms h.1)
]

Fresh-without : (id q mp : ℕ) (ms : List Mount) → Fresh id q ms → Fresh id q (without ms mp)
Fresh-without id q mp [] h = tt
Fresh-without id q mp (m ∷ ms) h = elim (Bool-cases (m.mp == mp)) [
  | inl e ↦ rw e h.2
  | inr e ↦ rw e (h.0, h.1, Fresh-without id q mp ms h.2)
]

Distinct-without : (mp : ℕ) (ms : List Mount) → Distinct ms → Distinct (without ms mp)
Distinct-without mp [] h = tt
Distinct-without mp (m ∷ ms) h = elim (Bool-cases (m.mp == mp)) [
  | inl e ↦ rw e h.1
  | inr e ↦ rw e (Fresh-without m.pmnt_id m.mp mp ms h.0, Distinct-without mp ms h.1)
]

length-without :
    (mp : ℕ) (ms : List Mount) (m : Mount)
    → mount_of ms mp ≡ some m
    → length (without ms mp) + 1 ≡ length ms
unfolding mount_of
length-without mp [] m e = absurd (cc e)
length-without mp (x ∷ ms) m e = elim (Bool-cases (x.mp == mp)) [
  | inl q ↦ rw q (omega arith)
  | inr q ↦
      let e' : mount_of ms mp ≡ some m =
        subst (λ c. (if c then some x else mount_of ms mp) ≡ some m) q e in
      rw q (omega (arith, length-without mp ms m e'))
]

new_mount-IsConsistent :
    (ncpu mp : ℕ) (args : MountArgs) (k : Kext)
    → IsConsistent k
    → mount_of k.mounts mp ≡ none
    → k.mount_id + 1 < 2 ^ 32
    → IsConsistent (new_mount ncpu mp args k)
unfolding new_mount
new_mount-IsConsistent ncpu mp args k c e h =
    let z : next_mount_id k.mount_id ≡ k.mount_id + 1 = omega (arith, h) in
    record {
      counted = omega (arith, c.counted);
      distinct = rw z (Fresh-above k.mount_id mp k.mounts c.bounded e, c.distinct);
      bounded = (
        omega arith,
        subst (λ b. Bounded b k.mounts) (sym z) (Bounded-more k.mount_id k.mounts c.bounded),
      );
      hashed = ground arith;
    }

ready_after :
    (n : ℕ) (h : Bool)
    → 1 ≤ n
    → h ≡ (if n == 0 then false else true)
    → (if n == 1 then false else h) ≡ (if n - 1 == 0 then false else true)
ready_after n h p e = ground arith

drop_mount-IsConsistent :
    (mp : ℕ) (k : Kext) (o : Option Mount)
    → IsConsistent k
    → mount_of k.mounts mp ≡ o
    → IsConsistent (drop_mount o mp k)
drop_mount-IsConsistent mp k none c e = c
drop_mount-IsConsistent mp k (some m) c e =
    let l = length-without mp k.mounts m e in
    record {
      counted = omega (arith, c.counted, l);
      distinct = Distinct-without mp k.mounts c.distinct;
      bounded = Bounded-without k.mount_id mp k.mounts c.bounded;
      hashed =
          ready_after k.mounted_instance_count k.hash_ready (omega (arith, c.counted, l)) c.hashed;
    }

mount-IsConsistent :
    (ncpu mp : ℕ) (args : MountArgs) (memory : Bool) (k : Kext) (o : Option Mount)
    → IsConsistent k
    → mount_of k.mounts mp ≡ o
    → k.mount_id + 1 < 2 ^ 32
    → IsConsistent (mount ncpu memory mp args k).1
unfolding mount
mount-IsConsistent ncpu mp args memory k (some m) c e h = rw (e, mount) c
mount-IsConsistent ncpu mp args true k none c e h =
    rw (e, mount) (new_mount-IsConsistent ncpu mp args k c e h)
mount-IsConsistent ncpu mp args false k none c e h = rw (e, mount) c

mount-id_step :
    (ncpu mp : ℕ) (args : MountArgs) (memory : Bool) (k : Kext) (o : Option Mount)
    → mount_of k.mounts mp ≡ o
    → (mount ncpu memory mp args k).1.mount_id ≤ k.mount_id + 1
unfolding mount new_mount
mount-id_step ncpu mp args memory k (some m) e = rw (e, mount) (omega arith)
mount-id_step ncpu mp args true k none e = rw (e, mount) (omega arith)
mount-id_step ncpu mp args false k none e = rw (e, mount) (omega arith)

drop_mount-id : (mp : ℕ) (k : Kext) (o : Option Mount) → (drop_mount o mp k).mount_id ≡ k.mount_id
drop_mount-id mp k none = refl
drop_mount-id mp k (some m) = refl

mount_id-calls : (k : Kext) (r : Runs k) → k.mount_id ≤ mount_calls k r
unfolding mount_calls unmount
mount_id-calls k loaded = omega arith
mount_id-calls k (mounts ncpu mp args memory k' r) =
    omega (
      arith,
      mount_id-calls k' r,
      mount-id_step ncpu mp args memory k' (mount_of k'.mounts mp) refl,
    )
mount_id-calls k (unmounts mp k' r) =
    omega (arith, mount_id-calls k' r, drop_mount-id mp k' (mount_of k'.mounts mp))

unmount-IsConsistent : (mp : ℕ) (k : Kext) → IsConsistent k → IsConsistent (unmount mp k)
unfolding unmount
unmount-IsConsistent mp k c =
    let d : IsConsistent (drop_mount (mount_of k.mounts mp) mp k) =
      drop_mount-IsConsistent mp k (mount_of k.mounts mp) c refl in
    record { counted = d.counted; distinct = d.distinct; bounded = d.bounded; hashed = d.hashed }

-- After any sequence of mounts, failed mounts, repeated mounts and unmounts with fewer than 2 ^ 32 calls
-- of sysfs_mount, after which the identifiers start again: the instance counter is the number of
-- mounts, the node hash exists exactly while something is mounted, and the identifiers of the mounts
-- are pairwise different.
pub Runs-IsConsistent : (k : Kext) (r : Runs k) → mount_calls k r < 2 ^ 32 → IsConsistent k
unfolding mount_calls
Runs-IsConsistent k loaded h = record { counted = refl; distinct = tt; bounded = tt; hashed = refl }
Runs-IsConsistent k (mounts ncpu mp args memory k' r) h =
    mount-IsConsistent ncpu mp args memory k' _ (Runs-IsConsistent k' r (omega (arith, h))) refl
      (omega (arith, h, mount_id-calls k' r))
Runs-IsConsistent k (unmounts mp k' r) h = unmount-IsConsistent mp k' (Runs-IsConsistent k' r h)
