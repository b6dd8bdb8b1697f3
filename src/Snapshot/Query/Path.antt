-- ===== src/Snapshot/Query/Path.antt =====
-- `sysfs_iokit_path` of kext/sysfs_iokit.cpp against `sysfs_iokit_child_named`: the names of a path
-- lead to the entry.
use m_sl_sys_fs.Base.{
  ℕ, ◌+◌, ◌-◌, ◌≤◌, ◌<◌, ◌≡◌, ◌≢◌, refl, ◌∙◌, ap, sym, true, false, ◌||◌, some, List, [], ◌∷◌, ◌++◌,
  Bytes, ◌==◌, if◌then◌else◌, leb, ltb, arith, tests, if_holds, map, subst, length, length-append,
}
use m_sl_sys_fs.Snapshot.{Snapshot}
use m_sl_sys_fs.Snapshot.Build.Sound.{IsSound, HasTree}
use m_sl_sys_fs.Snapshot.Query.{
  display, find, iokit, chain_up, emit_path, path_of, path_depth, slash,
}
use m_sl_sys_fs.Snapshot.Query.Siblings.{no_at}
use m_sl_sys_fs.Snapshot.Query.Lead.{chain-resolves, resolve, join_from, stop}

-- The text with the names, if it fits into the buffer
abbrev pub if_fits : ℕ → Bytes → Bytes
if_fits buflen text = if ltb (length text) buflen then text else []

-- What the loop writes for the names: nothing where the first is empty.
unfoldable pub path_text : ℕ → List Bytes → Bytes
path_text buflen [] = []
path_text buflen ([] ∷ names) = []
path_text buflen ((c ∷ name) ∷ names) = if_fits buflen (join_from (c ∷ name) names)

join_from-ge : (buf : Bytes) (names : List Bytes) → length buf ≤ length (join_from buf names)
unfolding join_from
join_from-ge buf [] = omega arith
join_from-ge buf (name ∷ names) =
    omega (
      arith,
      join_from-ge (buf ++ (slash buf ++ name)) names,
      length-append buf (slash buf ++ name),
    )

too_long : (buflen : ℕ) (text : Bytes) → buflen ≤ length text → if_fits buflen text ≡ []
too_long buflen text l = let e : ltb (length text) buflen ≡ false = grind tests in rw e refl

fits_in : (buflen : ℕ) (text : Bytes) → length text < buflen → if_fits buflen text ≡ text
fits_in buflen text l = let e : ltb (length text) buflen ≡ true = grind tests in rw e refl

slash-pos : (buf name : Bytes) → 0 < length buf → 0 < length (slash buf ++ name)
slash-pos [] name pos = absurd (omega (arith, pos))
slash-pos (c ∷ buf) name pos = omega arith

module _ (s : Snapshot) (buflen : ℕ) where
  abbrev names_on : List ℕ → List Bytes
  names_on chain = map (λ i. display (s.nodes i)) chain

  emit_from :
      (buf : Bytes) (chain : List ℕ)
      → 0 < length buf
      → length buf < buflen
      → emit_path s buflen buf chain ≡ if_fits buflen (join_from buf (names_on chain))
  unfolding emit_path join_from
  emit_from buf [] pos l = sym (fits_in buflen buf l)
  emit_from buf (i ∷ chain) pos l =
      let text : Bytes = slash buf ++ display (s.nodes i) in
      let n : length (buf ++ text) ≡ length buf + length text = length-append buf text in
      let one : 0 < length text = slash-pos buf (display (s.nodes i)) pos in
      let all : Bytes = join_from (buf ++ text) (names_on chain) in
      if_holds (λ r. r ≡ if_fits buflen all)
        ((length text == 0) || leb (buflen - length buf) (length text)) []
        (emit_path s buflen (buf ++ text) chain)
        (λ e.
          let f : leb (buflen - length buf) (length text) ≡ true = ground (arith, e, one) in
          let g : buflen - length buf ≤ length text = grind tests in
          sym (
            too_long buflen all (omega (arith, g, n, join_from-ge (buf ++ text) (names_on chain)))))
        (λ e.
          let f : leb (buflen - length buf) (length text) ≡ false = ground (arith, e) in
          let g : length text < buflen - length buf = grind tests in
          emit_from (buf ++ text) chain (omega (arith, n, pos)) (omega (arith, n, g)))

  first_text :
      (name : Bytes) (chain : List ℕ)
      → 0 < buflen
      → (if (length name == 0) || leb (buflen - 0) (length name)
          then []
          else emit_path s buflen name chain)
        ≡ path_text buflen (name ∷ names_on chain)
  unfolding path_text
  first_text [] chain pos = refl
  first_text (c ∷ name) chain pos =
      let all : Bytes = join_from (c ∷ name) (names_on chain) in
      if_holds (λ r. r ≡ if_fits buflen all)
        ((length (c ∷ name) == 0) || leb (buflen - 0) (length (c ∷ name))) []
        (emit_path s buflen (c ∷ name) chain)
        (λ e.
          let f : leb (buflen - 0) (length (c ∷ name)) ≡ true = ground (arith, e) in
          let g : buflen - 0 ≤ length (c ∷ name) = grind tests in
          sym (too_long buflen all (omega (arith, g, join_from-ge (c ∷ name) (names_on chain)))))
        (λ e.
          let f : leb (buflen - 0) (length (c ∷ name)) ≡ false = ground (arith, e) in
          let g : length (c ∷ name) < buflen - 0 = grind tests in
          emit_from (c ∷ name) chain (omega arith) (omega (arith, g)))

  emit-path_text :
      (chain : List ℕ)
      → 0 < buflen
      → emit_path s buflen [] chain ≡ path_text buflen (names_on chain)
  unfolding emit_path path_text
  emit-path_text [] pos = refl
  emit-path_text (i ∷ chain) pos = first_text (display (s.nodes i)) chain pos

-- What `sysfs_iokit_path` gives for an entry: names with slashes between them, if they fit into the
-- buffer and the first is not empty. The names, looked up one after the other, lead to the entry. They
-- start at the root, unless the entry is more than 64 below it: then they start at the ancestor where
-- the walk up stops.
pub path_of-resolves :
    (s : Snapshot) (regid buflen i : ℕ)
    → IsSound s
    → HasTree s
    → ((x : ℕ) → no_at (s.nodes x).name ≡ true)
    → regid ≢ 0
    → 0 < buflen
    → find s regid ≡ some i
    → (names : List Bytes) × (path_of s regid buflen ≡ path_text buflen names)
      × (resolve (iokit s) (s.nodes (stop s path_depth (some i))).regid names ≡ some regid)
path_of-resolves s regid buflen i w t bare ne pos e =
    let chain = chain_up s path_depth (some i) [] in
    let z : (regid == 0) ≡ false = ground (arith, ne) in
    let whole : path_of s regid buflen ≡ emit_path s buflen [] chain =
      unfold path_of in rw (z, e) refl in
    let leads : resolve (iokit s) (s.nodes (stop s path_depth (some i))).regid
          (map (λ i. display (s.nodes i)) chain)
        ≡ some regid =
      chain-resolves s w t bare path_depth (some i) []
        (λ j q. let q' : i ≡ j = cc q in subst (λ k. k < s.node_count) q' (w.from regid i e).0)
      ∙ (unfold resolve in ap some (w.from regid i e).1) in
    (map (λ i. display (s.nodes i)) chain, whole ∙ emit-path_text s buflen chain pos, leads)
