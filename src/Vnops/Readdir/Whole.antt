-- ===== src/Vnops/Readdir/Whole.antt =====
-- Each of the four readdirs is one loop over the entries of its directory.
use m_sl_sys_fs.Base.{
  ℕ, ◌≤◌, ◌≡◌, refl, Bool, true, false, List, [], ◌∷◌, ◌++◌, arith, leb, ◌==◌, if◌then◌else◌,
  Bool-cases, inl, inr, ◌||◌, not, ap, sym, ◌∙◌,
}
use m_sl_sys_fs.Uio.{Uiomove, MovesRecords}
use m_sl_sys_fs.Vnops.Dirent.{Entry, Dirent, Cursor}
use m_sl_sys_fs.Vnops.Readdir.{Listing, finish, emit, emit_dots}
use m_sl_sys_fs.Vnops.Readdir.Ops.{is_nil}
use m_sl_sys_fs.Vnops.Readdir.Window.{IsRunning, not_nil}
use m_sl_sys_fs.Vnops.Readdir.Phases.{saw_end, Leaves, emit-append, emit-Leaves, emit_dots-emit}

-- The listing that one loop over all entries gives.
abbrev pub close : (Cursor × List Entry → Bool) → Cursor × List Entry → Listing
close eof r = finish r.0 (eof r)

-- `is_nil` of what is left
abbrev pub all_done : Cursor × List Entry → Bool
all_done r = is_nil r.1

-- A flag that is not set while entries are left.
abbrev pub IsCareful : (Cursor × List Entry → Bool) → Type 0
IsCareful eof = (r : Cursor × List Entry) → not_nil r.1 ≡ true → eof r ≡ false

finish_halted :
    (c : Cursor) (h : Bool) (eof : Bool) → finish (record c { halted = h }) eof ≡ finish c eof
unfolding finish
finish_halted c h eof = refl

if_true {ℓ} : {A : Type ℓ} → (b : Bool) (x y : A) → b ≡ true → (if b then x else y) ≡ x
if_true b x y e = rw e refl

if_false {ℓ} : {A : Type ℓ} → (b : Bool) (x y : A) → b ≡ false → (if b then x else y) ≡ y
if_false b x y e = rw e refl

if_or : (a b : Bool) → a ≡ false → (a || b) ≡ b
if_or a b e = rw e refl

still : (c : Cursor) → c.halted ≡ false → record c { halted = false } ≡ c
still c e = ap (λ h. record c { halted = h }) (sym e)

emit-no_room :
    (move : Uiomove Dirent) (start : ℕ) (es : List Entry) (c : Cursor)
    → (c.uio.resid == 0) ≡ true
    → close saw_end (emit move start es c) ≡ finish c false
unfolding emit
emit-no_room move start [] c z = ap (λ b. finish c (not b)) z
emit-no_room move start (e ∷ es) c z = rw z refl

module _ (move : Uiomove Dirent) (moves : MovesRecords move) (start : ℕ) (bound : ℕ) where
  -- What comes after a loop is itself one loop.
  abbrev pub Continues : (Cursor → Listing) → List Entry → (Cursor × List Entry → Bool) → Type 0
  Continues f rest eof =
      (c : Cursor) → IsRunning c → c.uio.resid ≤ bound → f c ≡ close eof (emit move start rest c)

  then_one :
      (rest : List Entry) (f : Cursor → Listing)
      → Continues f rest saw_end
      → (c : Cursor) (r : Cursor × List Entry) → Leaves c r
      → c.uio.resid ≤ bound
      → (if r.0.halted then finish r.0 false else f r.0)
        ≡ close saw_end (if not_nil r.1 then (r.0, r.1 ++ rest) else emit move start rest r.0)
  then_one rest f k c (d, []) l le =
      if_false d.halted _ _ (l.on refl)
      ∙ k d (record { no_error = l.no_error; going = l.on refl }) (omega (arith, l.room))
  then_one rest f k c (d, e ∷ es) l le = elim (Bool-cases d.halted) [
    | inl h ↦ if_true d.halted _ _ h
    | inr h ↦
        let z : (d.uio.resid == 0) ≡ true = sym (if_or d.halted _ h) ∙ l.stop refl in
        if_false d.halted _ _ h
        ∙ k d (record { no_error = l.no_error; going = h }) (omega (arith, l.room))
        ∙ emit-no_room move start rest d z
  ]

  dots_one :
      (rest : List Entry) (f : Cursor → Listing) (eof : Cursor × List Entry → Bool)
      → IsCareful eof
      → Continues f rest eof
      → (c : Cursor) (r : Cursor × List Entry) → Leaves c r
      → c.uio.resid ≤ bound
      → (if not_nil r.1
          then finish (record (r.0) { halted = not_nil r.1 }) false
          else f (record (r.0) { halted = not_nil r.1 }))
        ≡ close eof (if not_nil r.1 then (r.0, r.1 ++ rest) else emit move start rest r.0)
  dots_one rest f eof careful k c (d, []) l le =
      ap f (still d (l.on refl))
      ∙ k d (record { no_error = l.no_error; going = l.on refl }) (omega (arith, l.room))
  dots_one rest f eof careful k c (d, e ∷ es) l le =
      finish_halted d true false ∙ ap (finish d) (sym (careful (d, e ∷ es ++ rest) refl))

  pub emit-then :
      (es rest : List Entry) (f : Cursor → Listing)
      → Continues f rest saw_end
      → Continues
          (λ c.
            if (emit move start es c).0.halted
            then finish (emit move start es c).0 false
            else f (emit move start es c).0)
          (es ++ rest)
          saw_end
  emit-then es rest f k c r le =
      then_one rest f k c (emit move start es c) (emit-Leaves move moves start es c r) le
      ∙ ap (close saw_end) (sym (emit-append move start es rest c))

  pub dots-then :
      (es rest : List Entry) (f : Cursor → Listing) (eof : Cursor × List Entry → Bool)
      → IsCareful eof
      → Continues f rest eof
      → (c : Cursor) → IsRunning c
      → c.uio.resid ≤ bound
      → (leb start c.nextpos || not (c.uio.resid == 0)) ≡ true
      → (if (emit_dots move start es c).halted
          then finish (emit_dots move start es c) false
          else f (emit_dots move start es c))
        ≡ close eof (emit move start (es ++ rest) c)
  dots-then es rest f eof careful k c r le ready =
      ap (λ d. if d.halted then finish d false else f d)
        (emit_dots-emit move moves start es c r ready)
      ∙ dots_one rest f eof careful k c (emit move start es c) (emit-Leaves move moves start es c r)
          le
      ∙ ap (close eof) (sym (emit-append move start es rest c))
