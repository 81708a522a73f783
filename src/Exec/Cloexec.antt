-- ===== src/Exec/Cloexec.antt =====
-- exec.c, ixland_exec_close_cloexec: which slots are closed, and what that does to the file objects.
use ixland.Prelude.{
  ℕ, ◌-◌, ◌≤◌, ◌≡◌, refl, ap, sym, ◌∙◌, fun_ext, Bool, true, false, Option, none, some, List, [],
  ◌∷◌, arith, ◌==◌, Bool-cases, Option-cases, inl, inr, if◌then◌else◌,
}
use ixland.Fd.Files.{Ptr, File, Files, FileHeap, write, drop_ref}
use ixland.Fd.Files.Counts.{count, Covers, released, drop-Covers, released-drop, removed-zero}
use ixland.Exec.{before, close_slots, close_cloexec}

-- Whether the object is marked to be closed.
abbrev pub is_marked : (ℕ → Bool) → Option File → Bool
is_marked has_cloexec none = false
is_marked has_cloexec (some f) = has_cloexec f.flags

abbrev slot_if : Bool → Ptr → Option Ptr
slot_if true p = some p
slot_if false p = none

-- The slots to marked objects, and the others; the rest of each table is free.
unfoldable pub marked_slots : (Ptr → Bool) → List (Option Ptr) → List (Option Ptr)
marked_slots marks [] = []
marked_slots marks (none ∷ slots) = none ∷ marked_slots marks slots
marked_slots marks (some p ∷ slots) = slot_if (marks p) p ∷ marked_slots marks slots

unfoldable pub other_slots : (Ptr → Bool) → List (Option Ptr) → List (Option Ptr)
other_slots marks [] = []
other_slots marks (none ∷ slots) = none ∷ other_slots marks slots
other_slots marks (some p ∷ slots) = (if marks p then none else some p) ∷ other_slots marks slots

-- The marks are those of the live objects.
abbrev Agrees : (ℕ → Bool) → (Ptr → Bool) → FileHeap → Type 0
Agrees has_cloexec marks h = (p : Ptr) (f : File) → h p ≡ some f → has_cloexec f.flags ≡ marks p

count-marked_slots :
    (marks : Ptr → Bool) (slots : List (Option Ptr)) (p : Ptr)
    → count p (marked_slots marks slots) ≤ count p slots
unfolding marked_slots
count-marked_slots marks [] p = omega arith
count-marked_slots marks (none ∷ slots) p = count-marked_slots marks slots p
count-marked_slots marks (some q ∷ slots) p =
    let rest = count-marked_slots marks slots p in
    elim (Bool-cases (marks q)) [ inl e ↦ rw e (ground arith) | inr e ↦ rw e (ground arith) ]

drop-Agrees :
    (has_cloexec : ℕ → Bool) (marks : Ptr → Bool) (h : FileHeap) (q : Ptr) (f : File)
    → h q ≡ some f
    → Agrees has_cloexec marks h
    → Agrees has_cloexec marks (write h q (drop_ref f))
drop-Agrees has_cloexec marks h q f e agrees p g l = elim (Bool-cases (p == q)) [
  | inl i ↦
      let here : p ≡ q = ground arith in
      let left : drop_ref f ≡ some g = rw i at l in
      ap has_cloexec (sym (kept g left)) ∙ agrees q f e ∙ ap marks (sym here)
  | inr i ↦ agrees p g (rw i at l)
]
  where
    kept : (g : File) → drop_ref f ≡ some g → f.flags ≡ g.flags
    kept g l = elim (Bool-cases (f.refs == 1)) [
      | inl i ↦ (let bad : none ≡ some g = rw i at l in cc)
      | inr i ↦
          let same : some (record f { refs = f.refs - 1 }) ≡ some g = rw i at l in
          let r : record f { refs = f.refs - 1 } ≡ g = cc in ap (λ x. x.flags) r
    ]

close_slots-released :
    (has_cloexec : ℕ → Bool) (marks : Ptr → Bool) (slots : List (Option Ptr)) (h : FileHeap)
    → Covers h slots
    → Agrees has_cloexec marks h
    → close_slots has_cloexec slots h
      ≡ some (other_slots marks slots, released (marked_slots marks slots) h)
unfolding close_slots marked_slots other_slots
close_slots-released has_cloexec marks [] h c a =
    ap (λ g. some ([], g)) (fun_ext λ p. sym (removed-zero (h p)))
close_slots-released has_cloexec marks (none ∷ slots) h c a =
    ap (before none) (close_slots-released has_cloexec marks slots h c a)
close_slots-released has_cloexec marks (some q ∷ slots) h c a = elim (Option-cases (h q)) [
  | inl e ↦ absurd (ground (arith, c q))
  | inr (f, e) ↦
      let same = a q f e in
      elim (Bool-cases (marks q)) [
        | inl m ↦
            let flag : has_cloexec f.flags ≡ true = same ∙ m in
            let smaller : Covers h (some q ∷ marked_slots marks slots) =
              λ p. (let less = count-marked_slots marks slots p in ground (arith, c p)) in
            rw (close_slots, e, flag, m)
              (ap (before none) (
                  close_slots-released has_cloexec marks slots (write h q (drop_ref f))
                    (drop-Covers q slots h f e c) (drop-Agrees has_cloexec marks h q f e a))
                ∙ ap (λ (g : FileHeap). some (none ∷ other_slots marks slots, g))
                    (fun_ext (released-drop q (marked_slots marks slots) h f e smaller)))
        | inr m ↦
            let flag : has_cloexec f.flags ≡ false = same ∙ m in
            rw (close_slots, e, flag, m)
              (ap (before (some q))
                (close_slots-released has_cloexec marks slots h (λ p. ground (arith, c p)) a))
      ]
]

-- For a table whose pointers are all counted, `ixland_exec_close_cloexec` frees every slot whose object is
-- marked, takes one reference of that object for each, which frees the objects that are left with none,
-- and changes no other slot or object.
pub close_cloexec-released :
    (has_cloexec : ℕ → Bool) (t : Files) (h : FileHeap)
    → Covers h t.slots
    → close_cloexec has_cloexec (some t) h
      ≡ some (
        some (record { slots = other_slots (λ p. is_marked has_cloexec (h p)) t.slots }),
        released (marked_slots (λ p. is_marked has_cloexec (h p)) t.slots) h,
      )
unfolding close_cloexec
close_cloexec-released has_cloexec t h c =
    let agrees : Agrees has_cloexec (λ p. is_marked has_cloexec (h p)) h =
      λ p f e. sym (ap (is_marked has_cloexec) e) in
    rw
      (
        close_cloexec,
        close_slots-released has_cloexec (λ p. is_marked has_cloexec (h p)) t.slots h c agrees,
      )
      refl
