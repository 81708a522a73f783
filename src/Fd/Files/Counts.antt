-- ===== src/Fd/Files/Counts.antt =====
-- Reference counts: what duplicating and freeing a whole table does to every file object.
use ixland.Prelude.{
  ℕ, zero, suc, ◌+◌, ◌-◌, ◌≤◌, ◌<◌, ◌≡◌, refl, ap, fun_ext, ◌∙◌, true, Option, none, some, List, [],
  ◌∷◌, arith, sym, ◌⊎◌, ◌==◌, if◌then◌else◌, Option-cases, Bool-cases, inl, inr,
}
use ixland.Fd.Files.{
  Ptr, File, FileHeap, write, Files, ok, drop_ref, take_ref, file_free, file_dup, free_slots,
  files_free, dup_slots, files_dup,
}

-- How many slots of a table point to the object.
abbrev pub count : Ptr → List (Option Ptr) → ℕ
count p [] = 0
count p (none ∷ slots) = count p slots
count p (some q ∷ slots) = if p == q then suc (count p slots) else count p slots

-- The count of an object; a freed one has none.
abbrev refs_of : Option File → ℕ
refs_of none = 0
refs_of (some f) = f.refs

-- Every pointer of the table is counted.
abbrev pub Covers : FileHeap → List (Option Ptr) → Type 0
Covers h slots = (p : Ptr) → count p slots ≤ refs_of (h p)

abbrev pub added : ℕ → Option File → Option File
added n none = none
added n (some f) = some (record f { refs = f.refs + n })

-- Taking away all the references of an object that has some frees it.
abbrev removed : ℕ → Option File → Option File
removed n none = none
removed n (some f) =
    if n == 0 then some f else if f.refs == n then none else some (record f { refs = f.refs - n })

abbrev pub retained : List (Option Ptr) → FileHeap → FileHeap
retained slots h p = added (count p slots) (h p)

abbrev pub released : List (Option Ptr) → FileHeap → FileHeap
released slots h p = removed (count p slots) (h p)

pub removed-zero : (c : Option File) → removed 0 c ≡ c
removed-zero none = refl
removed-zero (some f) = refl

added-zero : (c : Option File) → added 0 c ≡ c
added-zero none = refl
added-zero (some f) = ground arith

removed-drop_ref :
    (n : ℕ) (f : File) → suc n ≤ f.refs → removed n (drop_ref f) ≡ removed (suc n) (some f)
removed-drop_ref n f h = ground arith

added-take_ref : (n : ℕ) (f : File) → added n (some (take_ref f)) ≡ added (suc n) (some f)
added-take_ref n f = ground arith

removed-added : (n : ℕ) (c : Option File) → (n ≡ 0) ⊎ (0 < refs_of c) → removed n (added n c) ≡ c
removed-added n none h = refl
removed-added n (some f) h = ground arith

module _ (q : Ptr) (slots : List (Option Ptr)) (h : FileHeap) (f : File) (e : h q ≡ some f) where
  pub drop-Covers : Covers h (some q ∷ slots) → Covers (write h q (drop_ref f)) slots
  drop-Covers c p = ground (arith, c p)

  pub released-drop :
      Covers h (some q ∷ slots)
      → (p : Ptr) → released slots (write h q (drop_ref f)) p ≡ released (some q ∷ slots) h p
  released-drop c p = elim (Bool-cases (p == q)) [
    | inl i ↦ ground (arith, c p, removed-drop_ref (count p slots) f)
    | inr i ↦ ground arith
  ]

  retained-take :
      (p : Ptr) → retained slots (write h q (some (take_ref f))) p ≡ retained (some q ∷ slots) h p
  retained-take p = elim (Bool-cases (p == q)) [
    | inl i ↦ ground (arith, added-take_ref (count p slots) f)
    | inr i ↦ ground arith
  ]

free_slots-released :
    (slots : List (Option Ptr)) (h : FileHeap)
    → Covers h slots
    → free_slots slots h ≡ some (released slots h)
unfolding free_slots file_free
free_slots-released [] h c = ap some (fun_ext λ p. sym (removed-zero (h p)))
free_slots-released (none ∷ slots) h c = free_slots-released slots h c
free_slots-released (some q ∷ slots) h c = elim (Option-cases (h q)) [
  | inl e ↦ absurd (ground (arith, c q))
  | inr (f, e) ↦
      rw (e, free_slots)
        (free_slots-released slots (write h q (drop_ref f)) (drop-Covers q slots h f e c)
          ∙ ap some (fun_ext (released-drop q slots h f e c)))
]

-- Every pointer of the table is to a live object.
abbrev pub IsLive : FileHeap → List (Option Ptr) → Type 0
IsLive h slots = (p : Ptr) → 0 < count p slots → 0 < refs_of (h p)

dup_slots-retained :
    (slots : List (Option Ptr)) (h : FileHeap)
    → IsLive h slots
    → dup_slots slots h ≡ some (slots, retained slots h)
unfolding dup_slots file_dup
dup_slots-retained [] h c = ap (λ g. some ([], g)) (fun_ext λ p. sym (added-zero (h p)))
dup_slots-retained (none ∷ slots) h c = rw (dup_slots-retained slots h c, dup_slots)
dup_slots-retained (some q ∷ slots) h c = elim (Option-cases (h q)) [
  | inl e ↦ absurd (ground (arith, c q))
  | inr (f, e) ↦
      rw
        (
          e,
          dup_slots,
          dup_slots-retained slots (write h q (some (take_ref f))) (λ p i. ground (arith, c p)),
        )
        (ap (λ g. some (some q ∷ slots, g)) (fun_ext (retained-take q slots h f e)))
]

IsLive-of_Covers : (slots : List (Option Ptr)) (h : FileHeap) → Covers h slots → IsLive h slots
IsLive-of_Covers slots h c p i = omega (arith, c p)

-- Freeing a table whose pointers are all counted takes, from each object, one reference for every
-- slot that points to it, and frees exactly the objects that are left with none.
files_free-released :
    (t : Files) (h : FileHeap)
    → Covers h t.slots
    → files_free (some t) h ≡ some (released t.slots h)
unfolding files_free
files_free-released t h c = free_slots-released t.slots h c

-- With memory for it, the copy of a table of live objects points to the same objects in the same
-- slots, and each object gains one reference for every slot that points to it.
pub files_dup-retained :
    (t : Files) (h : FileHeap)
    → IsLive h t.slots
    → files_dup true true (some t) h ≡ some (ok t, retained t.slots h)
unfolding files_dup
files_dup-retained t h c = rw (files_dup, dup_slots-retained t.slots h c)

retained-Covers :
    (slots : List (Option Ptr)) (h : FileHeap) → IsLive h slots → Covers (retained slots h) slots
retained-Covers slots h c p = retained_at (count p slots) (h p) (c p)
  where
    retained_at : (n : ℕ) (o : Option File) → (0 < n → 0 < refs_of o) → n ≤ refs_of (added n o)
    retained_at zero o i = omega arith
    retained_at (suc n) none i = absurd (omega (arith, i (omega arith)))
    retained_at (suc n) (some f) i = omega arith

-- Duplicating a table of live objects and freeing the copy leaves every file object as it was.
pub files_free-files_dup :
    (t child : Files) (h h' : FileHeap)
    → IsLive h t.slots
    → files_dup true true (some t) h ≡ some (ok child, h')
    → files_free (some child) h' ≡ some h
files_free-files_dup t child h h' c e =
    let copy : child ≡ t = cc (files_dup-retained t h c) in
    let gained : h' ≡ retained t.slots h = cc (files_dup-retained t h c) in
    rw (copy, gained)
      (files_free-released t (retained t.slots h) (retained-Covers t.slots h c)
        ∙ ap some (fun_ext λ p. removed-added (count p t.slots) (h p) (none_or_live p)))
  where
    none_or_live : (p : Ptr) → (count p t.slots ≡ 0) ⊎ (0 < refs_of (h p))
    none_or_live p = elim (Bool-cases (count p t.slots == 0)) [
      | inl z ↦ inl (ground arith)
      | inr z ↦ inr (c p (ground arith))
    ]
