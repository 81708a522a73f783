-- ===== src/Epoll/Items.antt =====
-- eventpoll.c: the items of one bucket.
use ixland.Prelude.{
  ℕ, ◌≡◌, ◌≢◌, refl, ap, sym, ◌∙◌, false, Option, none, some, List, [], ◌∷◌, ◌==◌, arith,
  Bool-cases, inl, inr,
}
use ixland.Epoll.{Event, Item, find_in, remove_in, change_in}

-- No number stands twice.
abbrev pub IsDistinct : List Item → Type 0
IsDistinct [] = Unit
IsDistinct (x ∷ xs) = (find_in x.fd xs ≡ none) × IsDistinct xs

abbrev pub event_of : Option Item → Option Event
event_of none = none
event_of (some x) = some x.event

pub find_in-remove_in_self :
    (fd : ℕ) (xs : List Item) → IsDistinct xs → find_in fd (remove_in fd xs) ≡ none
unfolding find_in remove_in
find_in-remove_in_self fd [] h = refl
find_in-remove_in_self fd (x ∷ xs) (new, h) = elim (Bool-cases (x.fd == fd)) [
  | inl e ↦ (let q : x.fd ≡ fd = ground arith in rw e (rw q at new))
  | inr e ↦ rw e (rw e (find_in-remove_in_self fd xs h))
]

pub find_in-remove_in_other :
    (fd other : ℕ) (xs : List Item)
    → other ≢ fd
    → find_in other (remove_in fd xs) ≡ find_in other xs
unfolding find_in remove_in
find_in-remove_in_other fd other [] ne = refl
find_in-remove_in_other fd other (x ∷ xs) ne = elim (Bool-cases (x.fd == fd)) [
  | inl e ↦ (let q : (x.fd == other) ≡ false = ground arith in rw (e, q) refl)
  | inr e ↦ rw e (elim (Bool-cases (x.fd == other)) [
    | inl f ↦ rw f refl
    | inr f ↦ rw f (find_in-remove_in_other fd other xs ne)
  ])
]

pub remove_in-IsDistinct : (fd : ℕ) (xs : List Item) → IsDistinct xs → IsDistinct (remove_in fd xs)
unfolding find_in remove_in
remove_in-IsDistinct fd [] h = h
remove_in-IsDistinct fd (x ∷ xs) (new, h) = elim (Bool-cases (x.fd == fd)) [
  | inl e ↦ rw e h
  | inr e ↦
      rw e (find_in-remove_in_other fd x.fd xs (ground arith) ∙ new, remove_in-IsDistinct fd xs h)
]

pub find_in-change_in_self :
    (fd : ℕ) (event : Event) (xs : List Item) (x : Item)
    → find_in fd xs ≡ some x
    → event_of (find_in fd (change_in fd event xs)) ≡ some event
unfolding find_in change_in
find_in-change_in_self fd event [] x h = cc
find_in-change_in_self fd event (y ∷ xs) x h = elim (Bool-cases (y.fd == fd)) [
  | inl e ↦ rw e (rw e refl)
  | inr e ↦ rw e (rw e (find_in-change_in_self fd event xs x (rw e at h)))
]

pub find_in-change_in_other :
    (fd other : ℕ) (event : Event) (xs : List Item)
    → other ≢ fd
    → find_in other (change_in fd event xs) ≡ find_in other xs
unfolding find_in change_in
find_in-change_in_other fd other event [] ne = refl
find_in-change_in_other fd other event (x ∷ xs) ne = elim (Bool-cases (x.fd == fd)) [
  | inl e ↦ (let q : (x.fd == other) ≡ false = ground arith in rw e (rw q refl))
  | inr e ↦ rw e (elim (Bool-cases (x.fd == other)) [
    | inl f ↦ rw f refl
    | inr f ↦ rw f (find_in-change_in_other fd other event xs ne)
  ])
]

-- A change of an event is no change of a number.
find_in-change_in_absent :
    (fd other : ℕ) (event : Event) (xs : List Item)
    → find_in other xs ≡ none
    → find_in other (change_in fd event xs) ≡ none
unfolding find_in change_in
find_in-change_in_absent fd other event [] h = refl
find_in-change_in_absent fd other event (x ∷ xs) h = elim (Bool-cases (x.fd == other)) [
  | inl f ↦ (let bad : some x ≡ none = rw f at h in cc)
  | inr f ↦ elim (Bool-cases (x.fd == fd)) [
    | inl e ↦ rw e (rw f (rw f at h))
    | inr e ↦ rw e (rw f (find_in-change_in_absent fd other event xs (rw f at h)))
  ]
]

pub change_in-IsDistinct :
    (fd : ℕ) (event : Event) (xs : List Item) → IsDistinct xs → IsDistinct (change_in fd event xs)
unfolding find_in change_in
change_in-IsDistinct fd event [] h = h
change_in-IsDistinct fd event (x ∷ xs) (new, h) = elim (Bool-cases (x.fd == fd)) [
  | inl e ↦ rw e (new, h)
  | inr e ↦ rw e (find_in-change_in_absent fd x.fd event xs new, change_in-IsDistinct fd event xs h)
]

-- What is found has the number that was looked for.
pub find_in-fd : (fd : ℕ) (xs : List Item) (x : Item) → find_in fd xs ≡ some x → x.fd ≡ fd
unfolding find_in
find_in-fd fd [] x h = cc
find_in-fd fd (y ∷ xs) x h = elim (Bool-cases (y.fd == fd)) [
  | inl e ↦
      (let same : some y ≡ some x = rw e at h in
        let q : y.fd ≡ fd = ground arith in let r : y ≡ x = cc in ap (λ z. z.fd) (sym r) ∙ q)
  | inr e ↦ find_in-fd fd xs x (rw e at h)
]
