-- ===== src/LogService/Batches/Order.antt =====
-- `ORDER BY timestamp DESC, id DESC` of rows with different keys.
use early_warning_system.Prelude.{
  suc, ◌≡◌, ◌≢◌, refl, ap, ◌∙◌, Bool, true, false, List, [], ◌∷◌, filter, length, All, All-map,
  arith, nat_eq, if◌then◌else◌, Bool-cases, inl, inr,
}
use early_warning_system.LogService.Batches.{Columns, is_below, cursor_of, place, order_by}

module _ {A : Type 0} (c : Columns A) where
  -- one row stands before another
  abbrev pub precedes : A → A → Bool
  precedes x y = is_below c (cursor_of c x) y

  abbrev pub IsDescending : List A → Type 0
  IsDescending [] = Unit
  IsDescending (x ∷ xs) = All (λ y. precedes x y ≡ true) xs × IsDescending xs

  -- The keys are different.
  abbrev pub IsKeyed : List A → Type 0
  IsKeyed [] = Unit
  IsKeyed (x ∷ xs) = All (λ y. c.id x ≢ c.id y) xs × IsKeyed xs

  precedes_trans : (x y z : A) → precedes x y ≡ true → precedes y z ≡ true → precedes x z ≡ true
  unfolding is_below cursor_of
  precedes_trans x y z h k = ground arith

  precedes_total : (x y : A) → c.id x ≢ c.id y → precedes x y ≡ false → precedes y x ≡ true
  unfolding is_below cursor_of
  precedes_total x y d h = ground arith

  pub precedes_irrefl : (x : A) → precedes x x ≡ false
  unfolding is_below cursor_of
  precedes_irrefl x = ground arith

  pub precedes_asym : (x y : A) → precedes x y ≡ true → precedes y x ≡ false
  unfolding is_below cursor_of
  precedes_asym x y h = ground arith

  All-precedes :
      (x y : A) (zs : List A)
      → precedes x y ≡ true
      → All (λ z. precedes y z ≡ true) zs
      → All (λ z. precedes x z ≡ true) zs
  All-precedes x y zs h = All-map _ _ zs (λ z k. precedes_trans x y z h k)

  All-place {κ} : (P : A → Type κ) (x : A) (ys : List A) → P x → All P ys → All P (place c x ys)
  unfolding place
  All-place P x [] p h = (p, tt)
  All-place P x (y ∷ ys) p h = elim (Bool-cases (precedes x y)) [
    | inl first ↦ rw (first, place) (p, h)
    | inr later ↦ rw (later, place) (h.0, All-place P x ys p h.1)
  ]

  All-order_by {κ} : (P : A → Type κ) (xs : List A) → All P xs → All P (order_by c xs)
  unfolding order_by
  All-order_by P [] h = tt
  All-order_by P (x ∷ xs) h = All-place P x (order_by c xs) h.0 (All-order_by P xs h.1)

  place-IsDescending :
      (x : A) (ys : List A)
      → All (λ y. c.id x ≢ c.id y) ys
      → IsDescending ys
      → IsDescending (place c x ys)
  unfolding place
  place-IsDescending x [] d h = (tt, tt)
  place-IsDescending x (y ∷ ys) d h = elim (Bool-cases (precedes x y)) [
    | inl first ↦ rw (first, place) ((first, All-precedes x y ys first h.0), h)
    | inr later ↦
        rw (later, place)
          (All-place _ x ys (precedes_total x y d.0 later) h.0, place-IsDescending x ys d.1 h.1)
  ]

  pub order_by-IsDescending : (xs : List A) → IsKeyed xs → IsDescending (order_by c xs)
  unfolding order_by
  order_by-IsDescending [] k = tt
  order_by-IsDescending (x ∷ xs) k =
      place-IsDescending x (order_by c xs) (All-order_by _ xs k.0) (order_by-IsDescending xs k.1)

  place_first : (x : A) (ys : List A) → All (λ y. precedes x y ≡ true) ys → place c x ys ≡ x ∷ ys
  unfolding place
  place_first x [] h = refl
  place_first x (y ∷ ys) h = rw (h.0, place) refl

  All-filter {κ} : (P : A → Type κ) (p : A → Bool) (xs : List A) → All P xs → All P (filter p xs)
  All-filter P p [] h = tt
  All-filter P p (x ∷ xs) h = elim (Bool-cases (p x)) [
    | inl kept ↦ rw kept (h.0, All-filter P p xs h.1)
    | inr gone ↦ rw gone (All-filter P p xs h.1)
  ]

  filter-place :
      (p : A → Bool) (x : A) (ys : List A)
      → IsDescending ys
      → filter p (place c x ys) ≡ (if p x then place c x (filter p ys) else filter p ys)
  unfolding place
  filter-place p x [] h = ground arith
  filter-place p x (y ∷ ys) h = elim (Bool-cases (precedes x y)) [
    | inl first ↦
        let behind : All (λ z. precedes x z ≡ true) (y ∷ ys) =
          (first, All-precedes x y ys first h.0) in
        rw (first, place, place_first x (filter p (y ∷ ys)) (All-filter _ p (y ∷ ys) behind)) refl
    | inr later ↦ elim (Bool-cases (p y)) [
      | inl kept ↦ rw (later, place, kept, filter-place p x ys h.1) (ground (arith, later))
      | inr gone ↦ rw (later, place, gone, filter-place p x ys h.1) refl
    ]
  ]

  pub filter-order_by :
      (p : A → Bool) (xs : List A)
      → IsKeyed xs
      → filter p (order_by c xs) ≡ order_by c (filter p xs)
  unfolding order_by
  filter-order_by p [] k = refl
  filter-order_by p (x ∷ xs) k =
      filter-place p x (order_by c xs) (order_by-IsDescending xs k.1) ∙ (elim (Bool-cases (p x)) [
        | inl kept ↦ rw (kept, filter-order_by p xs k.1) refl
        | inr gone ↦ rw (gone, filter-order_by p xs k.1) refl
      ])

  length-place : (x : A) (ys : List A) → length (place c x ys) ≡ suc (length ys)
  unfolding place
  length-place x [] = refl
  length-place x (y ∷ ys) = ground (arith, length-place x ys)

  pub length-order_by : (xs : List A) → length (order_by c xs) ≡ length xs
  unfolding order_by
  length-order_by [] = refl
  length-order_by (x ∷ xs) = length-place x (order_by c xs) ∙ ap suc (length-order_by xs)
