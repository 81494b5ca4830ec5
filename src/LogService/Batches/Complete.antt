-- ===== src/LogService/Batches/Complete.antt =====
-- What the batches of an export are, put together.
use early_warning_system.Prelude.{
  ℕ, zero, suc, ◌-◌, ◌≡◌, ◌≤◌, ◌<◌, refl, sym, ap, ◌∙◌, subst, Bool, true, false, ◌&&◌, Option,
  none, some, List, [], ◌∷◌, ◌++◌, filter, take, drop, length, max, All, arith, nat_eq, leb,
  Option-cases, inl, inr,
}
use mathlib.Core.List.{append_assoc}
use early_warning_system.LogService.Batches.{
  Columns, Cursor, max_id, is_below, is_below_option, cursor_of, order_by, last, select_batch,
  batch_rounds, iter_log_batches,
}
use early_warning_system.LogService.Batches.Order.{
  precedes, IsDescending, IsKeyed, precedes_irrefl, precedes_asym, order_by-IsDescending,
  filter-order_by, length-order_by,
}

-- the rows of an export, batch after batch
abbrev pub rows_of : {A : Type 0} → List (List A) → List A
rows_of [] = []
rows_of (batch ∷ rest) = batch ++ rows_of rest

module _ {A : Type 0} where
  take-append-drop : (n : ℕ) (xs : List A) → take n xs ++ drop n xs ≡ xs
  take-append-drop zero xs = refl
  take-append-drop (suc n) [] = refl
  take-append-drop (suc n) (x ∷ xs) = ap (λ rest. x ∷ rest) (take-append-drop n xs)

  length-drop : (n : ℕ) (xs : List A) → length (drop n xs) ≡ length xs - n
  length-drop zero xs = omega arith
  length-drop (suc n) [] = omega arith
  length-drop (suc n) (x ∷ xs) = omega (arith, length-drop n xs)

  filter_none : (p : A → Bool) (xs : List A) → All (λ x. p x ≡ false) xs → filter p xs ≡ []
  filter_none p [] h = refl
  filter_none p (x ∷ xs) h = rw h.0 (filter_none p xs h.1)

  filter_every : (p : A → Bool) (xs : List A) → All (λ x. p x ≡ true) xs → filter p xs ≡ xs
  filter_every p [] h = refl
  filter_every p (x ∷ xs) h = rw h.0 (ap (λ rest. x ∷ rest) (filter_every p xs h.1))

  filter_both :
      (p q : A → Bool) (xs : List A) → filter (λ x. p x && q x) xs ≡ filter q (filter p xs)
  filter_both p q [] = refl
  filter_both p q (x ∷ xs) = ground (arith, filter_both p q xs)

module _ {A : Type 0} (c : Columns A) where
  -- in a descending list, the rows below one of its rows are those behind it
  behind :
      (pre : List A) (x : A) (post : List A)
      → IsDescending c (pre ++ x ∷ post)
      → filter (is_below c (cursor_of c x)) (pre ++ x ∷ post) ≡ post
  behind [] x post h = rw (precedes_irrefl c x) (filter_every (is_below c (cursor_of c x)) post h.0)
  behind (y ∷ pre) x post h = rw (precedes_asym c y x (at pre h.0)) (behind pre x post h.1)
    where
      at : (zs : List A) → All (λ z. precedes c y z ≡ true) (zs ++ x ∷ post) → precedes c y x ≡ true
      at [] k = k.0
      at (z ∷ zs) k = at zs k.1

  behind_last :
      (n : ℕ) (pre : List A) (x : A) (post : List A)
      → IsDescending c (pre ++ x ∷ post)
      → filter (is_below c (cursor_of c (last c x (take n post)))) (pre ++ x ∷ post) ≡ drop n post
  behind_last zero pre x post h = behind pre x post h
  behind_last (suc n) pre x [] h = behind pre x [] h
  behind_last (suc n) pre x (y ∷ post) h =
      let regroup = append_assoc pre (x ∷ []) (y ∷ post) in
      subst (λ l. filter (is_below c (cursor_of c (last c y (take n post)))) l ≡ drop n post)
        regroup (behind_last n (pre ++ x ∷ []) y post (subst (IsDescending c) (sym regroup) h))

module _ {A : Type 0} (c : Columns A) (size newest : ℕ) (table : List A) (keyed : IsKeyed c table)
    (all_old : filter (λ x. leb (c.id x) newest) table ≡ table) where
  -- a batch is the beginning of what stands below the cursor in the whole order
  select_batch-take :
      (cursor : Option Cursor) (rest : List A)
      → filter (is_below_option c cursor) (order_by c table) ≡ rest
      → select_batch c (suc size) newest cursor table ≡ take (suc size) rest
  unfolding select_batch
  select_batch-take cursor rest h =
      rw
        (
          filter_both (λ (x : A). leb (c.id x) newest) (is_below_option c cursor) table,
          all_old,
          ← filter-order_by c (is_below_option c cursor) table keyed,
          h,
        )
        refl

  batch_rounds-rows :
      (rounds : ℕ) (cursor : Option Cursor) (pre rest : List A)
      → order_by c table ≡ pre ++ rest
      → filter (is_below_option c cursor) (order_by c table) ≡ rest
      → length rest < rounds
      → (batches : List (List A)) × (batch_rounds c (suc size) newest table rounds cursor
          ≡ some batches)
        × (rows_of batches ≡ rest)
  unfolding batch_rounds
  batch_rounds-rows zero cursor pre rest whole below h = absurd (omega (arith, h))
  batch_rounds-rows (suc rounds) cursor pre [] whole below h =
      ([], rw (select_batch-take cursor [] below, batch_rounds) refl, refl)
  batch_rounds-rows (suc rounds) cursor pre (x ∷ post) whole below h =
      let next = cursor_of c (last c x (take size post)) in
      let left = drop size post in
      let split : order_by c table ≡ (pre ++ x ∷ take size post) ++ left =
        whole
        ∙ (ap (λ t. pre ++ x ∷ t) (sym (take-append-drop size post))
            ∙ sym (append_assoc pre (x ∷ take size post) left)) in
      let further : filter (is_below c next) (order_by c table) ≡ left =
        subst (λ l. filter (is_below c next) l ≡ left) (sym whole)
          (behind_last c size pre x post
            (subst (IsDescending c) whole (order_by-IsDescending c table keyed))) in
      let (batches, found, rows) =
        batch_rounds-rows rounds (some next) (pre ++ x ∷ take size post) left split further
          (omega (arith, h, length-drop size post)) in
      (
        (x ∷ take size post) ∷ batches,
        rw (select_batch-take cursor (x ∷ post) below, batch_rounds, found) refl,
        rw rows (ap (λ t. x ∷ t) (take-append-drop size post)),
      )

module _ {A : Type 0} (c : Columns A) where
  max_id-none : (table : List A) → max_id c table ≡ none → table ≡ []
  unfolding max_id
  max_id-none [] h = refl
  max_id-none (x ∷ table) h = elim (Option-cases (max_id c table)) [
    | inl none_left ↦ cc (rw (none_left, max_id) at h)
    | inr (m, found) ↦ cc (rw (found, max_id) at h)
  ]

  max_id-newest :
      (table : List A) (n newest : ℕ)
      → max_id c table ≡ some n
      → n ≤ newest
      → filter (λ x. leb (c.id x) newest) table ≡ table
  unfolding max_id
  max_id-newest [] n newest h le = refl
  max_id-newest (x ∷ table) n newest h le = elim (Option-cases (max_id c table)) [
    | inl none_left ↦
        let e : some (c.id x) ≡ some n = rw (none_left, max_id) at h in
        rw (max_id-none table none_left) (ground (arith, e, le))
    | inr (m, found) ↦
        let e : some (max (c.id x) m) ≡ some n = rw (found, max_id) at h in
        ground (arith, e, le, max_id-newest table m newest found)
  ]

  -- If the keys of a table are different, the export of a table that stays as it is ends, and its
  -- batches, put together, are all the rows of the table from the newest to the oldest.
  pub rows_of-iter_log_batches :
      (size : ℕ) (table : List A)
      → IsKeyed c table
      → (batches : List (List A)) × (iter_log_batches c (suc size) table ≡ some batches)
        × (rows_of batches ≡ order_by c table)
  unfolding iter_log_batches order_by max_id
  rows_of-iter_log_batches size table keyed = elim (Option-cases (max_id c table)) [
    | inl empty ↦ rw (max_id-none table empty) ([], refl, refl)
    | inr (newest, found) ↦
        let (batches, ended, rows) =
          batch_rounds-rows c size newest table keyed
            (max_id-newest table newest newest found (omega arith)) (suc (length table)) none []
            (order_by c table) refl (filter_every _ _ (every (order_by c table)))
            (omega (arith, length-order_by c table)) in
        (batches, rw (found, iter_log_batches) ended, rows)
  ]
    where
      every : (xs : List A) → All (λ x. is_below_option c none x ≡ true) xs
      every [] = tt
      every (x ∷ xs) = (refl, every xs)
