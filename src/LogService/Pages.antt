-- ===== src/LogService/Pages.antt =====
-- `_paginate`: the bounds of a page, and that the pages make up the rows.
use native.Mathlib.Nat.{lt-div-mul-add, suc-mul, mul-le-mul_right}
use early_warning_system.Prelude.{
  ℕ, zero, suc, ◌+◌, ◌-◌, ◌*◌, min, max, ◌≡◌, ◌≤◌, ◌<◌, ◌↔◌, refl, sym, ◌∙◌, ap, true, List, [],
  ◌∷◌, ◌++◌, take, drop, length, length-take, arith,
}
use early_warning_system.LogService.{Page, paginate, page_count, min_page_size, max_page_size}

-- the size that `_paginate` takes
abbrev pub size_of : ℕ → ℕ
size_of page_size = min (max page_size min_page_size) max_page_size

module _ {A : Type 0} where
  take-drop : (n : ℕ) (xs : List A) → take n xs ++ drop n xs ≡ xs
  take-drop zero xs = refl
  take-drop (suc n) [] = refl
  take-drop (suc n) (x ∷ xs) = ap (λ l. x ∷ l) (take-drop n xs)

  drop_nil : (n : ℕ) → drop {A = A} n [] ≡ []
  drop_nil zero = refl
  drop_nil (suc n) = refl

  drop-drop : (m n : ℕ) (xs : List A) → drop (m + n) xs ≡ drop n (drop m xs)
  drop-drop zero n xs = ap (λ k. drop k xs) (omega arith)
  drop-drop (suc m) n [] = drop_nil (suc m + n) ∙ sym (drop_nil n)
  drop-drop (suc m) n (x ∷ xs) =
      let e : suc m + n ≡ suc (m + n) = omega arith in
      ap (λ k. drop k (x ∷ xs)) e ∙ drop-drop m n xs

  drop_all : (n : ℕ) (xs : List A) → length xs ≤ n → drop n xs ≡ []
  drop_all zero [] h = refl
  drop_all (suc n) [] h = refl
  drop_all zero (x ∷ xs) h = absurd (omega (arith, h))
  drop_all (suc n) (x ∷ xs) h = drop_all n xs (omega (arith, h))

  -- What `_paginate` returns for any page and size that are asked for.
  pub record IsPage (rows : List A) (p : Page A) : Type 0 where
    pub sized : (10 ≤ p.page_size) × (p.page_size ≤ 200)
    pub placed : (1 ≤ p.page) × (p.page ≤ p.total_pages)
    pub counted : p.total ≡ length rows
    pub fits : length p.items ≤ p.page_size
    pub previous : (p.has_previous ≡ true) ↔ (1 < p.page)
    pub next : (p.has_next ≡ true) ↔ (p.page < p.total_pages)

  -- Whatever page and size are asked for, the size is between 10 and 200, the page is one of at least
  -- one, the total is the number of rows, no page has more items than its size, and the two flags tell
  -- whether there is a page before and a page after.
  pub paginate-IsPage :
      (rows : List A) (page page_size : ℕ) → IsPage rows (paginate rows page page_size)
  unfolding paginate
  paginate-IsPage rows page page_size = record {
    sized = (omega arith, omega arith);
    placed = (omega arith, omega arith);
    counted = refl;
    fits = omega (arith, length-take (size_of page_size) (drop _ rows));
    previous = ground arith;
    next = ground arith;
  }

  -- the items of the pages from one on
  abbrev pub items_from : List A → ℕ → ℕ → ℕ → List A
  items_from rows page_size page zero = []
  items_from rows page_size page (suc n) =
      (paginate rows page page_size).items ++ items_from rows page_size (suc page) n

  items_from-drop :
      (rows : List A) (page_size n k : ℕ)
      → k + n ≡ (paginate rows 1 page_size).total_pages
      → items_from rows page_size (suc k) n ≡ drop (k * size_of page_size) rows
  unfolding paginate page_count
  items_from-drop rows page_size zero k e =
      let s = size_of page_size in
      let positive : 0 < s = omega arith in
      let enough = lt-div-mul-add {a = length rows + (s - 1)} {b = s} positive in
      let counted : page_count (length rows) s ≤ k = omega (arith, e) in
      let covered : page_count (length rows) s * s ≤ k * s = mul-le-mul_right s counted in
      sym (drop_all (k * s) rows (omega (arith, enough, covered)))
  items_from-drop rows page_size (suc n) k e =
      let s = size_of page_size in
      let here : min (max (suc k) 1) (paginate rows 1 page_size).total_pages - 1 ≡ k =
        omega (arith, e) in
      let later : suc k * s ≡ k * s + s = suc-mul k s in
      rw
        (
          here,
          items_from-drop rows page_size n (suc k) (omega (arith, e)),
          later,
          drop-drop (k * s) s rows,
        )
        (take-drop s (drop (k * s) rows))

  -- The items of the pages from the first to the last, whatever size is asked for, are the rows in
  -- their order: every row is on exactly one page.
  pub items_from-all :
      (rows : List A) (page_size : ℕ)
      → items_from rows page_size 1 (paginate rows 1 page_size).total_pages ≡ rows
  items_from-all rows page_size =
      let first : 0 * size_of page_size ≡ 0 = omega arith in
      items_from-drop rows page_size (paginate rows 1 page_size).total_pages 0 (omega arith)
      ∙ ap (λ k. drop k rows) first
