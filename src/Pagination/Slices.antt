-- ===== src/Pagination/Slices.antt =====
-- Slices of a list, next to one another.
use django_graphex.Common.{
  ℕ, zero, suc, ◌+◌, ◌-◌, ◌≤◌, ◌≡◌, refl, ap, sym, ◌∙◌, List, [], ◌∷◌, ◌++◌, length, take, drop,
  arith,
}
use django_graphex.Pagination.Paginators.{slice}

module _ {A : Type 0} where
  pub take-eq : (m n : ℕ) (xs : List A) → m ≡ n → take m xs ≡ take n xs
  take-eq m n xs e = ap (λ (k : ℕ). take k xs) e

  take-nil : (n : ℕ) → take {A = A} n [] ≡ []
  take-nil zero = refl
  take-nil (suc n) = refl

  pub take-drop : (n : ℕ) (xs : List A) → take n xs ++ drop n xs ≡ xs
  take-drop zero xs = refl
  take-drop (suc n) [] = refl
  take-drop (suc n) (x ∷ xs) = ap (λ (l : List A). x ∷ l) (take-drop n xs)

  -- What is taken further goes on where the first part ends.
  pub take-add : (m n : ℕ) (xs : List A) → take m xs ++ take n (drop m xs) ≡ take (m + n) xs
  take-add zero n xs = take-eq n (0 + n) xs (omega arith)
  take-add (suc m) n [] = take-nil n ∙ sym (take-nil (suc m + n))
  take-add (suc m) n (x ∷ xs) =
      ap (λ (l : List A). x ∷ l) (take-add m n xs)
      ∙ take-eq (suc (m + n)) (suc m + n) (x ∷ xs) (omega arith)

  pub take-long : (n : ℕ) (xs : List A) → length xs ≤ n → take n xs ≡ xs
  take-long zero [] le = refl
  take-long zero (x ∷ xs) le = absurd (omega arith)
  take-long (suc n) [] le = refl
  take-long (suc n) (x ∷ xs) le = ap (λ (l : List A). x ∷ l) (take-long n xs (omega arith))

  pub length-drop : (n : ℕ) (xs : List A) → length (drop n xs) ≡ length xs - n
  length-drop zero xs = omega arith
  length-drop (suc n) [] = omega arith
  length-drop (suc n) (x ∷ xs) = omega (arith, length-drop n xs)

  pub length-take : (n : ℕ) (xs : List A) → length (take n xs) ≤ n
  length-take zero xs = omega arith
  length-take (suc n) [] = omega arith
  length-take (suc n) (x ∷ xs) = omega (arith, length-take n xs)

  pub slice-at : (start n : ℕ) (xs : List A) → slice start (start + n) xs ≡ take n (drop start xs)
  slice-at start n xs = take-eq (start + n - start) n (drop start xs) (omega arith)
