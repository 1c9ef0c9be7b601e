-- ===== src/Common/Window.antt =====
-- The last `n` elements of a list.
use Prim.Native.Nat.{ℕ, ◌-◌, ◌≤◌, min}
use mathlib.Core.Path.{◌≡◌, sym, ap, ◌∙◌}
use mathlib.Core.List.{List, ◌++◌}
use native.Mathlib.Omega.{arith}
use native.Mathlib.Decide.{dec_le}
use libsg.Common.Lists.{
  length, drop, length-append, length-drop, drop-drop, drop-append_of_le, drop-append_of_ge,
}

module _ {ℓ} {A : Type ℓ} where
  abbrev pub last : ℕ → List A → List A
  last n xs = drop (length xs - n) xs

  pub length-last : (n : ℕ) (xs : List A) → length (last n xs) ≡ min n (length xs)
  length-last n xs = omega (arith, length-drop (length xs - n) xs)

  -- A longer suffix has the same last elements.
  pub last-drop : (n k : ℕ) (xs : List A) → k ≤ length xs - n → last n (drop k xs) ≡ last n xs
  last-drop n k xs h =
      ap (λ m. drop (m - n) (drop k xs)) (length-drop k xs)
      ∙ drop-drop (length xs - k - n) k xs
      ∙ ap (λ m. drop m xs) (omega arith)

  -- Forgetting all but the last `n` before adding at the end changes nothing.
  pub last-append : (n : ℕ) (xs ys : List A) → last n (last n xs ++ ys) ≡ last n (xs ++ ys)
  last-append n xs ys =
      ap (last n) (sym (drop-append_of_le (length xs - n) xs ys (omega arith)))
      ∙ last-drop n (length xs - n) (xs ++ ys) (omega (arith, length-append xs ys))

  pub last_all : (n : ℕ) (xs : List A) → length xs ≤ n → last n xs ≡ xs
  last_all n xs h = let e : length xs - n ≡ 0 = omega arith in rw e

  pub last_of_length : (n : ℕ) (xs : List A) → length xs ≡ n → last n xs ≡ xs
  last_of_length n xs h = last_all n xs (omega arith)

  pub last-append_of_ge : (n : ℕ) (xs ys : List A) → n ≤ length ys → last n (xs ++ ys) ≡ last n ys
  last-append_of_ge n xs ys h =
      drop-append_of_ge (length (xs ++ ys) - n) xs ys (omega (arith, length-append xs ys))
      ∙ ap (λ m. drop m ys) (omega (arith, length-append xs ys))

  -- Only the last `n` of what is added at the end matter, and nothing before `n` new elements.
  pub last-append-last : (n : ℕ) (xs ys : List A) → last n (xs ++ last n ys) ≡ last n (xs ++ ys)
  last-append-last n xs ys = elim (dec_le n (length ys)) [
    | yes h ↦
        last-append_of_ge n xs (last n ys) (omega (arith, length-last n ys))
        ∙ last_of_length n (last n ys) (omega (arith, length-last n ys))
        ∙ sym (last-append_of_ge n xs ys h)
    | no h ↦ rw (last_all n ys (omega arith))
  ]

  -- The last `n` of a list with `ys` at its end, part by part.
  pub last-append_parts :
      (n : ℕ) (xs ys : List A) → length ys ≤ n → last n (xs ++ ys) ≡ last (n - length ys) xs ++ ys
  last-append_parts n xs ys h =
      let e : length (xs ++ ys) - n ≡ length xs - (n - length ys) =
        omega (arith, length-append xs ys) in
      rw e (drop-append_of_le (length xs - (n - length ys)) xs ys (omega arith))

  -- The last of the last.
  pub last-last : (m n : ℕ) (xs : List A) → last n (last m xs) ≡ last (min n m) xs
  last-last m n xs =
      ap (λ k. drop (k - n) (last m xs)) (length-drop (length xs - m) xs)
      ∙ drop-drop (length xs - (length xs - m) - n) (length xs - m) xs
      ∙ ap (λ k. drop k xs) (omega arith)
