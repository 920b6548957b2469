-- ===== src/Prelude/Lists.antt =====
-- Lists measured and sliced by native numbers, under the library's names: `len(xs)`, `xs[:n]`,
-- `xs[n:]` and `xs[-n:]` of the Python code.
use Prim.Native.Nat.{ℕ, zero, suc, ◌+◌, ◌-◌, ◌≤◌}
use mathlib.Core.Path.{◌≡◌}
use mathlib.Core.List.{List, [], ◌∷◌, ◌++◌}
use native.Mathlib.Omega.{arith}

module _ {ℓ} {A : Type ℓ} where
  abbrev pub length : List A → ℕ
  length [] = 0
  length (x ∷ xs) = suc (length xs)

  abbrev pub take : ℕ → List A → List A
  take zero xs = []
  take (suc n) [] = []
  take (suc n) (x ∷ xs) = x ∷ take n xs

  abbrev pub drop : ℕ → List A → List A
  drop zero xs = xs
  drop (suc n) [] = []
  drop (suc n) (x ∷ xs) = drop n xs

  -- `xs[-1]` of a list that begins with `x`
  abbrev pub last_from : A → List A → A
  last_from x [] = x
  last_from x (y ∷ ys) = last_from y ys

  -- `P` holds of every item.
  abbrev pub All {κ} : (A → Type κ) → List A → Type κ
  All P [] = Unit
  All P (x ∷ xs) = P x × All P xs

module _ {ℓ} {A : Type ℓ} where
  pub length-append : (xs ys : List A) → length (xs ++ ys) ≡ length xs + length ys
  length-append [] ys = omega arith
  length-append (x ∷ xs) ys = omega (arith, length-append xs ys)

  pub length-take-le : (n : ℕ) (xs : List A) → length (take n xs) ≤ n
  length-take-le zero xs = omega arith
  length-take-le (suc n) [] = omega arith
  length-take-le (suc n) (x ∷ xs) = omega (arith, length-take-le n xs)

  length-drop : (n : ℕ) (xs : List A) → length (drop n xs) ≡ length xs - n
  length-drop zero xs = omega arith
  length-drop (suc n) [] = omega arith
  length-drop (suc n) (x ∷ xs) = omega (arith, length-drop n xs)

  pub All-append {κ} : (P : A → Type κ) (xs ys : List A) → All P xs → All P ys → All P (xs ++ ys)
  All-append P [] ys hx hy = hy
  All-append P (x ∷ xs) ys hx hy = (hx.0, All-append P xs ys hx.1 hy)

  pub All-take {κ} : (P : A → Type κ) (n : ℕ) (xs : List A) → All P xs → All P (take n xs)
  All-take P zero xs h = tt
  All-take P (suc n) [] h = tt
  All-take P (suc n) (x ∷ xs) h = (h.0, All-take P n xs h.1)

  pub All-imp {κ μ} :
      (P : A → Type κ) (Q : A → Type μ) (xs : List A) → ((x : A) → P x → Q x) → All P xs → All Q xs
  All-imp P Q [] f h = tt
  All-imp P Q (x ∷ xs) f h = (f x h.0, All-imp P Q xs f h.1)

module _ {ℓ} {A : Type ℓ} (key : A → ℕ) where
  -- The keys never decrease, and none is less than `from`.
  abbrev pub Ascends : ℕ → List A → Type 0
  Ascends from [] = Unit
  Ascends from (x ∷ xs) = (from ≤ key x) × Ascends (key x) xs

  pub Ascends-weaken : (a b : ℕ) (xs : List A) → b ≤ a → Ascends a xs → Ascends b xs
  Ascends-weaken a b [] h k = tt
  Ascends-weaken a b (x ∷ xs) h k = (omega (arith, k.0), k.1)

  -- items of one key, behind others of at most that key
  pub Ascends-append_same :
      (from t u : ℕ) (xs ys : List A)
      → t ≤ u
      → from ≤ u
      → Ascends from xs
      → All (λ x. key x ≤ t) xs
      → All (λ y. key y ≡ u) ys
      → Ascends from (xs ++ ys) × All (λ x. key x ≤ u) (xs ++ ys)
  Ascends-append_same from t u [] [] h f a l e = (tt, tt)
  Ascends-append_same from t u [] (y ∷ ys) h f a l e =
      let (b, m) = Ascends-append_same (key y) t u [] ys h (omega (arith, e.0)) tt tt e.1 in
      ((omega (arith, e.0), b), (omega (arith, e.0), m))
  Ascends-append_same from t u (x ∷ xs) ys h f a l e =
      let (b, m) = Ascends-append_same (key x) t u xs ys h (omega (arith, l.0)) a.1 l.1 e in
      ((a.0, b), (omega (arith, l.0), m))
