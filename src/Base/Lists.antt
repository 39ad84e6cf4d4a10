-- ===== src/Base/Lists.antt =====
-- Lists measured and indexed by native numbers.
use Prim.Native.Nat.{ℕ, zero, suc, ◌+◌, ◌-◌, ◌≤◌, ◌<◌}
use mathlib.Core.Path.{◌≡◌, refl, ap, ◌∙◌}
use mathlib.Core.List.{List, [], ◌∷◌, ◌++◌}
use mathlib.Core.Option.{Option, none, some}
use mathlib.Core.Bool.{Bool, true, false, ◌&&◌, ◌||◌}
use mathlib.Core.Logic.{◌≢◌, inl, inr}
use native.Mathlib.Omega.{arith}
use pg_tde.Base.Tests.{◌==◌, Bool-cases}

module _ {ℓ} {A : Type ℓ} where
  abbrev pub length : List A → ℕ
  length [] = 0
  length (x ∷ xs) = suc (length xs)

  abbrev pub get_elem? : List A → ℕ → Option A
  get_elem? [] i = none
  get_elem? (x ∷ xs) zero = some x
  get_elem? (x ∷ xs) (suc i) = get_elem? xs i

  abbrev pub get_or : List A → ℕ → A → A
  get_or [] i d = d
  get_or (x ∷ xs) zero d = x
  get_or (x ∷ xs) (suc i) d = get_or xs i d

  abbrev pub any : (A → Bool) → List A → Bool
  any p [] = false
  any p (x ∷ xs) = p x || any p xs

  abbrev pub all : (A → Bool) → List A → Bool
  all p [] = true
  all p (x ∷ xs) = p x && all p xs

  pub append_assoc : (xs ys zs : List A) → (xs ++ ys) ++ zs ≡ xs ++ (ys ++ zs)
  append_assoc [] ys zs = refl
  append_assoc (x ∷ xs) ys zs = ap (λ l. x ∷ l) (append_assoc xs ys zs)

  pub append_nil : (xs : List A) → xs ++ [] ≡ xs
  append_nil [] = refl
  append_nil (x ∷ xs) = ap (λ l. x ∷ l) (append_nil xs)

  pub length-append : (xs ys : List A) → length (xs ++ ys) ≡ length xs + length ys
  length-append [] ys = omega arith
  length-append (x ∷ xs) ys = omega (arith, length-append xs ys)

  pub get_or-append_left :
      (xs ys : List A) (i : ℕ) (d : A) → i < length xs → get_or (xs ++ ys) i d ≡ get_or xs i d
  get_or-append_left [] ys i d h = absurd (omega arith)
  get_or-append_left (x ∷ xs) ys zero d h = refl
  get_or-append_left (x ∷ xs) ys (suc i) d h = get_or-append_left xs ys i d (omega arith)

  pub get_or-append_right :
      (xs ys : List A) (i : ℕ) (d : A)
      → length xs ≤ i
      → get_or (xs ++ ys) i d ≡ get_or ys (i - length xs) d
  get_or-append_right [] ys i d h = ap (λ k. get_or ys k d) (omega arith)
  get_or-append_right (x ∷ xs) ys zero d h = absurd (omega arith)
  get_or-append_right (x ∷ xs) ys (suc i) d h =
      get_or-append_right xs ys i d (omega arith) ∙ ap (λ k. get_or ys k d) (omega arith)

module _ {ℓ} {A : Type ℓ} where
  abbrev pub take : ℕ → List A → List A
  take zero xs = []
  take (suc n) [] = []
  take (suc n) (x ∷ xs) = x ∷ take n xs

  abbrev pub drop : ℕ → List A → List A
  drop zero xs = xs
  drop (suc n) [] = []
  drop (suc n) (x ∷ xs) = drop n xs

  -- All but the last element.
  abbrev pub init : List A → List A
  init [] = []
  init (x ∷ []) = []
  init (x ∷ y ∷ xs) = x ∷ init (y ∷ xs)

  pub init-append : (xs : List A) (x : A) → init (xs ++ (x ∷ [])) ≡ xs
  init-append [] x = refl
  init-append (y ∷ []) x = refl
  init-append (y ∷ z ∷ xs) x = ap (λ r. y ∷ r) (init-append (z ∷ xs) x)

  pub take-length : (xs ys : List A) → take (length xs) (xs ++ ys) ≡ xs
  take-length [] ys = refl
  take-length (x ∷ xs) ys = ap (λ l. x ∷ l) (take-length xs ys)

  pub drop-length : (xs ys : List A) → drop (length xs) (xs ++ ys) ≡ ys
  drop-length [] ys = refl
  drop-length (x ∷ xs) ys = drop-length xs ys

  pub take-all : (n : ℕ) (xs : List A) → length xs ≤ n → take n xs ≡ xs
  take-all zero [] h = refl
  take-all zero (x ∷ xs) h = absurd (omega arith)
  take-all (suc n) [] h = refl
  take-all (suc n) (x ∷ xs) h = ap (λ r. x ∷ r) (take-all n xs (omega arith))

-- `strcmp(a, b) == 0`
abbrev pub list_eqb : List ℕ → List ℕ → Bool
list_eqb [] [] = true
list_eqb [] (y ∷ ys) = false
list_eqb (x ∷ xs) [] = false
list_eqb (x ∷ xs) (y ∷ ys) = x == y && list_eqb xs ys

pub list_eqb-eq : (xs ys : List ℕ) → list_eqb xs ys ≡ true → xs ≡ ys
list_eqb-eq [] [] h = refl
list_eqb-eq [] (y ∷ ys) h = cc
list_eqb-eq (x ∷ xs) [] h = cc
list_eqb-eq (x ∷ xs) (y ∷ ys) h = ground (arith, list_eqb-eq xs ys)

pub list_eqb_self : (xs : List ℕ) → list_eqb xs xs ≡ true
list_eqb_self [] = refl
list_eqb_self (x ∷ xs) = ground (arith, list_eqb_self xs)

pub list_eqb-ne : (xs ys : List ℕ) → xs ≢ ys → list_eqb xs ys ≡ false
list_eqb-ne xs ys ne = elim (Bool-cases (list_eqb xs ys)) [
  | inl e ↦ absurd (ne (list_eqb-eq xs ys e))
  | inr e ↦ e
]
