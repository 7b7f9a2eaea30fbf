-- ===== src/Prelude/Lists.antt =====
-- Lists measured by native numbers, under the library's names, and a predicate on all elements.
use Prim.Native.Nat.{ℕ, suc, ◌+◌}
use Prim.Native.String.{String}
use mathlib.Core.Path.{◌≡◌, refl, ap}
use mathlib.Core.Logic.{◌↔◌, ◌≢◌, ◌⊎◌, inl, inr}
use mathlib.Core.Bool.{Bool, true, false, ◌||◌}
use mathlib.Core.List.{List, [], ◌∷◌, ◌++◌, map, reverse, reverse-cons}
use native.Mathlib.Omega.{arith}
use badgerbots_code_studio.Prelude.Tests.{if◌then◌else◌}
use text.Mathlib.Text.{◌==◌ as str_eq}
use text.Mathlib.TextEquality.{eq_iff}

module _ {ℓ} {A : Type ℓ} where
  abbrev pub length : List A → ℕ
  length [] = 0
  length (x ∷ xs) = suc (length xs)

  pub length-append : (xs ys : List A) → length (xs ++ ys) ≡ length xs + length ys
  length-append [] ys = omega arith
  length-append (x ∷ xs) ys = omega (arith, length-append xs ys)

module _ {ℓ} {A : Type ℓ} where
  pub length-map {κ} : {B : Type κ} (f : A → B) (xs : List A) → length (map f xs) ≡ length xs
  length-map f [] = refl
  length-map f (x ∷ xs) = ap suc (length-map f xs)

-- `flatMap`, by clauses so that it runs.
abbrev pub flat_map {ℓ κ} : {A : Type ℓ} {B : Type κ} → (A → List B) → List A → List B
flat_map f [] = []
flat_map f (x ∷ xs) = f x ++ flat_map f xs

-- Every element has the property.
abbrev pub All {ℓ κ} : {A : Type ℓ} → (A → Type κ) → List A → Type κ
All P [] = Unit
All P (x ∷ xs) = P x × All P xs

-- Some element has it.
abbrev pub Any {ℓ} : {A : Type ℓ} → (A → Type 0) → List A → Type 0
Any P [] = ⊥
Any P (x ∷ xs) = P x ⊎ Any P xs

module _ {ℓ κ} {A : Type ℓ} (P : A → Type κ) where
  pub All-append : (xs ys : List A) → All P (xs ++ ys) ↔ (All P xs × All P ys)
  All-append [] ys = (λ h. (tt, h), λ h. h.1)
  All-append (x ∷ xs) ys =
      let ih = All-append xs ys in
      (λ h. ((h.0, (ih.0 h.1).0), (ih.0 h.1).1), λ h. (h.0.0, ih.1 (h.0.1, h.1)))

module _ {ℓ κ ι} {A : Type ℓ} {B : Type κ} (P : B → Type ι) (f : A → List B) where
  pub All-flat_map : (xs : List A) → All P (flat_map f xs) ↔ All (λ x. All P (f x)) xs
  All-flat_map [] = (λ h. tt, λ h. tt)
  All-flat_map (x ∷ xs) =
      let split = All-append P (f x) (flat_map f xs) in
      let ih = All-flat_map xs in
      (λ h. ((split.0 h).0, ih.0 (split.0 h).1), λ h. split.1 (h.0, ih.1 h.1))

module _ {ℓ κ ι} {A : Type ℓ} {B : Type κ} (P : B → Type ι) (f : A → B) where
  pub All-map : (xs : List A) → All P (map f xs) ↔ All (λ x. P (f x)) xs
  All-map [] = (λ h. tt, λ h. tt)
  All-map (x ∷ xs) = let ih = All-map xs in (λ h. (h.0, ih.0 h.1), λ h. (h.0, ih.1 h.1))

module _ {ℓ κ} {A : Type ℓ} {B : Type κ} (P : B → Type 0) (f : A → B) where
  pub Any-map : (xs : List A) → Any (λ x. P (f x)) xs → Any P (map f xs)
  Any-map [] h = h
  Any-map (x ∷ xs) (inl h) = inl h
  Any-map (x ∷ xs) (inr h) = inr (Any-map xs h)

module _ {ℓ κ ι} {A : Type ℓ} {P : A → Type κ} {Q : A → Type ι} where
  pub All-mono : ((x : A) → P x → Q x) → (xs : List A) → All P xs → All Q xs
  All-mono f [] h = tt
  All-mono f (x ∷ xs) h = (f x h.0, All-mono f xs h.1)

module _ {ℓ κ} {A : Type ℓ} {P : A → Type κ} where
  pub All-of : ((x : A) → P x) → (xs : List A) → All P xs
  All-of f [] = tt
  All-of f (x ∷ xs) = (f x, All-of f xs)

-- Membership of a text, as the code's sets and `includes` test it.
abbrev pub has : List String → String → Bool
has [] s = false
has (x ∷ xs) s = str_eq x s || has xs s

pub has-All-ne : (xs : List String) (s : String) → (has xs s ≡ false) ↔ All (λ x. x ≢ s) xs
has-All-ne [] s = (λ h. tt, λ h. refl)
has-All-ne (x ∷ xs) s = (
  λ h. (ground (arith, eq_iff x s), (has-All-ne xs s).0 (ground arith)),
  λ h. ground (arith, eq_iff x s, (has-All-ne xs s).1 h.1),
)

-- Comparison, `includes` and deletion over a type with decidable equality.
module _ {ℓ} {A : Type ℓ} (d : Discrete A) where
  abbrev pub is_same : A → A → Bool
  is_same x y = elim (d x y) [ yes _ ↦ true | no _ ↦ false ]

  abbrev pub includes : List A → A → Bool
  includes [] a = false
  includes (x ∷ xs) a = is_same x a || includes xs a

  abbrev pub remove : A → List A → List A
  remove a [] = []
  remove a (x ∷ xs) = if is_same x a then remove a xs else x ∷ remove a xs

  pub is_same-false_iff : (x y : A) → (is_same x y ≡ false) ↔ (x ≢ y)
  is_same-false_iff x y = ground arith

  pub is_same-true_iff : (x y : A) → (is_same x y ≡ true) ↔ (x ≡ y)
  is_same-true_iff x y = ground arith

  pub includes-All-ne : (xs : List A) (a : A) → (includes xs a ≡ false) ↔ All (λ x. x ≢ a) xs
  includes-All-ne [] a = (λ h. tt, λ h. refl)
  includes-All-ne (x ∷ xs) a = (
    λ h. ((is_same-false_iff x a).0 (ground arith), (includes-All-ne xs a).0 (ground arith)),
    λ h. ground (arith, (is_same-false_iff x a).1 h.0, (includes-All-ne xs a).1 h.1),
  )

-- The list `seen` after the elements of `xs` were put on it one by one.
abbrev pub add_all {ℓ} : {A : Type ℓ} → List A → List A → List A
add_all [] seen = seen
add_all (x ∷ xs) seen = add_all xs (x ∷ seen)

-- Each element differs from those of `seen` and from all that stand before it.
abbrev pub Apart {ℓ} : {A : Type ℓ} → List A → List A → Type ℓ
Apart seen [] = Unit
Apart seen (x ∷ xs) = All (λ y. y ≢ x) seen × Apart (x ∷ seen) xs

abbrev pub Distinct {ℓ} : {A : Type ℓ} → List A → Type ℓ
Distinct xs = Apart [] xs

module _ {ℓ} {A : Type ℓ} where
  pub add_all-append :
      (xs ys seen : List A) → add_all (xs ++ ys) seen ≡ add_all ys (add_all xs seen)
  add_all-append [] ys seen = refl
  add_all-append (x ∷ xs) ys seen = add_all-append xs ys (x ∷ seen)

  pub Apart-append :
      (seen xs ys : List A) → Apart seen (xs ++ ys) ↔ (Apart seen xs × Apart (add_all xs seen) ys)
  Apart-append seen [] ys = (λ h. (tt, h), λ h. h.1)
  Apart-append seen (x ∷ xs) ys =
      let ih = Apart-append (x ∷ seen) xs ys in
      (λ h. ((h.0, (ih.0 h.1).0), (ih.0 h.1).1), λ h. (h.0.0, ih.1 (h.0.1, h.1)))

module _ {ℓ} {A : Type ℓ} where
  pub length-reverse : (xs : List A) → length (reverse xs) ≡ length xs
  length-reverse [] = refl
  length-reverse (x ∷ xs) =
      omega (
        arith,
        ap length (reverse-cons x xs),
        length-append (reverse xs) (x ∷ []),
        length-reverse xs,
      )

module _ {ℓ} {A : Type ℓ} (P : A → Type 0) where
  pub Any-append : (xs ys : List A) → Any P xs ⊎ Any P ys → Any P (xs ++ ys)
  Any-append [] ys (inl h) = absurd h
  Any-append [] ys (inr h) = h
  Any-append (x ∷ xs) ys (inl (inl p)) = inl p
  Any-append (x ∷ xs) ys (inl (inr h)) = inr (Any-append xs ys (inl h))
  Any-append (x ∷ xs) ys (inr h) = inr (Any-append xs ys (inr h))

  pub Any-reverse : (xs : List A) → Any P xs → Any P (reverse xs)
  Any-reverse (x ∷ xs) (inl p) =
      rw (reverse-cons x xs) (Any-append (reverse xs) (x ∷ []) (inr (inl p)))
  Any-reverse (x ∷ xs) (inr h) =
      rw (reverse-cons x xs) (Any-append (reverse xs) (x ∷ []) (inl (Any-reverse xs h)))
  Any-reverse [] h = absurd h
