-- ===== src/Prelude/Sort.antt =====
-- `Array.prototype.sort` by a numeric key: the stable sort, as an insertion sort; and permutations.
use mathlib.Core.List.{
  Mem, Nodup, Perm, Permᴰ, perm_append_comm, Nodup-cons, Nodup-nil, mem-cons, not-mem-nil,
}
use mathlib.Core.List.Perm
use mathlib.Core.Logic.Or
use mathlib.Core.HLevel.{⊥_prop, ×_prop, Unit-prop}
use Prim.Native.Nat.{ℕ, suc, ◌≤◌}
use mathlib.Core.Path.{◌≡◌, refl, ap, subst}
use mathlib.Core.Logic.{◌↔◌, ◌≢◌, ◌⊎◌, inl, inr, ∥∥₁_elim}
use mathlib.Core.List.{List, [], ◌∷◌, ◌++◌, append_assoc}
use native.Mathlib.Nat.{ℕ_set}
use native.Mathlib.Omega.{arith}
use badgerbots_code_studio.Prelude.Tests.{leb, if◌then◌else◌, Bool-cases}
use badgerbots_code_studio.Prelude.Lists.{All, Apart, Distinct, length, flat_map, Any}

Perm_swap_front {ℓ} : {A : Type ℓ} (xs ys zs : List A) → Perm (xs ++ (ys ++ zs)) (ys ++ (xs ++ zs))
Perm_swap_front xs ys zs =
    rw (← append_assoc, ← append_assoc) (Perm.append_right zs (perm_append_comm xs ys))

behind : {P Q R S : Type 0} → (P ⊎ R → S) → P ⊎ (Q ⊎ R) → Q ⊎ S
behind f (inl p) = inr (f (inl p))
behind f (inr (inl q)) = inl q
behind f (inr (inr r)) = inr (f (inr r))

module _ {ℓ} {A : Type ℓ} (rank : A → ℕ) where
  -- Before the first element that does not rank lower.
  unfoldable pub insert_by : A → List A → List A
  insert_by x [] = x ∷ []
  insert_by x (y ∷ ys) = if leb (rank x) (rank y) then x ∷ y ∷ ys else y ∷ insert_by x ys

  unfoldable pub sort_by : List A → List A
  sort_by [] = []
  sort_by (x ∷ xs) = insert_by x (sort_by xs)

  -- Each element ranks no higher than those after it.
  abbrev pub IsSortedBy : List A → Type 0
  IsSortedBy [] = Unit
  IsSortedBy (x ∷ xs) = All (λ y. rank x ≤ rank y) xs × IsSortedBy xs

  insert_by-perm : (x : A) (ys : List A) → Perm (insert_by x ys) (x ∷ ys)
  unfolding insert_by
  insert_by-perm x [] = Perm.rfl
  insert_by-perm x (y ∷ ys) = elim (Bool-cases (leb (rank x) (rank y))) [
    | inl le ↦ rw le Perm.rfl
    | inr gt ↦ rw gt (Perm.trans (Perm.cons y (insert_by-perm x ys)) (Perm.swap x y ys))
  ]

  pub sort_by-perm : (xs : List A) → Perm (sort_by xs) xs
  unfolding sort_by
  sort_by-perm [] = Perm.rfl
  sort_by-perm (x ∷ xs) = Perm.trans (insert_by-perm x (sort_by xs)) (Perm.cons x (sort_by-perm xs))

  module _ {κ} {B : Type κ} (f : A → List B) where
    flat_map-insert_by-perm :
        (x : A) (ys : List A) → Perm (flat_map f (insert_by x ys)) (f x ++ flat_map f ys)
    unfolding insert_by
    flat_map-insert_by-perm x [] = Perm.rfl
    flat_map-insert_by-perm x (y ∷ ys) = elim (Bool-cases (leb (rank x) (rank y))) [
      | inl le ↦ rw le Perm.rfl
      | inr gt ↦ rw gt (
          Perm.trans (Perm.append_left (f y) (flat_map-insert_by-perm x ys))
            (Perm_swap_front (f y) (f x) (flat_map f ys)))
    ]

    -- The parts of the elements, put together, are permuted.
    pub flat_map-sort_by-perm : (xs : List A) → Perm (flat_map f (sort_by xs)) (flat_map f xs)
    unfolding sort_by
    flat_map-sort_by-perm [] = Perm.rfl
    flat_map-sort_by-perm (x ∷ xs) =
        Perm.trans (flat_map-insert_by-perm x (sort_by xs))
          (Perm.append_left (f x) (flat_map-sort_by-perm xs))

  module _ {κ} (P : A → Type κ) where
    All-insert_by : (x : A) (ys : List A) → P x → All P ys → All P (insert_by x ys)
    unfolding insert_by
    All-insert_by x [] p h = (p, tt)
    All-insert_by x (y ∷ ys) p h = elim (Bool-cases (leb (rank x) (rank y))) [
      | inl le ↦ rw le (p, h)
      | inr gt ↦ rw gt (h.0, All-insert_by x ys p h.1)
    ]

    pub All-sort_by : (xs : List A) → All P xs → All P (sort_by xs)
    unfolding sort_by
    All-sort_by [] h = tt
    All-sort_by (x ∷ xs) h = All-insert_by x (sort_by xs) h.0 (All-sort_by xs h.1)

  module _ (P : A → Type 0) where
    Any-insert_by : (x : A) (ys : List A) → P x ⊎ Any P ys → Any P (insert_by x ys)
    unfolding insert_by
    Any-insert_by x [] h = h
    Any-insert_by x (y ∷ ys) h = elim (Bool-cases (leb (rank x) (rank y))) [
      | inl le ↦ rw le h
      | inr gt ↦ rw gt (behind (Any-insert_by x ys) h)
    ]

    pub Any-sort_by : (xs : List A) → Any P xs → Any P (sort_by xs)
    unfolding sort_by
    Any-sort_by [] h = h
    Any-sort_by (x ∷ xs) (inl p) = Any-insert_by x (sort_by xs) (inl p)
    Any-sort_by (x ∷ xs) (inr h) = Any-insert_by x (sort_by xs) (inr (Any-sort_by xs h))

  All-le : (m n : ℕ) (ys : List A) → m ≤ n → All (λ y. n ≤ rank y) ys → All (λ y. m ≤ rank y) ys
  All-le m n [] le h = tt
  All-le m n (y ∷ ys) le h = (omega arith, All-le m n ys le h.1)

  insert_by-IsSortedBy : (x : A) (ys : List A) → IsSortedBy ys → IsSortedBy (insert_by x ys)
  unfolding insert_by
  insert_by-IsSortedBy x [] h = (tt, tt)
  insert_by-IsSortedBy x (y ∷ ys) h = elim (Bool-cases (leb (rank x) (rank y))) [
    | inl le ↦
        let x_le : rank x ≤ rank y = ground arith in
        rw le ((x_le, All-le (rank x) (rank y) ys x_le h.0), h)
    | inr gt ↦ rw gt (
      All-insert_by (λ z. rank y ≤ rank z) x ys (ground arith) h.0,
      insert_by-IsSortedBy x ys h.1,
    )
  ]

  pub sort_by-IsSortedBy : (xs : List A) → IsSortedBy (sort_by xs)
  unfolding sort_by
  sort_by-IsSortedBy [] = tt
  sort_by-IsSortedBy (x ∷ xs) = insert_by-IsSortedBy x (sort_by xs) (sort_by-IsSortedBy xs)

  insert_by_of_IsSortedBy : (x : A) (ys : List A) → IsSortedBy (x ∷ ys) → insert_by x ys ≡ x ∷ ys
  unfolding insert_by
  insert_by_of_IsSortedBy x [] h = refl
  insert_by_of_IsSortedBy x (y ∷ ys) ((le, _), _) = ground arith

  -- A sorted list stays as it is.
  pub sort_by_of_IsSortedBy : (xs : List A) → IsSortedBy xs → sort_by xs ≡ xs
  unfolding sort_by
  sort_by_of_IsSortedBy [] h = refl
  sort_by_of_IsSortedBy (x ∷ xs) h =
      rw (sort_by_of_IsSortedBy xs h.1) (insert_by_of_IsSortedBy x xs h)

  length-insert_by : (x : A) (ys : List A) → length (insert_by x ys) ≡ suc (length ys)
  unfolding insert_by
  length-insert_by x [] = refl
  length-insert_by x (y ∷ ys) = ground (arith, length-insert_by x ys)

  pub length-sort_by : (xs : List A) → length (sort_by xs) ≡ length xs
  unfolding sort_by
  length-sort_by [] = refl
  length-sort_by (x ∷ xs) = omega (arith, length-insert_by x (sort_by xs), length-sort_by xs)

module _ {ℓ} {A : Type ℓ} where
  ne_iff_not_mem : (x : A) (ys : List A) → All (λ y. x ≢ y) ys ↔ (¬ Mem x ys)
  ne_iff_not_mem x [] = (λ h m. not-mem-nil m, λ h. tt)
  ne_iff_not_mem x (y ∷ ys) =
      let ih = ne_iff_not_mem x ys in
      (
        λ h m. Or.elim ⊥_prop (mem-cons.0 m) h.0 (ih.0 h.1),
        λ h. (λ e. h (mem-cons.1 (Or.inl e)), ih.1 (λ m. h (mem-cons.1 (Or.inr m)))),
      )

  -- What `Apart` asks of a later element about `x` and `seen` together.
  apart_cons_iff :
      (x : A) (seen ys : List A)
      → All (λ z. All (λ y. y ≢ z) (x ∷ seen)) ys
        ↔ (All (λ z. x ≢ z) ys × All (λ z. All (λ y. y ≢ z) seen) ys)
  apart_cons_iff x seen [] = (λ h. (tt, tt), λ h. tt)
  apart_cons_iff x seen (z ∷ ys) =
      let ih = apart_cons_iff x seen ys in
      (
        λ h. ((h.0.0, (ih.0 h.1).0), (h.0.1, (ih.0 h.1).1)),
        λ h. ((h.0.0, h.1.0), ih.1 (h.0.1, h.1.1)),
      )

  Apart-iff_Nodup :
      (seen xs : List A) → Apart seen xs ↔ (Nodup xs × All (λ z. All (λ y. y ≢ z) seen) xs)
  Apart-iff_Nodup seen [] = (λ h. (Nodup-nil, tt), λ h. tt)
  Apart-iff_Nodup seen (x ∷ xs) =
      let ih = Apart-iff_Nodup (x ∷ seen) xs in
      let new = ne_iff_not_mem x xs in
      let later = apart_cons_iff x seen xs in
      (
        λ h.
            let (nodup, all) = ih.0 h.1 in
            (Nodup-cons.1 (new.0 (later.0 all).0, nodup), (h.0, (later.0 all).1)),
        λ h.
            let (fresh, nodup) = Nodup-cons.0 h.0 in
            (h.1.0, ih.1 (nodup, later.1 (new.1 fresh, h.1.1))),
      )

  All-nil : (xs : List A) → All (λ (z : A). All (λ y. y ≢ z) []) xs
  All-nil [] = tt
  All-nil (x ∷ xs) = (tt, All-nil xs)

  pub Distinct-perm : {xs ys : List A} → Perm xs ys → Distinct xs → Distinct ys
  Distinct-perm {xs} {ys} p h =
      (Apart-iff_Nodup [] ys).1 (Perm.nodup p ((Apart-iff_Nodup [] xs).0 h).0, All-nil ys)

-- Along a permutation go a property of all elements and the length.
module _ {ℓ} {A : Type ℓ} (P : A → Type 0) (prop : (x : A) → IsProp (P x)) where
  All-prop : (xs : List A) → IsProp (All P xs)
  All-prop [] = Unit-prop
  All-prop (x ∷ xs) = ×_prop (prop x) (All-prop xs)

  All-of_Permᴰ : {xs ys : List A} → Permᴰ xs ys → All P xs → All P ys
  All-of_Permᴰ Permᴰ.nil h = h
  All-of_Permᴰ (Permᴰ.cons e p) h = (subst P e h.0, All-of_Permᴰ p h.1)
  All-of_Permᴰ (Permᴰ.swap e f) h = (subst P f h.1.0, (subst P e h.0, h.1.1))
  All-of_Permᴰ (Permᴰ.trans p q) h = All-of_Permᴰ q (All-of_Permᴰ p h)

  pub All-perm : {xs ys : List A} → Perm xs ys → All P xs → All P ys
  All-perm {xs} {ys} p h = ∥∥₁_elim p (All-prop ys) (λ q. All-of_Permᴰ q h)

module _ {ℓ} {A : Type ℓ} where
  length_of_Permᴰ : {xs ys : List A} → Permᴰ xs ys → length xs ≡ length ys
  length_of_Permᴰ Permᴰ.nil = refl
  length_of_Permᴰ (Permᴰ.cons e p) = ap suc (length_of_Permᴰ p)
  length_of_Permᴰ (Permᴰ.swap e f) = refl
  length_of_Permᴰ (Permᴰ.trans p q) = omega (arith, length_of_Permᴰ p, length_of_Permᴰ q)

  pub length-perm : {xs ys : List A} → Perm xs ys → length xs ≡ length ys
  length-perm p = ∥∥₁_elim p (ℕ_set _ _) length_of_Permᴰ
