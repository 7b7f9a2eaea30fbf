-- ===== src/Prelude/Dict.antt =====
-- `Map` with text keys, as an association list in insertion order: `set` replaces a value in place or
-- puts a new entry last.
use Prim.Native.String.{String}
use mathlib.Core.Path.{◌≡◌, refl}
use mathlib.Core.Option.{Option, none, some}
use mathlib.Core.List.{List, [], ◌∷◌}
use native.Mathlib.Omega.{arith}
use text.Mathlib.Text.{◌==◌ as str_eq}
use text.Mathlib.TextEquality.{eq_iff}
use badgerbots_code_studio.Prelude.Tests.{if◌then◌else◌}

module _ {ℓ} {V : Type ℓ} where
  unfoldable pub lookup : String → List (String × V) → Option V
  lookup name [] = none
  lookup name ((other, value) ∷ rest) = if str_eq other name then some value else lookup name rest

  unfoldable pub insert : String → V → List (String × V) → List (String × V)
  insert name value [] = (name, value) ∷ []
  insert name value ((other, old) ∷ rest) =
      if str_eq other name then (other, value) ∷ rest else (other, old) ∷ insert name value rest

  unfoldable pub delete : String → List (String × V) → List (String × V)
  delete name [] = []
  delete name ((other, value) ∷ rest) =
      if str_eq other name then delete name rest else (other, value) ∷ delete name rest

  pub lookup-insert :
      (name other : String) (value : V) (rest : List (String × V))
      → lookup other (insert name value rest)
        ≡ (if str_eq name other then some value else lookup other rest)
  unfolding lookup insert
  lookup-insert name other value [] = refl
  lookup-insert name other value ((i, old) ∷ rest) =
      ground (
        arith,
        eq_iff name other,
        eq_iff i name,
        eq_iff i other,
        lookup-insert name other value rest,
      )

  pub lookup-delete :
      (name other : String) (rest : List (String × V))
      → lookup other (delete name rest) ≡ (if str_eq name other then none else lookup other rest)
  unfolding lookup delete
  lookup-delete name other [] = ground arith
  lookup-delete name other ((i, old) ∷ rest) =
      ground
        (arith, eq_iff name other, eq_iff i name, eq_iff i other, lookup-delete name other rest)

abbrev pub keys {ℓ} : {V : Type ℓ} → List (String × V) → List String
keys [] = []
keys ((name, value) ∷ rest) = name ∷ keys rest

-- No key stands twice, as in a `Map`.
abbrev pub UniqueKeys {ℓ} : {V : Type ℓ} → List (String × V) → Type ℓ
UniqueKeys [] = Unit
UniqueKeys ((name, value) ∷ rest) = (lookup name rest ≡ none) × UniqueKeys rest

module _ {ℓ} {V : Type ℓ} where
  pub delete_of_missing :
      (name : String) (rest : List (String × V)) → lookup name rest ≡ none → delete name rest ≡ rest
  unfolding lookup delete
  delete_of_missing name [] h = refl
  delete_of_missing name ((other, value) ∷ rest) h = ground (arith, delete_of_missing name rest)

  pub lookup_head :
      (name : String) (value : V) (rest : List (String × V))
      → lookup name ((name, value) ∷ rest) ≡ some value
  unfolding lookup
  lookup_head name value rest = ground (arith, eq_iff name name)

  pub delete_head :
      (name : String) (value : V) (rest : List (String × V))
      → delete name ((name, value) ∷ rest) ≡ delete name rest
  unfolding delete
  delete_head name value rest = ground (arith, eq_iff name name)

  pub insert-UniqueKeys :
      (name : String) (value : V) (rest : List (String × V))
      → UniqueKeys rest
      → UniqueKeys (insert name value rest)
  unfolding insert lookup
  insert-UniqueKeys name value [] h = (refl, tt)
  insert-UniqueKeys name value ((other, old) ∷ rest) h = ground (
    arith,
    eq_iff other name,
    eq_iff name other,
    lookup-insert name other value rest,
    insert-UniqueKeys name value rest h.1,
  )

  pub delete-UniqueKeys :
      (name : String) (rest : List (String × V)) → UniqueKeys rest → UniqueKeys (delete name rest)
  unfolding delete
  delete-UniqueKeys name [] h = tt
  delete-UniqueKeys name ((other, old) ∷ rest) h = ground (
    arith,
    eq_iff other name,
    eq_iff name other,
    lookup-delete name other rest,
    delete-UniqueKeys name rest h.1,
  )
