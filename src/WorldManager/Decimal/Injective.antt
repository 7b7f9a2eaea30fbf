-- ===== src/WorldManager/Decimal/Injective.antt =====
-- Reading back the padded text of a number: packages/world-manager/src/leases.ts.
use Prim.Native.Char.{code}
use Prim.Native.String.{[], ◌∷◌}
use mathlib.Core.Path.{subst}
use badgerbots_code_studio.Prelude.{
  ℕ, zero, suc, ◌+◌, ◌-◌, ◌*◌, ◌/◌, ◌%◌, ◌<◌, ◌≡◌, refl, ap, ◌∙◌, sym, inl, inr, String, false,
  Bool-cases, ◌==◌, ==_iff, arith,
}
use badgerbots_code_studio.ProgramModel.NodeId.{text_length}
use badgerbots_code_studio.WorldManager.Decimal.{digit, digits, decimal, zeros, padded}

-- Reads the digits of a text behind those that were read.
unfoldable value : ℕ → String → ℕ
value read [] = read
value read (c ∷ s) = value (read * 10 + (code c - 48)) s

abbrev Reads : ℕ → Type 0
Reads d = code (digit d) - 48 ≡ d

try_digit : (k d : ℕ) → Reads k → ((d == k) ≡ false → Reads d) → Reads d
try_digit k d h other = elim (Bool-cases (d == k)) [
  | inl same ↦ subst Reads (sym ((==_iff d k).0 same)) h
  | inr differs ↦ other differs
]

code-digit : (d : ℕ) → d < 10 → Reads d
code-digit d h = try_digit 0 d refl λ n0. try_digit 1 d refl λ n1. try_digit 2 d refl λ n2.
    try_digit 3 d refl λ n3. try_digit 4 d refl λ n4. try_digit 5 d refl λ n5.
      try_digit 6 d refl λ n6.
        try_digit 7 d refl
          λ n7. try_digit 8 d refl λ n8. try_digit 9 d refl λ n9. absurd (ground arith)

smaller : (n fuel : ℕ) → (n / 10 == 0) ≡ false → n < suc fuel → n / 10 < fuel
smaller n fuel large h = ground arith

value-digits :
    (fuel n : ℕ) (behind : String) → n < fuel → value 0 (digits fuel n behind) ≡ value n behind
unfolding value digits
value-digits zero n behind h = absurd (omega arith)
value-digits (suc fuel) n behind h = elim (Bool-cases (n / 10 == 0)) [
  | inl small ↦ rw small (
      ap (λ k. value k behind)
        (omega (arith, code-digit (n % 10) (omega arith), (==_iff (n / 10) 0).0 small)))
  | inr large ↦ rw large (
      value-digits fuel (n / 10) (digit (n % 10) ∷ behind) (smaller n fuel large h)
      ∙ ap (λ k. value k behind) (omega (arith, code-digit (n % 10) (omega arith))))
]

value-zeros : (k : ℕ) (s : String) → value 0 (zeros k s) ≡ value 0 s
unfolding value zeros
value-zeros zero s = refl
value-zeros (suc k) s = value-zeros k s

value-padded : (width n : ℕ) → value 0 (padded width n) ≡ n
unfolding value padded decimal
value-padded width n =
    value-zeros (width - text_length (decimal n)) (decimal n)
    ∙ value-digits (suc n) n "" (omega arith)

pub padded-injective : (width a b : ℕ) → padded width a ≡ padded width b → a ≡ b
padded-injective width a b e = sym (value-padded width a) ∙ ap (value 0) e ∙ value-padded width b
