-- ===== src/WorldManager/Decimal.antt =====
-- The text of a number as packages/world-manager/src/leases.ts writes it:
-- `String(n).padStart(width, "0")`.
pub mod Injective
use Prim.Native.Char.{Char}
use Prim.Native.String.{◌∷◌}
use badgerbots_code_studio.Prelude.{ℕ, zero, suc, ◌-◌, ◌/◌, ◌%◌, String, ◌==◌, if◌then◌else◌, ltb}
use badgerbots_code_studio.ProgramModel.NodeId.{text_length}

abbrev pub digit : ℕ → Char
digit d =
    if ltb d 5
    then (if d == 0
        then "0"
        else (if d == 1 then "1" else (if d == 2 then "2" else (if d == 3 then "3" else "4"))))
    else (if d == 5
        then "5"
        else (if d == 6 then "6" else (if d == 7 then "7" else (if d == 8 then "8" else "9"))))

-- The digits of a number in front of a text. A number has at most as many digits as its value and one.
unfoldable pub digits : ℕ → ℕ → String → String
digits zero n behind = behind
digits (suc fuel) n behind =
    let rest = digits fuel (n / 10) (digit (n % 10) ∷ behind) in
    if n / 10 == 0 then digit (n % 10) ∷ behind else rest

unfoldable pub decimal : ℕ → String
unfolding digits
decimal n = digits (suc n) n ""

unfoldable pub zeros : ℕ → String → String
zeros zero s = s
zeros (suc n) s = "0" ∷ zeros n s

unfoldable pub padded : ℕ → ℕ → String
unfolding decimal zeros
padded width n = let s = decimal n in zeros (width - text_length s) s
