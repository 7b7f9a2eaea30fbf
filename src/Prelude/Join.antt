-- ===== src/Prelude/Join.antt =====
-- `parts.join("\u001f")`, and when the joined text determines the parts.
use Prim.Native.Char.{Char, code}
use Prim.Native.String.{String, [], ◌∷◌, ◌++◌}
use mathlib.Core.Path.{◌≡◌, refl, ap, ◌∙◌, sym}
use mathlib.Core.Logic.{◌≢◌}
use mathlib.Core.List.{List}
use native.Mathlib.Omega.{arith}
use text.Mathlib.TextLemmas.{nil-append, cons-append}
use text.Mathlib.TextLemmas.{head-eq_of_cons-eq, tail-eq_of_cons-eq}
use badgerbots_code_studio.Prelude.Lists.{All, length}

abbrev separator : Char
separator = "\u{1f}"

-- The separator, U+001F, in front of a text.
abbrev pub behind_separator : String → String
behind_separator s = "\u{1f}" ++ s

unfoldable pub join : List String → String
join List.[] = ""
join (List.◌∷◌ s List.[]) = s
join (List.◌∷◌ s (List.◌∷◌ t rest)) = s ++ behind_separator (join (List.◌∷◌ t rest))

-- A text without the separator.
abbrev pub NoSeparator : String → Type 0
NoSeparator [] = Unit
NoSeparator (c ∷ s) = (code c ≢ 0x1f) × NoSeparator s

behind_separator_lem : (s : String) → behind_separator s ≡ separator ∷ s
behind_separator_lem s = cons-append separator [] s ∙ ap (◌∷◌ separator) (nil-append s)

-- The first separator ends the first part.
split_at_separator :
    (s t r u : String)
    → NoSeparator s
    → NoSeparator t
    → s ++ behind_separator r ≡ t ++ behind_separator u
    → (s ≡ t) × (r ≡ u)
split_at_separator [] [] r u hs ht e = (
  refl,
  tail-eq_of_cons-eq (
      sym (behind_separator_lem r)
      ∙ sym (nil-append (behind_separator r))
      ∙ e
      ∙ nil-append (behind_separator u)
      ∙ behind_separator_lem u),
)
split_at_separator [] (c ∷ t) r u hs ht e = absurd (
    ht.0 (
      sym (
        ap code (
          head-eq_of_cons-eq (
            sym (behind_separator_lem r)
            ∙ sym (nil-append (behind_separator r))
            ∙ e
            ∙ cons-append c t (behind_separator u))))))
split_at_separator (c ∷ s) [] r u hs ht e = absurd (
    hs.0 (
      ap code (
        head-eq_of_cons-eq (
          sym (cons-append c s (behind_separator r))
          ∙ e
          ∙ nil-append (behind_separator u)
          ∙ behind_separator_lem u))))
split_at_separator (c ∷ s) (d ∷ t) r u hs ht e =
    let e' =
      sym (cons-append c s (behind_separator r)) ∙ e ∙ cons-append d t (behind_separator u) in
    let (same, rest) = split_at_separator s t r u hs.1 ht.1 (tail-eq_of_cons-eq e') in
    (cc (head-eq_of_cons-eq e', same), rest)

-- Lists of equally many parts without the separator are joined to different texts.
pub join-injective :
    (xs ys : List String)
    → length xs ≡ length ys
    → All NoSeparator xs
    → All NoSeparator ys
    → join xs ≡ join ys
    → xs ≡ ys
unfolding join
join-injective List.[] List.[] n hx hy e = refl
join-injective List.[] (List.◌∷◌ y ys) n hx hy e = absurd (omega arith)
join-injective (List.◌∷◌ x xs) List.[] n hx hy e = absurd (omega arith)
join-injective (List.◌∷◌ x List.[]) (List.◌∷◌ y List.[]) n hx hy e = ap (λ s. List.◌∷◌ s List.[]) e
join-injective (List.◌∷◌ x List.[]) (List.◌∷◌ y (List.◌∷◌ z ys)) n hx hy e = absurd (omega arith)
join-injective (List.◌∷◌ x (List.◌∷◌ z xs)) (List.◌∷◌ y List.[]) n hx hy e = absurd (omega arith)
join-injective (List.◌∷◌ x (List.◌∷◌ z xs)) (List.◌∷◌ y (List.◌∷◌ w ys)) n hx hy e =
    let (same, rest) = split_at_separator x y _ _ hx.0 hy.0 e in
    let tails = join-injective (List.◌∷◌ z xs) (List.◌∷◌ w ys) (omega arith) hx.1 hy.1 rest in
    cc (same, tails)
