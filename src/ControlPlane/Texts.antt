-- ===== src/ControlPlane/Texts.antt =====
-- The tests on texts of packages/control-plane/src/service.ts. The tables of letters and of upper and
-- lower case are the runtime's, and arguments.
use Prim.Native.Char.{code}
use badgerbots_code_studio.Prelude.{
  ℕ, Option, none, some, zero, suc, ◌+◌, String, Bool, true, false, not, ◌&&◌, ◌||◌, ltb, leb, ◌==◌,
  if◌then◌else◌,
}

-- White space and line terminators of ECMAScript, as `\s` and `trim` read them.
unfoldable is_space : ℕ → Bool
is_space c =
    (leb 9 c && leb c 13)
    || c == 32
    || c == 0xa0
    || c == 0x1680
    || (leb 0x2000 c && leb c 0x200a)
    || c == 0x2028
    || c == 0x2029
    || c == 0x202f
    || c == 0x205f
    || c == 0x3000
    || c == 0xfeff

-- `length`, in UTF-16 units.
unfoldable pub utf16_length : String → ℕ
utf16_length String.[] = 0
utf16_length (String.◌∷◌ c s) = (if ltb 0xffff (code c) then 2 else 1) + utf16_length s

abbrev is_empty : String → Bool
is_empty String.[] = true
is_empty (String.◌∷◌ c s) = false

-- `value ? … : …` on a text that may be missing: the empty text counts as missing.
abbrev pub present : Option String → Option String
present none = none
present (some s) = if is_empty s then none else some s

unfoldable trim_start : String → String
unfolding is_space
trim_start String.[] = ""
trim_start (String.◌∷◌ c s) = if is_space (code c) then trim_start s else String.◌∷◌ c s

unfoldable trim_end : String → String
unfolding is_space
trim_end String.[] = ""
trim_end (String.◌∷◌ c s) =
    let rest = trim_end s in if is_space (code c) && is_empty rest then "" else String.◌∷◌ c rest

unfoldable pub trim_text : String → String
unfolding trim_start trim_end
trim_text s = trim_end (trim_start s)

unfoldable without_space : String → Bool
unfolding is_space
without_space String.[] = true
without_space (String.◌∷◌ c s) = not (is_space (code c)) && without_space s

-- A dot that is neither the first character nor the last.
unfoldable has_dot : Bool → String → Bool
has_dot begun String.[] = false
has_dot begun (String.◌∷◌ c s) = (begun && code c == b'.' && not (is_empty s)) || has_dot true s

-- An `@` that is not the first character, with such a dot behind it.
unfoldable has_at : Bool → String → Bool
unfolding has_dot
has_at begun String.[] = false
has_at begun (String.◌∷◌ c s) = (begun && code c == b'@' && has_dot false s) || has_at true s

-- /^\S+@\S+\.\S+$/
unfoldable pub is_email : String → Bool
unfolding without_space has_at
is_email s = without_space s && has_at false s

-- [a-z0-9-]
abbrev is_key_char : ℕ → Bool
is_key_char c = (leb b'a' c && leb c b'z') || (leb b'0' c && leb c b'9') || c == b'-'

unfoldable key_chars : String → Bool
key_chars String.[] = true
key_chars (String.◌∷◌ c s) = is_key_char (code c) && key_chars s

-- /^[a-z0-9][a-z0-9-]{1,63}$/
unfoldable pub is_benchmark_key : String → Bool
unfolding key_chars
is_benchmark_key String.[] = false
is_benchmark_key (String.◌∷◌ c s) =
    is_key_char (code c)
    && not (code c == b'-')
    && key_chars s
    && leb 1 (utf16_length s)
    && leb (utf16_length s) 63

module _ (is_letter : ℕ → Bool) where
  abbrev pub is_name_char : ℕ → Bool
  is_name_char c = is_letter c || c == b'\'' || c == b' ' || c == b'-'

  -- At most so many characters of a name.
  unfoldable pub name_chars : ℕ → String → Bool
  name_chars n String.[] = true
  name_chars zero (String.◌∷◌ c s) = false
  name_chars (suc n) (String.◌∷◌ c s) = is_name_char (code c) && name_chars n s

  -- /^[\p{L}][\p{L}' -]{0,39}$/u
  unfoldable pub is_first_name : String → Bool
  is_first_name String.[] = false
  is_first_name (String.◌∷◌ c s) = is_letter (code c) && name_chars 39 s

  -- /^\p{L}$/u
  unfoldable pub is_initial : String → Bool
  is_initial String.[] = false
  is_initial (String.◌∷◌ c s) = is_letter (code c) && is_empty s
