-- ===== src/ProgramModel/NodeId.antt =====
-- The pattern of node identifiers, /^[a-z][a-z0-9-]{2,63}$/, of packages/program-model/src/schema.ts.
-- The same pattern guards the opaque identifiers of packages/world-manager/src/leases.ts.
use Prim.Native.Char.{code}
use Prim.Native.String.{[], ◌∷◌}
use badgerbots_code_studio.Prelude.{ℕ, suc, String, Bool, true, false, ◌&&◌, ◌||◌, leb, ◌==◌}

unfoldable pub is_lower : ℕ → Bool
is_lower c = leb b'a' c && leb c b'z'

unfoldable pub is_id_char : ℕ → Bool
unfolding is_lower
is_id_char c = is_lower c || (leb b'0' c && leb c b'9') || c == b'-'

-- The class [a-z0-9-], for every character.
unfoldable pub all_id_chars : String → Bool
all_id_chars [] = true
all_id_chars (c ∷ s) = is_id_char (code c) && all_id_chars s

abbrev pub text_length : String → ℕ
text_length [] = 0
text_length (c ∷ s) = suc (text_length s)

-- [a-z] and then 2 to 63 characters of the class.
unfoldable pub is_node_id : String → Bool
unfolding is_lower is_id_char all_id_chars
is_node_id [] = false
is_node_id (c ∷ s) =
    is_lower (code c) && all_id_chars s && leb 2 (text_length s) && leb (text_length s) 63
