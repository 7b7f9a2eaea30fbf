-- ===== src/ProgramModel/Migrate/DerivedId.antt =====
-- `derivedId` of packages/program-model/src/migrate.ts.
use Prim.Native.String.{◌++◌ as append_text}
use text.Mathlib.TextLemmas.{nil-append, cons-append}
use badgerbots_code_studio.Prelude.{ℕ, zero, suc, ◌+◌, ◌≤◌, ◌≡◌, refl, ap, ◌∙◌, String, true, arith}
use badgerbots_code_studio.ProgramModel.NodeId.{text_length, all_id_chars, is_id_char, is_node_id}
use badgerbots_code_studio.ProgramModel.Schema.Shape.{IsNodeId}
use badgerbots_code_studio.ProgramModel.Migrate.{take_text, derived_id}

text_length-append : (s t : String) → text_length (append_text s t) ≡ text_length s + text_length t
text_length-append String.[] t = omega (arith, ap text_length (nil-append t))
text_length-append (String.◌∷◌ c s) t =
    omega (arith, ap text_length (cons-append c s t), text_length-append s t)

all_id_chars-append :
    (s t : String)
    → all_id_chars s ≡ true
    → all_id_chars t ≡ true
    → all_id_chars (append_text s t) ≡ true
unfolding all_id_chars
all_id_chars-append String.[] t hs ht = ap all_id_chars (nil-append t) ∙ ht
all_id_chars-append (String.◌∷◌ c s) t hs ht =
    ap all_id_chars (cons-append c s t) ∙ ground (arith, all_id_chars-append s t)

all_id_chars-take_text :
    (n : ℕ) (s : String) → all_id_chars s ≡ true → all_id_chars (take_text n s) ≡ true
unfolding all_id_chars take_text
all_id_chars-take_text zero s h = refl
all_id_chars-take_text (suc n) String.[] h = refl
all_id_chars-take_text (suc n) (String.◌∷◌ c s) h = ground (arith, all_id_chars-take_text n s)

text_length-take_text : (n : ℕ) (s : String) → text_length (take_text n s) ≤ n
unfolding take_text
text_length-take_text zero s = omega arith
text_length-take_text (suc n) String.[] = omega arith
text_length-take_text (suc n) (String.◌∷◌ c s) = omega (arith, text_length-take_text n s)

-- A shortened identifier with a suffix of at least two characters of the class.
shortened-IsNodeId :
    (n : ℕ) (id suffix : String)
    → IsNodeId id
    → all_id_chars suffix ≡ true
    → 2 ≤ text_length suffix
    → suc n + text_length suffix ≤ 64
    → IsNodeId (append_text (take_text (suc n) id) suffix)
unfolding is_node_id take_text
shortened-IsNodeId n String.[] suffix h chars long short = absurd (cc)
shortened-IsNodeId n (String.◌∷◌ c s) suffix h chars long short =
    ap is_node_id (cons-append c (take_text n s) suffix)
    ∙ ground (
      arith,
      text_length-append (take_text n s) suffix,
      text_length-take_text n s,
      all_id_chars-take_text n s,
      all_id_chars-append (take_text n s) suffix,
    )

pub derived_id-equals : (id : String) → IsNodeId id → IsNodeId (derived_id id "equals")
unfolding derived_id all_id_chars is_id_char
derived_id-equals id h = shortened-IsNodeId 55 id "-equals" h refl (omega arith) (omega arith)

pub derived_id-material_under :
    (id : String) → IsNodeId id → IsNodeId (derived_id id "material-under")
unfolding derived_id all_id_chars is_id_char
derived_id-material_under id h =
    shortened-IsNodeId 47 id "-material-under" h refl (omega arith) (omega arith)

pub derived_id-gold : (id : String) → IsNodeId id → IsNodeId (derived_id id "gold")
unfolding derived_id all_id_chars is_id_char
derived_id-gold id h = shortened-IsNodeId 57 id "-gold" h refl (omega arith) (omega arith)
