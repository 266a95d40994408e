-- ===== src/ProjectKey/Tests.antt =====
-- Runs of the encoding of a drawn key.
use astroix.Base.{
  ℕ, none, some, List, [], ◌∷◌, ◌≡◌, ◌<◌, refl, arith, All, length, String, Bool, ◌==◌,
}
use Prim.Native.Nat.{◌*◌}
use Prim.Native.String.{len}
use astroix.ProjectKey.{encode_digits, encode_project_key, checked, key_text, emit, push_all}
use astroix.ProjectKey.Encoding.{
  read_digits, read_bytes, encode_project_key-reads, encode_project_key-injective,
}

abbrev draw : List ℕ
draw = 255 ∷ 1 ∷ 2 ∷ 3 ∷ 4 ∷ 5 ∷ 6 ∷ 7 ∷ 8 ∷ 9 ∷ 10 ∷ 11 ∷ 12 ∷ 13 ∷ 14 ∷ 254 ∷ []

draw_small : All (λ byte. byte < 256) draw
draw_small = omega arith

-- Whether a text has 26 characters, by the bytes of its ASCII text.
abbrev has_26_characters : String → Bool
has_26_characters text = len text == 26

abbrev drawn_key : String
drawn_key = "74aqeayeaudaocajbifqydio7y"

encode_project_key-reads_example :
    (digits : List ℕ) × (encode_project_key has_26_characters draw
      ≡ checked has_26_characters (key_text digits))
    × (length digits ≡ 26)
    × (read_digits 0 digits ≡ read_bytes 0 draw * 4)
encode_project_key-reads_example = encode_project_key-reads has_26_characters draw refl draw_small

encoded_key : encode_project_key has_26_characters draw ≡ some drawn_key
unfolding emit push_all key_text
encoded_key = refl

encode_project_key-injective_example : draw ≡ draw
encode_project_key-injective_example =
    encode_project_key-injective has_26_characters draw draw drawn_key refl refl draw_small
      draw_small encoded_key encoded_key

short_draw : encode_digits (1 ∷ 2 ∷ []) ≡ none
short_draw = refl

encoded_draw :
    encode_digits draw
    ≡ some (
        31 ∷ 28 ∷ 0 ∷ 16 ∷ 4 ∷ 0 ∷ 24 ∷ 4 ∷ 0 ∷ 20 ∷ 3 ∷ 0 ∷ 14 ∷ 2 ∷ 0 ∷ 9 ∷ 1 ∷ 8 ∷ 5 ∷ 16 ∷ 24
        ∷ 3 ∷ 8 ∷ 14 ∷ 31 ∷ 24 ∷ [])
unfolding emit push_all
encoded_draw = refl

two_characters : key_text (0 ∷ 31 ∷ []) ≡ "a7"
unfolding key_text
two_characters = refl
