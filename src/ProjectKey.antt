-- ===== src/ProjectKey.antt =====
-- packages/runtime/registry/identity.ts: the encoding of a drawn key.
--
-- A digit is the place of its character in BASE32_ALPHABET. The buffer is the unsigned value of JavaScript's 32-bit
-- integer: `<<` keeps 32 bits and `& 0b11111` the last five. The schema that reads the result is an
-- argument. After the shift a byte only sets clear bits, so `|` adds it.
pub mod Alphabet
pub mod Encoding
pub mod Allocation
mod Tests
use astroix.Base.{
  String, any, str_eq, Bool, ℕ, zero, suc, Option, none, some, List, [], ◌∷◌, ◌++◌, ◌+◌, ◌/◌, ◌%◌,
  if◌then◌else◌, ltb, leb, not, length, ◌==◌, ◌-◌, ◌≡◌, ◌≤◌, ◌<◌, refl, arith, All,
}
use Prim.Native.Nat.{◌*◌, ◌^◌}
use Prim.Native.String.{char_at}

pub record Encoder : Type 0 where
  pub out : List ℕ
  pub buffer : ℕ
  pub bits : ℕ

-- `while (bits >= 5)`: a number of turns that is no less than `bits` is enough.
unfoldable pub emit : (turns : ℕ) → Encoder → Encoder
emit zero e = e
emit (suc turns) e =
    let rest = emit turns (record {
      out = e.out ++ ((e.buffer / 2 ^ (e.bits - 5)) % 32 ∷ []);
      buffer = e.buffer;
      bits = e.bits - 5;
    }) in
    if leb 5 e.bits then rest else e

abbrev pub push_byte : Encoder → ℕ → Encoder
push_byte e byte =
    emit (e.bits + 8)
      (record { out = e.out; buffer = (e.buffer * 256) % 2 ^ 32 + byte; bits = e.bits + 8 })

unfoldable pub push_all : Encoder → List ℕ → Encoder
push_all e [] = e
push_all e (byte ∷ bytes) = push_all (push_byte e byte) bytes

abbrev pub pad : Encoder → List ℕ
pad e =
    if ltb 0 e.bits then e.out ++ (((e.buffer * 2 ^ (5 - e.bits)) % 2 ^ 32) % 32 ∷ []) else e.out

abbrev pub new_encoder : Encoder
new_encoder = record { out = []; buffer = 0; bits = 0 }

-- The digits of the key; another number of bytes throws.
abbrev pub encode_digits : List ℕ → Option (List ℕ)
encode_digits bytes =
    if not (length bytes == 16) then none else some (pad (push_all new_encoder bytes))

abbrev pub base32_alphabet : String
base32_alphabet = "abcdefghijklmnopqrstuvwxyz234567"

-- The digits as the characters of the alphabet.
unfoldable pub key_text : List ℕ → String
key_text [] = ""
key_text (digit ∷ digits) = String.◌∷◌ (char_at base32_alphabet digit) (key_text digits)

-- `projectKeySchema.parse` gives the text back, or throws.
abbrev pub checked : (is_project_key : String → Bool) → String → Option String
checked is_project_key text = if is_project_key text then some text else none

abbrev pub parse_digits : (is_project_key : String → Bool) → Option (List ℕ) → Option String
parse_digits is_project_key none = none
parse_digits is_project_key (some digits) = checked is_project_key (key_text digits)

abbrev pub encode_project_key : (is_project_key : String → Bool) → List ℕ → Option String
encode_project_key is_project_key bytes = parse_digits is_project_key (encode_digits bytes)

abbrev pub unless_taken : List String → Option String → Option String → Option String
unless_taken taken none later = none
unless_taken taken (some candidate) later =
    if any (λ key. str_eq key candidate) taken then later else some candidate

-- The loop of `allocateProjectKey`, over the bytes that are drawn in turn.
unfoldable pub allocate_project_key :
    (is_project_key : String → Bool) → List String → (draws : List (List ℕ)) → Option String
allocate_project_key is_project_key taken [] = none
allocate_project_key is_project_key taken (bytes ∷ draws) =
    unless_taken taken (encode_project_key is_project_key bytes)
      (allocate_project_key is_project_key taken draws)
