-- ===== src/ProjectKey/Encoding.antt =====
-- packages/runtime/registry/identity.ts: what the digits of an encoded key say of the drawn bytes.
use astroix.Base.{
  ℕ, zero, suc, some, List, [], ◌∷◌, ◌++◌, ◌+◌, ◌/◌, ◌%◌, ◌≡◌, ◌∙◌, ◌<◌, refl, ap, subst, sym,
  arith, All, length, length-append, String, Bool, Bool-cases, inl, inr,
}
use Prim.Native.Nat.{◌*◌, ◌^◌}
use astroix.ProjectKey.{
  Encoder, emit, push_byte, push_all, pad, new_encoder, encode_project_key, key_text, checked,
}
use astroix.ProjectKey.Alphabet.{digits_of, digits_of-key_text, padded-All}

-- The number that digits write in base 32, and bytes in base 256, after those read before.
abbrev pub read_digits : ℕ → List ℕ → ℕ
read_digits v [] = v
read_digits v (d ∷ ds) = read_digits (v * 32 + d) ds

abbrev pub read_bytes : ℕ → List ℕ → ℕ
read_bytes v [] = v
read_bytes v (byte ∷ bytes) = read_bytes (v * 256 + byte) bytes

read_digits-append :
    (v : ℕ) (ds : List ℕ) (d : ℕ) → read_digits v (ds ++ (d ∷ [])) ≡ read_digits v ds * 32 + d
read_digits-append v [] d = refl
read_digits-append v (x ∷ ds) d = read_digits-append (v * 32 + x) ds d

-- The digits with the bits of the buffer that are still to be written.
abbrev number_of : Encoder → ℕ
number_of e = read_digits 0 e.out * 2 ^ e.bits + e.buffer % 2 ^ e.bits

record IsStep (e after : Encoder) (byte : ℕ) : Type 0 where
  number : number_of after ≡ number_of e * 256 + byte
  bits_below : after.bits < 5
  count : length after.out * 5 + after.bits ≡ length e.out * 5 + e.bits + 8

abbrev encoder : List ℕ → ℕ → ℕ → Encoder
encoder out b bits = record { out = out; buffer = b; bits = bits }

push_byte-IsStep :
    (out : List ℕ) (b byte bits : ℕ)
    → bits < 5
    → byte < 256
    → IsStep (encoder out b bits) (push_byte (encoder out b bits) byte) byte
unfolding emit
push_byte-IsStep out b byte (zero) below small = record {
  number = rw (read_digits-append 0 out ((((b * 256) % 2 ^ 32 + byte) / 2 ^ 3) % 32)) (omega arith);
  bits_below = omega arith;
  count = rw (length-append out (((((b * 256) % 2 ^ 32 + byte) / 2 ^ 3) % 32) ∷ [])) (omega arith);
}
push_byte-IsStep out b byte (suc zero) below small = record {
  number = rw (read_digits-append 0 out ((((b * 256) % 2 ^ 32 + byte) / 2 ^ 4) % 32)) (omega arith);
  bits_below = omega arith;
  count = rw (length-append out (((((b * 256) % 2 ^ 32 + byte) / 2 ^ 4) % 32) ∷ [])) (omega arith);
}
push_byte-IsStep out b byte (suc (suc zero)) below small = record {
  number =
      rw
        (read_digits-append 0 (out ++ (((((b * 256) % 2 ^ 32 + byte) / 2 ^ 5) % 32) ∷ []))
          ((((b * 256) % 2 ^ 32 + byte) / 2 ^ 0) % 32))
        (rw (read_digits-append 0 out ((((b * 256) % 2 ^ 32 + byte) / 2 ^ 5) % 32)) (omega arith));
  bits_below = omega arith;
  count =
      rw
        (length-append (out ++ (((((b * 256) % 2 ^ 32 + byte) / 2 ^ 5) % 32) ∷ []))
          (((((b * 256) % 2 ^ 32 + byte) / 2 ^ 0) % 32) ∷ []))
        (rw (length-append out (((((b * 256) % 2 ^ 32 + byte) / 2 ^ 5) % 32) ∷ [])) (omega arith));
}
push_byte-IsStep out b byte (suc (suc (suc zero))) below small = record {
  number =
      rw
        (read_digits-append 0 (out ++ (((((b * 256) % 2 ^ 32 + byte) / 2 ^ 6) % 32) ∷ []))
          ((((b * 256) % 2 ^ 32 + byte) / 2 ^ 1) % 32))
        (rw (read_digits-append 0 out ((((b * 256) % 2 ^ 32 + byte) / 2 ^ 6) % 32)) (omega arith));
  bits_below = omega arith;
  count =
      rw
        (length-append (out ++ (((((b * 256) % 2 ^ 32 + byte) / 2 ^ 6) % 32) ∷ []))
          (((((b * 256) % 2 ^ 32 + byte) / 2 ^ 1) % 32) ∷ []))
        (rw (length-append out (((((b * 256) % 2 ^ 32 + byte) / 2 ^ 6) % 32) ∷ [])) (omega arith));
}
push_byte-IsStep out b byte (suc (suc (suc (suc zero)))) below small = record {
  number =
      rw
        (read_digits-append 0 (out ++ (((((b * 256) % 2 ^ 32 + byte) / 2 ^ 7) % 32) ∷ []))
          ((((b * 256) % 2 ^ 32 + byte) / 2 ^ 2) % 32))
        (rw (read_digits-append 0 out ((((b * 256) % 2 ^ 32 + byte) / 2 ^ 7) % 32)) (omega arith));
  bits_below = omega arith;
  count =
      rw
        (length-append (out ++ (((((b * 256) % 2 ^ 32 + byte) / 2 ^ 7) % 32) ∷ []))
          (((((b * 256) % 2 ^ 32 + byte) / 2 ^ 2) % 32) ∷ []))
        (rw (length-append out (((((b * 256) % 2 ^ 32 + byte) / 2 ^ 7) % 32) ∷ [])) (omega arith));
}
push_byte-IsStep out b byte (suc (suc (suc (suc (suc bits))))) below small = omega arith

push_all-number :
    (e : Encoder) (bytes : List ℕ)
    → e.bits < 5
    → All (λ byte. byte < 256) bytes
    → ((push_all e bytes).bits < 5)
      × (number_of (push_all e bytes) ≡ read_bytes (number_of e) bytes)
      × (length (push_all e bytes).out * 5 + (push_all e bytes).bits
          ≡ length e.out * 5 + e.bits + length bytes * 8)
unfolding push_all
push_all-number e [] below small = (below, refl, omega arith)
push_all-number e (byte ∷ bytes) below small =
    let step = push_byte-IsStep e.out e.buffer byte e.bits below small.0 in
    let rest = push_all-number (push_byte e byte) bytes step.bits_below small.1 in
    let count = step.count in
    (rest.0, rest.1 ∙ ap (λ v. read_bytes v bytes) step.number, omega arith)

-- The padded digits read the number times four, and are one more.
abbrev PadsThree : List ℕ → ℕ → ℕ → Type 0
PadsThree out b bits =
    (read_digits 0 (pad (encoder out b bits)) ≡ number_of (encoder out b bits) * 4)
    × (length (pad (encoder out b bits)) ≡ suc (length out))

pad-at_three : (out : List ℕ) (b : ℕ) → PadsThree out b 3
pad-at_three out b = (
  rw (read_digits-append 0 out (((b * 2 ^ 2) % 2 ^ 32) % 32)) (omega arith),
  rw (length-append out ((((b * 2 ^ 2) % 2 ^ 32) % 32) ∷ [])) (omega arith),
)

pad-three : (e : Encoder) → e.bits ≡ 3 → PadsThree e.out e.buffer e.bits
pad-three e three =
    subst (λ bits. PadsThree e.out e.buffer bits) (sym three) (pad-at_three e.out e.buffer)

-- The digits of 16 bytes.
digits_of_bytes :
    (bytes : List ℕ)
    → length bytes ≡ 16
    → All (λ byte. byte < 256) bytes
    → (length (pad (push_all new_encoder bytes)) ≡ 26)
      × (read_digits 0 (pad (push_all new_encoder bytes)) ≡ read_bytes 0 bytes * 4)
digits_of_bytes bytes full small =
    let e : Encoder = push_all new_encoder bytes in
    let run = push_all-number new_encoder bytes (omega arith) small in
    let three : e.bits ≡ 3 = omega (arith, run.0, run.2, full) in
    let places : length e.out ≡ 25 = omega (arith, run.2, three, full) in
    let padded : PadsThree e.out e.buffer e.bits = pad-three e three in
    (padded.1 ∙ ap suc places, padded.0 ∙ ap (λ v. v * 4) run.1)

-- Of 16 bytes the encoding is the text of 26 digits, which the schema reads, and in base 32 the
-- digits write four times the number that the bytes write in base 256, although the buffer wraps
-- at 32 bits.
pub encode_project_key-reads :
    (is_project_key : String → Bool) (bytes : List ℕ)
    → length bytes ≡ 16
    → All (λ byte. byte < 256) bytes
    → (digits : List ℕ) × (encode_project_key is_project_key bytes
        ≡ checked is_project_key (key_text digits))
      × (length digits ≡ 26)
      × (read_digits 0 digits ≡ read_bytes 0 bytes * 4)
encode_project_key-reads is_project_key bytes full small =
    let said = digits_of_bytes bytes full small in
    (pad (push_all new_encoder bytes), rw full refl, said.0, said.1)

read_bytes-injective :
    (v w : ℕ) (xs ys : List ℕ)
    → length xs ≡ length ys
    → All (λ byte. byte < 256) xs
    → All (λ byte. byte < 256) ys
    → read_bytes v xs ≡ read_bytes w ys
    → (v ≡ w) × (xs ≡ ys)
read_bytes-injective v w [] [] same fx fy e = (e, refl)
read_bytes-injective v w [] (y ∷ ys) same fx fy e = ground arith
read_bytes-injective v w (x ∷ xs) [] same fx fy e = ground arith
read_bytes-injective v w (x ∷ xs) (y ∷ ys) same fx fy e =
    let later = read_bytes-injective (v * 256 + x) (w * 256 + y) xs ys (omega arith) fx.1 fy.1 e in
    let low_x = fx.0 in
    let low_y = fy.0 in
    let here = later.0 in let heads : x ≡ y = omega arith in (omega arith, cc (heads, later.1))

checked_text :
    (is_project_key : String → Bool) (text key : String)
    → checked is_project_key text ≡ some key
    → text ≡ key
checked_text is_project_key text key e = elim (Bool-cases (is_project_key text)) [
  | inl accepted ↦ ground (arith, (rw accepted at e))
  | inr refused ↦ cc (rw refused at e)
]

-- The digits of a key that an encoding gave.
encode_project_key-digits :
    (is_project_key : String → Bool) (bytes : List ℕ) (key : String)
    → length bytes ≡ 16
    → encode_project_key is_project_key bytes ≡ some key
    → digits_of key ≡ pad (push_all new_encoder bytes)
encode_project_key-digits is_project_key bytes key full e =
    let text = checked_text is_project_key _ key (rw full at e) in
    sym (ap digits_of text) ∙ digits_of-key_text _ (padded-All bytes)

-- Two draws of 16 bytes whose encodings are one key, as texts, are the same draw.
pub encode_project_key-injective :
    (is_project_key : String → Bool) (xs ys : List ℕ) (key : String)
    → length xs ≡ 16
    → length ys ≡ 16
    → All (λ byte. byte < 256) xs
    → All (λ byte. byte < 256) ys
    → encode_project_key is_project_key xs ≡ some key
    → encode_project_key is_project_key ys ≡ some key
    → xs ≡ ys
encode_project_key-injective is_project_key xs ys key full_x full_y fx fy from_x from_y =
    let same =
      sym (encode_project_key-digits is_project_key xs key full_x from_x)
      ∙ encode_project_key-digits is_project_key ys key full_y from_y in
    let numbers : read_bytes 0 xs * 4 ≡ read_bytes 0 ys * 4 =
      sym (digits_of_bytes xs full_x fx).1
      ∙ ap (read_digits 0) same
      ∙ (digits_of_bytes ys full_y fy).1 in
    (read_bytes-injective 0 0 xs ys (full_x ∙ sym full_y) fx fy (omega arith)).1
