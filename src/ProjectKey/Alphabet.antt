-- ===== src/ProjectKey/Alphabet.antt =====
-- packages/runtime/registry/identity.ts: the characters of BASE32_ALPHABET give their digits back.
use astroix.Base.{
  ℕ, zero, suc, String, Bool, true, ◌&&◌, List, [], ◌∷◌, ◌++◌, ◌/◌, ◌-◌, sym, subst, ◌%◌, ◌≡◌, ◌<◌,
  refl, arith, All, All-append, ◌==◌, ==_iff, leb, ltb, Bool-cases, inl, inr, str_eq, if◌then◌else◌,
}
use Prim.Native.Nat.{◌^◌}
use Prim.Native.Char.{Char}
use Prim.Native.String.{char_at}
use astroix.ProjectKey.{
  Encoder, emit, push_byte, push_all, pad, new_encoder, key_text, base32_alphabet,
}

-- The first place of a character, from a place on.
unfoldable pub place_from : ℕ → String → Char → ℕ
place_from n String.[] c = n
place_from n (String.◌∷◌ d text) c =
    let later = place_from (suc n) text c in
    if str_eq (String.◌∷◌ d "") (String.◌∷◌ c "") then n else later

unfoldable pub digits_of : String → List ℕ
digits_of String.[] = []
digits_of (String.◌∷◌ c text) = place_from 0 base32_alphabet c ∷ digits_of text

unfoldable all_placed : ℕ → Bool
all_placed zero = true
all_placed (suc n) = place_from 0 base32_alphabet (char_at base32_alphabet n) == n && all_placed n

placed : all_placed 32 ≡ true
unfolding all_placed place_from
placed = refl

placed_below :
    (n d : ℕ)
    → all_placed n ≡ true
    → d < n
    → place_from 0 base32_alphabet (char_at base32_alphabet d) ≡ d
unfolding all_placed
placed_below zero d e h = absurd (omega (arith, h))
placed_below (suc n) d e h = elim (Bool-cases (d == n)) [
  | inl here ↦
      let at : place_from 0 base32_alphabet (char_at base32_alphabet n) ≡ n =
        (==_iff _ n).0 (ground (arith, e)) in
      subst (λ k. place_from 0 base32_alphabet (char_at base32_alphabet k) ≡ k)
        (sym ((==_iff d n).0 here)) at
  | inr other ↦ placed_below n d (ground (arith, e)) (ground (arith, h, other))
]

pub digits_of-key_text :
    (digits : List ℕ) → All (λ d. d < 32) digits → digits_of (key_text digits) ≡ digits
unfolding digits_of key_text
digits_of-key_text [] h = refl
digits_of-key_text (d ∷ ds) h = cc (placed_below 32 d placed h.0, digits_of-key_text ds h.1)

emit-All :
    (turns : ℕ) (e : Encoder) → All (λ d. d < 32) e.out → All (λ d. d < 32) (emit turns e).out
unfolding emit
emit-All zero e h = h
emit-All (suc turns) e h = elim (Bool-cases (leb 5 e.bits)) [
  | inr few ↦ rw few h
  | inl more ↦ rw more (
      emit-All turns
        (record {
          out = e.out ++ ((e.buffer / 2 ^ (e.bits - 5)) % 32 ∷ []);
          buffer = e.buffer;
          bits = e.bits - 5;
        })
        (All-append _ e.out _ (h, (omega arith, tt))))
]

push_all-All :
    (bytes : List ℕ) (e : Encoder)
    → All (λ d. d < 32) e.out
    → All (λ d. d < 32) (push_all e bytes).out
unfolding push_all
push_all-All [] e h = h
push_all-All (byte ∷ bytes) e h = push_all-All bytes (push_byte e byte) (emit-All _ _ h)

pub pad-All : (e : Encoder) → All (λ d. d < 32) e.out → All (λ d. d < 32) (pad e)
pad-All e h = elim (Bool-cases (ltb 0 e.bits)) [
  | inl more ↦ rw more (All-append _ e.out _ (h, (omega arith, tt)))
  | inr done ↦ rw done h
]

pub padded-All : (bytes : List ℕ) → All (λ d. d < 32) (pad (push_all new_encoder bytes))
padded-All bytes = pad-All _ (push_all-All bytes new_encoder tt)
