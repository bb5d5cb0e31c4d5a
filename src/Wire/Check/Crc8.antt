-- ===== src/Wire/Check/Crc8.antt =====
-- `onewire_crc8`: which corruptions it detects, and the two ways in which the drivers test it.
use stm32_async_1wire.Prelude.{
  ℕ, zero, suc, ◌+◌, ◌*◌, ◌/◌, ◌^◌, ◌<◌, bit_and, bit_xor, Bool, List, [], ◌∷◌, ◌++◌, length, All,
  leb, ◌==◌, ==_iff, if◌then◌else◌, Bool-cases, ◌≡◌, ◌≢◌, ◌≢◌, ◌↔◌, inl, inr, refl, sym, ap, ◌∙◌,
  arith, all_below, all_below_sound, take_all,
}
use stm32_async_1wire.Prelude.Bits.{
  zero-bit_xor, bit_xor_assoc, bit_xor_comm, bit_xor_self, bit_xor_cancel, bit_xor-lt, bit_xor-half,
}
use native.Mathlib.Nat.{pow-suc}
use stm32_async_1wire.Wire.{crc8, crc8_bits, crc8_from, bits_per_byte}
use stm32_async_1wire.Wire.Codec.{IsByte}

bit_xor-zero : (a : ℕ) → bit_xor a 0 ≡ a
bit_xor-zero a = bit_xor_comm a 0 ∙ zero-bit_xor a

-- Mixing in a byte bit by bit is mixing it in at once.
crc8_bits-mixed : (k c b : ℕ) → b < 2 ^ k → crc8_bits k c b ≡ crc8_bits k (bit_xor c b) 0
unfolding crc8_bits
crc8_bits-mixed zero c b h = let e : b ≡ 0 = omega arith in rw (e, bit_xor-zero c)
crc8_bits-mixed (suc k) c b h = elim (Bool-cases (bit_and (bit_xor c b) 1 == 0)) [
  | inl e ↦
      rw (bit_xor-zero (bit_xor c b), e)
        (crc8_bits-mixed k (c / 2) (b / 2) (omega (arith, pow-suc 2 k))
          ∙ ap (λ (x : ℕ). crc8_bits k x 0) (sym (bit_xor-half c b)))
  | inr e ↦
      rw (bit_xor-zero (bit_xor c b), e)
        (crc8_bits-mixed k (bit_xor (c / 2) 0x8c) (b / 2) (omega (arith, pow-suc 2 k))
          ∙ ap (λ (x : ℕ). crc8_bits k x 0) regroup)
]
  where
    regroup : bit_xor (bit_xor (c / 2) 0x8c) (b / 2) ≡ bit_xor (bit_xor c b / 2) 0x8c
    regroup =
        bit_xor_assoc (c / 2) 0x8c (b / 2)
        ∙ ap (bit_xor (c / 2)) (bit_xor_comm 0x8c (b / 2))
        ∙ sym (bit_xor_assoc (c / 2) (b / 2) 0x8c)
        ∙ ap (λ (x : ℕ). bit_xor x 0x8c) (sym (bit_xor-half c b))

-- Eight steps of the shift register, and the register run backwards.
shift : ℕ → ℕ
shift x = crc8_bits 8 x 0

unshift_from : ℕ → ℕ → ℕ
unshift_from zero x = x
unshift_from (suc k) x = unshift_from k (if leb 128 x then bit_xor x 0x8c * 2 + 1 else x * 2)

shift_test : ℕ → Bool
shift_test x = unshift_from 8 (shift x) == x

range_test : ℕ → Bool
range_test x = leb (shift x) 255

unshift-shift : (x : ℕ) → x < 256 → unshift_from 8 (shift x) ≡ x
unfolding shift_test all_below shift unshift_from crc8_bits
unshift-shift x h = (==_iff _ _).0 (all_below_sound 256 shift_test x refl h)

shift-lt : (x : ℕ) → x < 256 → shift x < 256
unfolding range_test all_below shift crc8_bits
shift-lt x h = ground (arith, all_below_sound 256 range_test x refl h)

shift_injective : (x y : ℕ) → x < 256 → y < 256 → shift x ≡ shift y → x ≡ y
shift_injective x y hx hy e = sym (unshift-shift x hx) ∙ ap (unshift_from 8) e ∙ unshift-shift y hy

crc8_step : (c b : ℕ) → b < 256 → crc8_bits bits_per_byte c b ≡ shift (bit_xor c b)
unfolding shift
crc8_step c b h = crc8_bits-mixed 8 c b h

crc8_step-lt : (c b : ℕ) → c < 256 → b < 256 → crc8_bits bits_per_byte c b < 256
crc8_step-lt c b hc hb = rw (crc8_step c b hb) (shift-lt _ (bit_xor-lt 8 c b hc hb))

crc8_step_cancel_byte :
    (c b b' : ℕ)
    → c < 256
    → b < 256
    → b' < 256
    → crc8_bits bits_per_byte c b ≡ crc8_bits bits_per_byte c b'
    → b ≡ b'
crc8_step_cancel_byte c b b' hc hb hb' e = bit_xor_cancel c b b' (
    shift_injective _ _ (bit_xor-lt 8 c b hc hb) (bit_xor-lt 8 c b' hc hb')
      (sym (crc8_step c b hb) ∙ e ∙ crc8_step c b' hb'))

crc8_step_cancel_crc :
    (c c' b : ℕ)
    → c < 256
    → c' < 256
    → b < 256
    → crc8_bits bits_per_byte c b ≡ crc8_bits bits_per_byte c' b
    → c ≡ c'
crc8_step_cancel_crc c c' b hc hc' hb e = bit_xor_cancel b c c' (
    bit_xor_comm b c
    ∙ shift_injective _ _ (bit_xor-lt 8 c b hc hb) (bit_xor-lt 8 c' b hc' hb)
        (sym (crc8_step c b hb) ∙ e ∙ crc8_step c' b hb)
    ∙ bit_xor_comm c' b)

crc8_from-append : (c : ℕ) (xs ys : List ℕ) → crc8_from c (xs ++ ys) ≡ crc8_from (crc8_from c xs) ys
unfolding crc8_from
crc8_from-append c [] ys = refl
crc8_from-append c (x ∷ xs) ys = crc8_from-append (crc8_bits bits_per_byte c x) xs ys

crc8_from-lt : (c : ℕ) (xs : List ℕ) → c < 256 → All IsByte xs → crc8_from c xs < 256
unfolding crc8_from
crc8_from-lt c [] hc h = hc
crc8_from-lt c (x ∷ xs) hc h =
    crc8_from-lt (crc8_bits bits_per_byte c x) xs (crc8_step-lt c x hc h.0) h.1

crc8_from_cancel :
    (c c' : ℕ) (ys : List ℕ)
    → c < 256
    → c' < 256
    → All IsByte ys
    → crc8_from c ys ≡ crc8_from c' ys
    → c ≡ c'
unfolding crc8_from
crc8_from_cancel c c' [] hc hc' h e = e
crc8_from_cancel c c' (y ∷ ys) hc hc' h e = crc8_step_cancel_crc c c' y hc hc' h.0 (
    crc8_from_cancel (crc8_bits bits_per_byte c y) (crc8_bits bits_per_byte c' y) ys
      (crc8_step-lt c y hc h.0) (crc8_step-lt c' y hc' h.0) h.1 e)

crc8_whole : (xs : List ℕ) → crc8 xs (length xs) ≡ crc8_from 0 xs
unfolding crc8
crc8_whole xs = ap (crc8_from 0) (take_all xs)

crc8_same_byte :
    (xs ys : List ℕ) (b b' : ℕ)
    → All IsByte xs
    → All IsByte ys
    → IsByte b
    → IsByte b'
    → crc8 (xs ++ b ∷ ys) (length (xs ++ b ∷ ys)) ≡ crc8 (xs ++ b' ∷ ys) (length (xs ++ b' ∷ ys))
    → b ≡ b'
crc8_same_byte xs ys b b' hxs hys hb hb' e =
    let c : ℕ = crc8_from 0 xs in
    let hc : c < 256 = crc8_from-lt 0 xs (omega arith) hxs in
    crc8_step_cancel_byte c b b' hc hb hb' (
      crc8_from_cancel _ _ ys (crc8_step-lt c b hc hb) (crc8_step-lt c b' hc hb') hys
        (sym (split b) ∙ e ∙ split b'))
  where
    split :
        (x : ℕ)
        → crc8 (xs ++ x ∷ ys) (length (xs ++ x ∷ ys))
          ≡ crc8_from (crc8_bits bits_per_byte (crc8_from 0 xs) x) ys
    split x = crc8_whole (xs ++ x ∷ ys) ∙ crc8_from-append 0 xs (x ∷ ys) ∙ unfold crc8_from in refl

-- Buffers of bytes that differ in exactly one byte have different check sums: any corruption within one
-- byte is detected.
pub crc8_detects_byte :
    (xs ys : List ℕ) (b b' : ℕ)
    → All IsByte xs
    → All IsByte ys
    → IsByte b
    → IsByte b'
    → b ≢ b'
    → crc8 (xs ++ b ∷ ys) (length (xs ++ b ∷ ys)) ≢ crc8 (xs ++ b' ∷ ys) (length (xs ++ b' ∷ ys))
crc8_detects_byte xs ys b b' hxs hys hb hb' ne e = ne (crc8_same_byte xs ys b b' hxs hys hb hb' e)

-- Testing the sum over a buffer with its check byte for 0, as the search does, is comparing the check
-- byte with the sum over the rest, as the scratchpad test does.
pub crc8_residue :
    (xs : List ℕ) (c : ℕ)
    → All IsByte xs
    → IsByte c
    → (crc8 (xs ++ c ∷ []) (length (xs ++ c ∷ [])) ≡ 0) ↔ (c ≡ crc8 xs (length xs))
unfolding crc8_from
crc8_residue xs c hxs hc = (to, from)
  where
    sum : ℕ
    sum = crc8_from 0 xs

    sum-lt : sum < 256
    sum-lt = crc8_from-lt 0 xs (omega arith) hxs

    whole : crc8 (xs ++ c ∷ []) (length (xs ++ c ∷ [])) ≡ crc8_bits bits_per_byte sum c
    whole = crc8_whole (xs ++ c ∷ []) ∙ crc8_from-append 0 xs (c ∷ [])

    same : crc8_bits bits_per_byte sum sum ≡ 0
    same = crc8_step sum sum sum-lt ∙ ap shift (bit_xor_self sum) ∙ unfold shift crc8_bits in refl

    to : crc8 (xs ++ c ∷ []) (length (xs ++ c ∷ [])) ≡ 0 → c ≡ crc8 xs (length xs)
    to h =
        crc8_step_cancel_byte sum c sum sum-lt hc sum-lt (sym whole ∙ h ∙ sym same)
        ∙ sym (crc8_whole xs)

    from : c ≡ crc8 xs (length xs) → crc8 (xs ++ c ∷ []) (length (xs ++ c ∷ [])) ≡ 0
    from h = whole ∙ ap (crc8_bits bits_per_byte sum) (h ∙ crc8_whole xs) ∙ same
