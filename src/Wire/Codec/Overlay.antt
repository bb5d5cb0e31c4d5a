-- ===== src/Wire/Codec/Overlay.antt =====
-- The in-place decode of the scratchpad: the bytes overwrite the pulses they were decoded from.
use stm32_async_1wire.Prelude.{
  ℕ, zero, suc, ◌+◌, ◌*◌, ◌≤◌, ◌<◌, List, get_or, set, length, ◌≢◌, ◌⊎◌, inl, inr, ◌≡◌, refl, arith,
  length-set, get_or-set_self, get_or-set_ne, ℕ_discrete,
}
use stm32_async_1wire.Wire.{
  decode_bits, decode_overlaid, decode_overlaid_from, decode_pulses, decode_pulses_from,
  bits_per_byte,
}

-- Decoding reads the eight pulses of its byte and no other.
decode_bits_ext :
    (left bit value base : ℕ) (p q : List ℕ)
    → ((i : ℕ) → base ≤ i → get_or p i 0 ≡ get_or q i 0)
    → decode_bits left bit value p base ≡ decode_bits left bit value q base
unfolding decode_bits
decode_bits_ext zero bit value base p q h = refl
decode_bits_ext (suc left) bit value base p q h =
    rw (h (base + bit) (omega arith)) (decode_bits_ext left (bit + 1) _ base p q h)

-- Halfway, the decoded bytes agree and the pulses still to be read are those captured.
record Agree (byte : ℕ) (buf dst pulse : List ℕ) : Type 0 where
  behind : (i : ℕ) → i < byte → get_or buf i 0 ≡ get_or dst i 0
  ahead : (i : ℕ) → byte ≤ i → get_or buf i 0 ≡ get_or pulse i 0

get_or-set :
    (xs : List ℕ) (i j v : ℕ)
    → i < length xs
    → ((i ≡ j) × (get_or (set xs i v) j 0 ≡ v))
      ⊎ ((i ≢ j) × (get_or (set xs i v) j 0 ≡ get_or xs j 0))
get_or-set xs i j v h = elim (ℕ_discrete i j) [
  | yes e ↦ inl (e, rw (← e) (get_or-set_self xs i v 0 h))
  | no ne ↦ inr (ne, get_or-set_ne xs i j v 0 ne)
]

Agree-step :
    (byte v : ℕ) (buf dst pulse : List ℕ)
    → byte < length buf
    → byte < length dst
    → Agree byte buf dst pulse
    → Agree (byte + 1) (set buf byte v) (set dst byte v) pulse
Agree-step byte v buf dst pulse hb hd a = record {
  behind =
      λ i lt. ground (arith, get_or-set buf byte i v hb, get_or-set dst byte i v hd, a.behind i);
  ahead = λ i le. ground (arith, get_or-set buf byte i v hb, a.ahead i);
}

decode_from-Agree :
    (left byte : ℕ) (buf dst pulse : List ℕ)
    → byte + left ≤ length buf
    → byte + left ≤ length dst
    → Agree byte buf dst pulse
    → Agree
        (byte + left)
        (decode_overlaid_from left byte buf)
        (decode_pulses_from left byte dst pulse)
        pulse
unfolding decode_overlaid_from decode_pulses_from
decode_from-Agree zero byte buf dst pulse hb hd a = let e : byte + 0 ≡ byte = omega arith in rw e a
decode_from-Agree (suc left) byte buf dst pulse hb hd a =
    let e : byte + suc left ≡ byte + 1 + left = omega arith in
    rw
      (
        e,
        decode_bits_ext bits_per_byte 0 0 (byte * bits_per_byte) buf pulse
            (λ i le. a.ahead i (omega arith)),
      )
      (decode_from-Agree left (byte + 1) _ _ pulse (omega (arith, length-set buf byte _))
        (omega (arith, length-set dst byte _))
        (Agree-step byte _ buf dst pulse (omega arith) (omega arith) a))

-- Overlaying the bytes on the pulses decodes what a separate buffer would receive, and leaves the
-- storage behind the bytes as captured.
pub decode_overlaid_sound :
    (buf dst : List ℕ) (n : ℕ)
    → n ≤ length buf
    → n ≤ length dst
    → ((i : ℕ) → i < n → get_or (decode_overlaid buf n) i 0 ≡ get_or (decode_pulses dst buf n) i 0)
      × ((i : ℕ) → n ≤ i → get_or (decode_overlaid buf n) i 0 ≡ get_or buf i 0)
unfolding decode_overlaid decode_pulses
decode_overlaid_sound buf dst n hb hd =
    let e : 0 + n ≡ n = omega arith in
    let a : Agree (0 + n) (decode_overlaid_from n 0 buf) (decode_pulses_from n 0 dst buf) buf =
      decode_from-Agree n 0 buf dst buf (omega arith) (omega arith)
        (record { behind = λ i lt. absurd (omega arith); ahead = λ i le. refl }) in
    (λ i lt. a.behind i (omega arith), λ i le. a.ahead i (omega arith))
