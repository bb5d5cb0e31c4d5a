-- ===== src/Commands/Report.antt =====
-- The line that shows a temperature: `ds18b20_complete` of examples/5_commands/main.c.
use stm32_async_1wire.Prelude.{
  ℕ, zero, suc, ◌+◌, ◌-◌, ◌*◌, ◌/◌, ◌%◌, ◌^◌, ◌<◌, ◌⊎◌, Bool, true, false, not, ◌&&◌, List, [], ◌∷◌,
  ◌++◌, ◌==◌, if◌then◌else◌, ◌≡◌, refl, sym, ap, ◌∙◌, arith, Bool-cases, inl, inr,
}
use native.Mathlib.Nat.{pow-suc}
use stm32_async_1wire.Prelude.Int.{ℤ, pos, negsuc, sub_ℕ, ◌≤ℤ◌}
use stm32_async_1wire.Console.{
  Ring, put_digits, int_text, codes, enqueue_byte, next_index, write_str, write_int,
}
use stm32_async_1wire.Console.Decimal.{starts_with_digit, starts-put_digits}
use stm32_async_1wire.Commands.{
  whole_degrees, tenths, is_zero, is_negative, print_temperature, crlf,
}

-- The digits of a temperature, with its sign and the point.
unfoldable pub temperature_text : ℤ → List ℕ
temperature_text temp =
    let whole = whole_degrees temp in
    (if is_zero whole && is_negative temp then codes "-0" else int_text whole)
    ++ (codes "." ++ int_text (pos (tenths temp)))

-- The number that a decimal is read as in tenths: the digits behind a number already read, without the point.
abbrev pub tenths_read : ℕ → List ℕ → ℕ
tenths_read n [] = n
tenths_read n (c ∷ s) = if c == 46 then tenths_read n s else tenths_read (n * 10 + (c - 48)) s

abbrev pub decimal : List ℕ → ℤ
decimal [] = pos 0
decimal (c ∷ s) = if c == 45 then negsuc (tenths_read 0 s - 1) else pos (tenths_read 0 (c ∷ s))

digit_read :
    (n d : ℕ) (s : List ℕ) → d < 10 → tenths_read n ((48 + d) ∷ s) ≡ tenths_read (n * 10 + d) s
digit_read n d s h =
    let no_point : (48 + d == 46) ≡ false = ground arith in
    rw no_point (ap (λ (k : ℕ). tenths_read k s) (omega arith))

read-put_digits :
    (fuel u : ℕ) (p : List ℕ)
    → u < 10 ^ fuel
    → tenths_read 0 (put_digits fuel u p) ≡ tenths_read u p
unfolding put_digits
read-put_digits zero u p h = ap (λ (n : ℕ). tenths_read n p) (omega arith)
read-put_digits (suc fuel) u p h = elim (Bool-cases (u / 10 == 0)) [
  | inl e ↦
      rw e (digit_read 0 (u % 10) p (omega arith) ∙ ap (λ (n : ℕ). tenths_read n p) (ground arith))
  | inr e ↦ rw e (
      read-put_digits fuel (u / 10) ((48 + u % 10) ∷ p) (omega (arith, pow-suc 10 fuel))
      ∙ digit_read (u / 10) (u % 10) p (omega arith)
      ∙ ap (λ (n : ℕ). tenths_read n p) (omega arith))
]

put_digits-append :
    (fuel u : ℕ) (p q : List ℕ) → put_digits fuel u p ++ q ≡ put_digits fuel u (p ++ q)
unfolding put_digits
put_digits-append zero u p q = refl
put_digits-append (suc fuel) u p q = elim (Bool-cases (u / 10 == 0)) [
  | inl e ↦ rw e refl
  | inr e ↦ rw e (put_digits-append fuel (u / 10) ((48 + u % 10) ∷ p) q)
]

-- The decimal text of a natural number, as the digit loop gives it.
nat_text : (n : ℕ) → int_text (pos n) ≡ put_digits 10 n []
unfolding int_text put_digits
nat_text zero = refl
nat_text (suc n) = refl

one_digit : (d : ℕ) → d < 10 → int_text (pos d) ≡ (48 + d) ∷ []
unfolding put_digits
one_digit d h = nat_text d ∙ last (Bool-cases (d / 10 == 0))
  where
    last : (d / 10 == 0 ≡ true) ⊎ (d / 10 == 0 ≡ false) → put_digits 10 d [] ≡ (48 + d) ∷ []
    last (inl e) = rw e (ap (λ (c : ℕ). (48 + c) ∷ []) (omega arith))
    last (inr e) = absurd (ground arith)

-- A whole part and one digit, as the parts of the line are put together.
join :
    (w d : ℕ)
    → d < 10
    → put_digits 10 w [] ++ (codes "." ++ int_text (pos d)) ≡ put_digits 10 w (46 ∷ (48 + d) ∷ [])
join w d h =
    ap (λ (t : List ℕ). put_digits 10 w [] ++ 46 ∷ t) (one_digit d h)
    ∙ put_digits-append 10 w [] (46 ∷ (48 + d) ∷ [])

join_read :
    (w d : ℕ)
    → w < 10 ^ 10
    → d < 10
    → tenths_read 0 (put_digits 10 w (46 ∷ (48 + d) ∷ [])) ≡ w * 10 + d
join_read w d hw h = read-put_digits 10 w (46 ∷ (48 + d) ∷ []) hw ∙ digit_read w d [] h

decimal_positive : (s : List ℕ) → starts_with_digit s ≡ true → decimal s ≡ pos (tenths_read 0 s)
unfolding starts_with_digit
decimal_positive [] h = refl
decimal_positive (c ∷ s) h = let no_sign : (c == 45) ≡ false = ground arith in rw no_sign refl

-- The text of a temperature: its sign, the whole degrees, the point and the tenths.
text_of_pos : (n : ℕ) → temperature_text (pos n) ≡ put_digits 10 (n / 10) (46 ∷ (48 + n % 10) ∷ [])
unfolding temperature_text whole_degrees tenths
text_of_pos n =
    let joined : int_text (pos (n / 10)) ++ (codes "." ++ int_text (pos (n % 10)))
        ≡ put_digits 10 (n / 10) (46 ∷ (48 + n % 10) ∷ []) =
      rw (nat_text (n / 10)) (join (n / 10) (n % 10) (omega arith)) in
    elim (Bool-cases (n / 10 == 0)) [ inl e ↦ rw e joined | inr e ↦ rw e joined ]

neg_join :
    (k d : ℕ)
    → d < 10
    → (if is_zero (sub_ℕ 0 k) && true then codes "-0" else int_text (sub_ℕ 0 k))
        ++ (codes "." ++ int_text (pos d))
      ≡ 45 ∷ put_digits 10 k (46 ∷ (48 + d) ∷ [])
unfolding int_text
neg_join zero d h =
    ap (λ (t : List ℕ). 45 ∷ 48 ∷ 46 ∷ t) (one_digit d h)
    ∙ ap (λ (t : List ℕ). 45 ∷ t) (zero_digit _)
  where
    zero_digit : (p : List ℕ) → 48 ∷ p ≡ put_digits 10 0 p
    zero_digit p = unfold put_digits in refl
neg_join (suc k) d h =
    let sign : sub_ℕ 0 (suc k) ≡ negsuc k = ground arith in
    rw sign (ap (λ (t : List ℕ). 45 ∷ t) (rw (eq k) (join (suc k) d h)))
  where
    eq : (k : ℕ) → k + 1 ≡ suc k
    eq k = omega arith

text_of_neg :
    (n : ℕ)
    → temperature_text (negsuc n) ≡ 45 ∷ put_digits 10 (suc n / 10) (46 ∷ (48 + suc n % 10) ∷ [])
unfolding temperature_text whole_degrees tenths
text_of_neg n = neg_join (suc n / 10) (suc n % 10) (omega arith)

temperature_text_reads :
    (temp : ℤ) → negsuc 32767 ≤ℤ temp → temp ≤ℤ pos 32767 → decimal (temperature_text temp) ≡ temp
temperature_text_reads (pos n) lo hi = rw (text_of_pos n) (
    decimal_positive _ (starts-put_digits 9 (n / 10) (46 ∷ (48 + n % 10) ∷ []))
    ∙ ap pos (join_read (n / 10) (n % 10) (omega arith) (omega arith) ∙ omega arith))
temperature_text_reads (negsuc n) lo hi =
    rw (text_of_neg n)
      (ap negsuc (omega (arith, join_read (suc n / 10) (suc n % 10) (omega arith) (omega arith))))

-- A full ring refuses every byte.
full_refuses : (r : Ring) (b c : ℕ) → (enqueue_byte r b).1 ≡ false → enqueue_byte r c ≡ (r, false)
unfolding enqueue_byte
full_refuses r b c h = elim (Bool-cases (not (next_index r r.head == r.tail))) [
  | inl e ↦ absurd (cc (rw e at h))
  | inr e ↦ rw e refl
]

full_writes : (r : Ring) (b : ℕ) (s : List ℕ) → (enqueue_byte r b).1 ≡ false → (write_str r s).0 ≡ r
unfolding write_str
full_writes r b [] h = refl
full_writes r b (c ∷ s) h = rw (full_refuses r b c h) refl

-- Two texts one after the other are written like one.
write_str-append :
    (r : Ring) (s t : List ℕ) → (write_str r (s ++ t)).0 ≡ (write_str (write_str r s).0 t).0
unfolding write_str
write_str-append r [] t = refl
write_str-append r (c ∷ s) t = elim (Bool-cases (enqueue_byte r c).1) [
  | inl e ↦ rw e (write_str-append (enqueue_byte r c).0 s t)
  | inr e ↦
      let same : (enqueue_byte r c).0 ≡ r = ap (λ (p : Ring × Bool). p.0) (full_refuses r c c e) in
      rw (e, same) (sym (full_writes r c t e))
]

written_together :
    (r : Ring) (a b c d : List ℕ)
    → (write_str (write_str (write_str (write_str r a).0 b).0 c).0 d).0
      ≡ (write_str r ((a ++ (b ++ c)) ++ d)).0
written_together r a b c d = sym (
    write_str-append r (a ++ (b ++ c)) d
    ∙ ap (λ (q : Ring). (write_str q d).0)
        (write_str-append r a (b ++ c) ∙ write_str-append (write_str r a).0 b c))

written_if :
    (r : Ring) (b : Bool) (x y : List ℕ)
    → (if b then (write_str r x).0 else (write_str r y).0) ≡ (write_str r (if b then x else y)).0
written_if r true x y = refl
written_if r false x y = refl

-- A temperature that is no error code is printed as one text, as far as the ring has room: its sign, the whole
-- degrees, a point and the tenths, and the unit behind them. The decimal reads back as the temperature.
pub print_temperature-reads :
    (r : Ring) (temp : ℤ)
    → negsuc 32767 ≤ℤ temp
    → temp ≤ℤ pos 32767
    → (print_temperature r temp ≡ (write_str r (temperature_text temp ++ (codes " C" ++ crlf))).0)
      × (decimal (temperature_text temp) ≡ temp)
unfolding print_temperature temperature_text write_int
print_temperature-reads r temp lo hi =
    let whole = whole_degrees temp in
    let b = is_zero whole && is_negative temp in
    (
      ap
            (λ (q : Ring).
              (write_str (write_str (write_str q (codes ".")).0 (int_text (pos (tenths temp)))).0
                (codes " C" ++ crlf)).0)
            (written_if r b (codes "-0") (int_text whole))
          ∙ written_together r (if b then codes "-0" else int_text whole) (codes ".")
              (int_text (pos (tenths temp))) (codes " C" ++ crlf),
      temperature_text_reads temp lo hi,
    )
