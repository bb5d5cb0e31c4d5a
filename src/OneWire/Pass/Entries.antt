-- ===== src/OneWire/Pass/Entries.antt =====
-- The passes that enumerate a bus, each with the last zero that it leaves for the next one.
use stm32_async_1wire.Prelude.{
  ℕ, zero, suc, ◌+◌, ◌<◌, inl, inr, true, false, List, [], ◌∷◌, ◌++◌, map, ltb, ◌==◌, if◌then◌else◌,
  ◌≡◌, refl, ap, arith, Bool-cases, length, All,
}
use stm32_async_1wire.OneWire.Pass.{
  Rom, is_empty, branch, answer, head_bit, tail_bits, choose, walk,
}

abbrev pub Entry : Type 0
Entry = Rom × ℕ

abbrev pub extend : ℕ → Entry → Entry
extend bit (path, last) = (bit ∷ path, last)

-- A sequence that is not empty.
abbrev pub Entries : Type 0
Entries = Entry × List Entry

abbrev pub extend_all : ℕ → Entries → Entries
extend_all bit (e, es) = (extend bit e, map (extend bit) es)

abbrev pub join : Entries → Entries → Entries
join (e, es) (f, fs) = (e, es ++ f ∷ fs)

-- The passes over `n` bits from position `k`, in order: the 0 branch first. The last zero at a
-- discrepancy is `k` in the 0 branch.
unfoldable pub entries : ℕ → List Rom → ℕ → ℕ → Entries
entries zero ds k zero_at = (([], zero_at), [])
entries (suc n) ds k zero_at =
    let zeros =
      extend_all 0
        (entries n (branch 0 ds) (k + 1) (if is_empty (branch 1 ds) then zero_at else k)) in
    let ones = extend_all 1 (entries n (branch 1 ds) (k + 1) zero_at) in
    if is_empty (branch 0 ds)
    then ones
    else if is_empty (branch 1 ds)
    then zeros
    else join zeros ones

-- Each two neighbours are related.
abbrev pub Chain : (Entry → Entry → Type 0) → Entry → List Entry → Type 0
Chain R e [] = Unit
Chain R e (f ∷ fs) = R e f × Chain R f fs

abbrev pub last_entry : Entry → List Entry → Entry
last_entry e [] = e
last_entry e (f ∷ fs) = last_entry f fs

pub Chain-map :
    (R R' : Entry → Entry → Type 0) (h : Entry → Entry) (e : Entry) (es : List Entry)
    → ((u v : Entry) → R u v → R' (h u) (h v))
    → Chain R e es
    → Chain R' (h e) (map h es)
Chain-map R R' h e [] keeps c = tt
Chain-map R R' h e (f ∷ fs) keeps c = (keeps e f c.0, Chain-map R R' h f fs keeps c.1)

pub Chain-join :
    (R : Entry → Entry → Type 0) (e f : Entry) (es fs : List Entry)
    → Chain R e es
    → R (last_entry e es) f
    → Chain R f fs
    → Chain R e (es ++ f ∷ fs)
Chain-join R e f [] fs c r d = (r, d)
Chain-join R e f (g ∷ es) fs c r d = (c.0, Chain-join R g f es fs c.1 r d)

pub last-map :
    (h : Entry → Entry) (e : Entry) (es : List Entry)
    → last_entry (h e) (map h es) ≡ h (last_entry e es)
last-map h e [] = refl
last-map h e (f ∷ fs) = last-map h f fs

pub last-join : (e f : Entry) (es fs : List Entry) → last_entry e (es ++ f ∷ fs) ≡ last_entry f fs
last-join e f [] fs = refl
last-join e f (g ∷ es) fs = last-join g f es fs

-- One step of a walk, with the walk of the rest shut.
pub walk_step :
    (n : ℕ) (ds : List Rom) (k d : ℕ) (previous : Rom) (z : ℕ)
    → walk (suc n) ds k d previous z
      ≡ extend (choose k d (head_bit previous) z (answer ds)).0 (
          walk n
            (branch (choose k d (head_bit previous) z (answer ds)).0 ds)
            (k + 1)
            d
            (tail_bits previous)
            (choose k d (head_bit previous) z (answer ds)).1)
unfolding walk
walk_step n ds k d previous z = refl

-- Devices are on the bus, each with a ROM of `n` bits.
abbrev pub IsBus : ℕ → List Rom → Type 0
IsBus n ds = (is_empty ds ≡ false) × All (λ (d : Rom). (length d ≡ n) × All (λ (b : ℕ). b < 2) d) ds

branch_sized :
    (n bit : ℕ) (ds : List Rom)
    → All (λ (d : Rom). (length d ≡ suc n) × All (λ (b : ℕ). b < 2) d) ds
    → All (λ (d : Rom). (length d ≡ n) × All (λ (b : ℕ). b < 2) d) (branch bit ds)
unfolding branch
branch_sized n bit [] h = tt
branch_sized n bit ([] ∷ ds) h = branch_sized n bit ds h.1
branch_sized n bit ((b ∷ rest) ∷ ds) h = ground (arith, branch_sized n bit ds h.1)

-- Someone on the bus has a 0 or a 1 next.
pub branch_some :
    (n : ℕ) (ds : List Rom)
    → IsBus (suc n) ds
    → is_empty (branch 0 ds) ≡ true
    → is_empty (branch 1 ds) ≡ false
unfolding branch
branch_some n [] h e = h.0
branch_some n ([] ∷ ds) h e = absurd (omega (arith, h.1.0.0))
branch_some n ((zero ∷ rest) ∷ ds) h e = absurd (cc e)
branch_some n ((suc zero ∷ rest) ∷ ds) h e = refl
branch_some n ((suc (suc b) ∷ rest) ∷ ds) h e = absurd (omega (arith, h.1.0.1.0))

pub branch-IsBus :
    (n bit : ℕ) (ds : List Rom)
    → IsBus (suc n) ds
    → is_empty (branch bit ds) ≡ false
    → IsBus n (branch bit ds)
branch-IsBus n bit ds h e = (e, branch_sized n bit ds h.1)

-- A pass with no discrepancy ahead takes the first path.
pub walk-first :
    (n : ℕ) (ds : List Rom) (k d : ℕ) (previous : Rom) (z : ℕ)
    → IsBus n ds
    → d < k
    → walk n ds k d previous z ≡ (entries n ds k z).0
unfolding entries answer choose
walk-first zero ds k d previous z h l = unfold walk in refl
walk-first (suc n) ds k d previous z h l =
    let past : ltb k d ≡ false = ground arith in
    let beyond : (k == d) ≡ false = ground arith in
    elim (Bool-cases (is_empty (branch 0 ds))) [
      | inl e0 ↦
          let e1 = branch_some n ds h e0 in
          rw (walk_step, e0, e1)
            (ap (extend 1) (
              walk-first n (branch 1 ds) (k + 1) d (tail_bits previous) z (branch-IsBus n 1 ds h e1)
                (omega arith)))
      | inr e0 ↦ elim (Bool-cases (is_empty (branch 1 ds))) [
        | inl e1 ↦
            rw (walk_step, e0, e1)
              (ap (extend 0) (
                walk-first n (branch 0 ds) (k + 1) d (tail_bits previous) z
                  (branch-IsBus n 0 ds h e0) (omega arith)))
        | inr e1 ↦
            rw (walk_step, e0, e1, past, beyond)
              (ap (extend 0) (
                walk-first n (branch 0 ds) (k + 1) d (tail_bits previous) k
                  (branch-IsBus n 0 ds h e0) (omega arith)))
      ]
    ]
