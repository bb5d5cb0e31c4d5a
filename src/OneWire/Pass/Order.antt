-- ===== src/OneWire/Pass/Order.antt =====
-- The order of the passes of a search: each leads to the next.
use stm32_async_1wire.Prelude.{
  ℕ, zero, suc, ◌+◌, ◌≤◌, ◌<◌, inl, inr, true, false, List, ◌∷◌, ltb, ◌==◌, ◌≡◌, ◌≢◌, refl, ap,
  arith, Bool-cases,
}
use stm32_async_1wire.OneWire.Pass.{
  Rom, is_empty, branch, answer, head_bit, tail_bits, choose, walk,
}
use stm32_async_1wire.OneWire.Pass.Entries.{
  Entry, extend, entries, Chain, last_entry, Chain-map, Chain-join, last-map, last-join, walk_step,
  IsBus, branch_some, branch-IsBus, walk-first,
}

-- The next pass: the entry left a discrepancy behind position `k`, and the pass that follows it from
-- there takes the other entry, on another path.
abbrev pub Next : ℕ → List Rom → ℕ → ℕ → Entry → Entry → Type 0
Next n ds k z u v = (k ≤ u.1) × ((walk n ds k u.1 u.0 z ≡ v) × (u.0 ≢ v.0))

-- The last entry leaves no discrepancy behind `k`.
pub entries_end :
    (n : ℕ) (ds : List Rom) (k z : ℕ)
    → IsBus n ds
    → (last_entry (entries n ds k z).0 (entries n ds k z).1).1 ≡ z
unfolding entries
entries_end zero ds k z h = refl
entries_end (suc n) ds k z h = elim (Bool-cases (is_empty (branch 0 ds))) [
  | inl e0 ↦
      let e1 = branch_some n ds h e0 in
      rw (e0, last-map (extend 1) _ _)
        (entries_end n (branch 1 ds) (k + 1) z (branch-IsBus n 1 ds h e1))
  | inr e0 ↦ elim (Bool-cases (is_empty (branch 1 ds))) [
    | inl e1 ↦
        rw (e0, e1, last-map (extend 0) _ _)
          (entries_end n (branch 0 ds) (k + 1) z (branch-IsBus n 0 ds h e0))
    | inr e1 ↦
        rw (e0, e1, last-join _ (extend 1 _) _ _, last-map (extend 1) _ _)
          (entries_end n (branch 1 ds) (k + 1) z (branch-IsBus n 1 ds h e1))
  ]
]

tail_differs : (b : ℕ) (p q : Rom) → p ≢ q → (b ∷ p) ≢ (b ∷ q)
tail_differs b p q h = λ e. h (ap tail_bits e)

Next-ones :
    (n : ℕ) (ds : List Rom) (k z : ℕ) (u v : Entry)
    → is_empty (branch 0 ds) ≡ true
    → is_empty (branch 1 ds) ≡ false
    → Next n (branch 1 ds) (k + 1) z u v
    → Next (suc n) ds k z (extend 1 u) (extend 1 v)
unfolding answer choose
Next-ones n ds k z u v e0 e1 r = (
  omega (arith, r.0),
  (rw (walk_step, e0, e1) (ap (extend 1) r.1.0), tail_differs 1 u.0 v.0 r.1.1),
)

Next-zeros :
    (n : ℕ) (ds : List Rom) (k z : ℕ) (u v : Entry)
    → is_empty (branch 0 ds) ≡ false
    → is_empty (branch 1 ds) ≡ true
    → Next n (branch 0 ds) (k + 1) z u v
    → Next (suc n) ds k z (extend 0 u) (extend 0 v)
unfolding answer choose
Next-zeros n ds k z u v e0 e1 r = (
  omega (arith, r.0),
  (rw (walk_step, e0, e1) (ap (extend 0) r.1.0), tail_differs 0 u.0 v.0 r.1.1),
)

Next-low :
    (n : ℕ) (ds : List Rom) (k z : ℕ) (u v : Entry)
    → is_empty (branch 0 ds) ≡ false
    → is_empty (branch 1 ds) ≡ false
    → Next n (branch 0 ds) (k + 1) k u v
    → Next (suc n) ds k z (extend 0 u) (extend 0 v)
unfolding answer choose
Next-low n ds k z u v e0 e1 r =
    let ahead : ltb k u.1 ≡ true = ground (arith, r.0) in
    (
      omega (arith, r.0),
      (rw (walk_step, e0, e1, ahead) (ap (extend 0) r.1.0), tail_differs 0 u.0 v.0 r.1.1),
    )

Next-high :
    (n : ℕ) (ds : List Rom) (k z : ℕ) (u v : Entry)
    → is_empty (branch 0 ds) ≡ false
    → is_empty (branch 1 ds) ≡ false
    → Next n (branch 1 ds) (k + 1) z u v
    → Next (suc n) ds k z (extend 1 u) (extend 1 v)
unfolding answer choose
Next-high n ds k z u v e0 e1 r =
    let ahead : ltb k u.1 ≡ true = ground (arith, r.0) in
    (
      omega (arith, r.0),
      (rw (walk_step, e0, e1, ahead) (ap (extend 1) r.1.0), tail_differs 1 u.0 v.0 r.1.1),
    )

-- Behind the last pass through the 0 branch comes the first one through the 1 branch.
Next-turn :
    (n : ℕ) (ds : List Rom) (k z : ℕ) (u : Entry)
    → IsBus (suc n) ds
    → is_empty (branch 0 ds) ≡ false
    → is_empty (branch 1 ds) ≡ false
    → u.1 ≡ k
    → head_bit u.0 ≡ 0
    → Next (suc n) ds k z u (extend 1 (entries n (branch 1 ds) (k + 1) z).0)
unfolding answer choose
Next-turn n ds k z u h e0 e1 at low =
    let behind : ltb k k ≡ false = ground arith in
    let here : (k == k) ≡ true = ground arith in
    (
      omega arith,
      (
        rw (at, walk_step, e0, e1, behind, here)
            (ap (extend 1) (
              walk-first n (branch 1 ds) (k + 1) k (tail_bits u.0) z (branch-IsBus n 1 ds h e1)
                (omega arith))),
        λ e. absurd (omega (arith, low, ap head_bit e)),
      ),
    )

-- Each pass leads to the next entry.
pub entries-Chain :
    (n : ℕ) (ds : List Rom) (k z : ℕ)
    → IsBus n ds
    → z < k
    → Chain (Next n ds k z) (entries n ds k z).0 (entries n ds k z).1
unfolding entries
entries-Chain zero ds k z h l = tt
entries-Chain (suc n) ds k z h l = elim (Bool-cases (is_empty (branch 0 ds))) [
  | inl e0 ↦
      let e1 = branch_some n ds h e0 in
      rw e0 (
        Chain-map (Next n (branch 1 ds) (k + 1) z) (Next (suc n) ds k z) (extend 1) _ _
          (λ u v. Next-ones n ds k z u v e0 e1)
          (entries-Chain n (branch 1 ds) (k + 1) z (branch-IsBus n 1 ds h e1) (omega arith)))
  | inr e0 ↦ elim (Bool-cases (is_empty (branch 1 ds))) [
    | inl e1 ↦
        rw (e0, e1)
          (Chain-map (Next n (branch 0 ds) (k + 1) z) (Next (suc n) ds k z) (extend 0) _ _
            (λ u v. Next-zeros n ds k z u v e0 e1)
            (entries-Chain n (branch 0 ds) (k + 1) z (branch-IsBus n 0 ds h e0) (omega arith)))
    | inr e1 ↦
        rw (e0, e1)
          (Chain-join (Next (suc n) ds k z) _ _ _ _
            (Chain-map (Next n (branch 0 ds) (k + 1) k) (Next (suc n) ds k z) (extend 0) _ _
              (λ u v. Next-low n ds k z u v e0 e1)
              (entries-Chain n (branch 0 ds) (k + 1) k (branch-IsBus n 0 ds h e0) (omega arith)))
            (Next-turn n ds k z _ h e0 e1
              (rw (last-map (extend 0) _ _)
                (entries_end n (branch 0 ds) (k + 1) k (branch-IsBus n 0 ds h e0)))
              (rw (last-map (extend 0) _ _) refl))
            (Chain-map (Next n (branch 1 ds) (k + 1) z) (Next (suc n) ds k z) (extend 1) _ _
              (λ u v. Next-high n ds k z u v e0 e1)
              (entries-Chain n (branch 1 ds) (k + 1) z (branch-IsBus n 1 ds h e1) (omega arith))))
  ]
]
