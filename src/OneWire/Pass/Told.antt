-- ===== src/OneWire/Pass/Told.antt =====
-- The rounds of a search one after another: what its sink has been told, in how many polls.
use stm32_async_1wire.Prelude.{
  ℕ, zero, suc, ◌+◌, ◌*◌, ◌≤◌, ◌<◌, inl, inr, true, false, List, [], ◌∷◌, map, get_or, replicate,
  length, All, ◌==◌, ◌≡◌, refl, sym, ap, ap₂, ◌∙◌, arith, Bool-cases,
}
use stm32_async_1wire.Wire.{crc8, rom_bytes}
use stm32_async_1wire.OneWire.{Sink, done, search_poll, search_poll_phase}
use stm32_async_1wire.OneWire.Pass.{Rom}
use stm32_async_1wire.OneWire.Pass.Bits.{IsRom}
use stm32_async_1wire.OneWire.Pass.Entries.{Entry, Chain, last_entry, entries, IsBus}
use stm32_async_1wire.OneWire.Pass.Order.{Next}
use stm32_async_1wire.OneWire.Pass.Searches.{roms_found, begin_pass, end_pass}
use stm32_async_1wire.OneWire.Pass.Walk.{pass}
use stm32_async_1wire.OneWire.Pass.Once.{path_on_bus}
use stm32_async_1wire.OneWire.Pass.Count.{same_rom, count}
use stm32_async_1wire.OneWire.Pass.Roms.{
  rom_path, roms-IsBus, count-rom_path, same_rom_same, same_rom_self,
}
use stm32_async_1wire.OneWire.Pass.Served.{Line, serve, serve_all, completed}
use stm32_async_1wire.OneWire.Pass.Leaf.{report}
use stm32_async_1wire.OneWire.Pass.Rounds.{
  report_all, rounds, AllChecked, IsBefore, serve-IsRound, roms_found_same,
}

all_of :
    (Q : Entry → Type 0) (es : List Entry)
    → ((u : Entry) → 1 ≤ count u.0 (map (λ (v : Entry). v.0) es) → Q u)
    → All Q es
unfolding count
all_of Q [] h = tt
all_of Q (e ∷ es) h =
    (h e (rw (same_rom_self e.0) (omega arith)), all_of Q es (λ u l. h u (ground (arith, l))))

is_listed :
    (rom : List ℕ) (roms : List (List ℕ))
    → All (λ (r : List ℕ). crc8 r rom_bytes ≡ 0) roms
    → 1 ≤ count rom roms
    → crc8 rom rom_bytes ≡ 0
unfolding count
is_listed rom [] h l = absurd (omega arith)
is_listed rom (r ∷ roms) h l = elim (Bool-cases (same_rom rom r)) [
  | inl e ↦ rw (same_rom_same rom r e) h.0
  | inr e ↦ is_listed rom roms h.1 (rw e at l)
]

get_or-zeros : (n i : ℕ) → get_or (replicate n 0) i 0 < 256
get_or-zeros zero i = omega arith
get_or-zeros (suc n) zero = omega arith
get_or-zeros (suc n) (suc i) = get_or-zeros n i

pub zeros-IsRom : IsRom (replicate rom_bytes 0)
zeros-IsRom = record { size = refl; bytes = get_or-zeros 8 }

-- Every path of the passes is that of a device with a right checksum.
pub entries_checked :
    (first : List ℕ) (roms : List (List ℕ))
    → All IsRom (first ∷ roms)
    → All (λ (r : List ℕ). crc8 r rom_bytes ≡ 0) (first ∷ roms)
    → AllChecked (
        (entries 64 (map rom_path (first ∷ roms)) 1 0).0
        ∷ (entries 64 (map rom_path (first ∷ roms)) 1 0).1)
entries_checked first roms r h =
    let all = map rom_path (first ∷ roms) in
    let bus = roms-IsBus first roms in
    all_of (λ (u : Entry). (rom : List ℕ) → IsRom rom → rom_path rom ≡ u.0 → crc8 rom rom_bytes ≡ 0)
      ((entries 64 all 1 0).0 ∷ (entries 64 all 1 0).1)
      (λ u l rom ok path.
        let on_bus = path_on_bus all (rom_path rom) bus (rw path l) in
        is_listed rom (first ∷ roms) h (rw (count-rom_path rom (first ∷ roms) ok r) at on_bus))

module _ {S : Type 0} where
  -- The sink has been told of these ROMs, and the search is in phase DONE.
  pub record IsToldOf (sink : Sink S) (family : ℕ) (found : List (List ℕ)) (s : S) (l' : Line S)
      : Type 0 where
    pub told : l'.bus.owner ≡ report_all sink family found s
    pub phase_done : l'.bus.search.phase ≡ done
    pub unfinished : l'.bus.search.finished ≡ false

  pub serve_entries :
      (sink : Sink S) (all : List Rom) (e : Entry) (es : List Entry) (l : Line S)
      → ((rom : List ℕ) (s : S) → (sink rom s).1 ≡ 0)
      → IsBus 64 all
      → AllChecked (e ∷ es)
      → Chain (Next 64 all 1 0) e es
      → (last_entry e es).1 ≡ 0
      → IsBefore sink all e (suc (length es)) l.bus.search
      → IsToldOf sink l.bus.search.family
          (roms_found (suc (length es)) all l.bus.search)
          l.bus.owner
          (rounds (suc (length es)) all l)
  unfolding rounds report_all roms_found end_pass
  serve_entries sink all e [] l quiet h checked chain end b =
      let r = serve-IsRound sink all e 0 l quiet h checked b in
      record {
        told = rw (r.last_is ∙ end) (r.owner_is);
        phase_done = (r.ends end).0;
        unfinished = (r.ends end).1;
      }
  serve_entries sink all e (f ∷ fs) l quiet h checked chain end b =
      let c = l.bus.search in
      let p = pass 64 all (begin_pass c) in
      let r = serve-IsRound sink all e (suc (length fs)) l quiet h (checked.0, tt) b in
      let l' = serve all (serve_all 66 all l) in
      let a = r.goes f (suc (length fs)) chain.0 b.room in
      let more : (p.last_zero == 0) ≡ false = ground (arith, r.last_is, chain.0.0) in
      let rest = serve_entries sink all f fs l' quiet h checked.1 chain.1 end a.next in
      let same =
        roms_found_same (suc (length fs)) all l'.bus.search (end_pass p) a.rom_kept
          a.discrepancy_is in
      let cut : report_all sink c.family (roms_found (suc (length fs)) all (end_pass p))
            (report sink c.family p.rom l.bus.owner)
          ≡ report_all sink c.family (roms_found (suc (suc (length fs))) all c) l.bus.owner =
        rw more refl in
      record {
        told =
            rest.told
            ∙ ap₂ (λ (family : ℕ) (roms : List (List ℕ)). report_all sink family roms l'.bus.owner)
                a.family_kept same
            ∙ ap (report_all sink c.family (roms_found (suc (length fs)) all (end_pass p)))
                r.owner_is
            ∙ cut;
        phase_done = rest.phase_done;
        unfinished = rest.unfinished;
      }

  serve_all-add :
      (m n : ℕ) (all : List Rom) (l : Line S)
      → serve_all (m + n) all l ≡ serve_all n all (serve_all m all l)
  unfolding serve_all
  serve_all-add zero n all l =
      let same : 0 + n ≡ n = omega arith in ap (λ (k : ℕ). serve_all k all l) same
  serve_all-add (suc m) n all l =
      let moved : suc m + n ≡ suc (m + n) = omega arith in
      ap (λ (k : ℕ). serve_all k all l) moved ∙ serve_all-add m n all (serve all l)

  -- A round takes 67 polls.
  rounds-serve_all :
      (n : ℕ) (all : List Rom) (l : Line S) → rounds n all l ≡ serve_all (67 * n) all l
  unfolding rounds serve_all
  rounds-serve_all zero all l = refl
  rounds-serve_all (suc n) all l =
      let split : 66 + (1 + 67 * n) ≡ 67 * suc n = omega arith in
      rounds-serve_all n all (serve all (serve_all 66 all l))
      ∙ sym (serve_all-add 1 (67 * n) all (serve_all 66 all l))
      ∙ sym (serve_all-add 66 (1 + 67 * n) all l)
      ∙ ap (λ (k : ℕ). serve_all k all l) split

  pub serve_after :
      (n : ℕ) (all : List Rom) (l : Line S)
      → serve all (rounds n all l) ≡ serve_all (67 * n + 1) all l
  unfolding serve_all
  serve_after n all l =
      ap (serve all) (rounds-serve_all n all l) ∙ sym (serve_all-add (67 * n) 1 all l)

  -- The poll of phase DONE.
  pub serve_done :
      (all : List Rom) (l : Line S)
      → l.bus.search.phase ≡ done
      → l.bus.search.finished ≡ false
      → ((serve all l).bus.owner ≡ l.bus.owner) × ((serve all l).bus.search.finished ≡ true)
  unfolding serve completed search_poll search_poll_phase
  serve_done all l p f = rw (f, p) (refl, refl)
