-- ===== src/OneWire/Pass/Finished.antt =====
-- A whole search from `onewire_search_start` on, over the bus that it expects.
use stm32_async_1wire.Prelude.{
  ℕ, suc, ◌+◌, ◌*◌, ◌≤◌, ◌<◌, inl, true, false, some, List, ◌∷◌, map, replicate, length, All, ◌==◌,
  ◌≡◌, refl, sym, ap, ◌∙◌, arith,
}
use stm32_async_1wire.Wire.{crc8, rom_bytes}
use stm32_async_1wire.OneWire.{Search, Bus, Sink, reset, search_start, reset_bus}
use stm32_async_1wire.OneWire.Pass.{Rom}
use stm32_async_1wire.OneWire.Pass.Bits.{IsRom}
use stm32_async_1wire.OneWire.Pass.Entries.{entries, walk-first}
use stm32_async_1wire.OneWire.Pass.Order.{entries-Chain, entries_end}
use stm32_async_1wire.OneWire.Pass.Searches.{roms_found}
use stm32_async_1wire.OneWire.Pass.Once.{passes_lem}
use stm32_async_1wire.OneWire.Pass.Count.{count, once}
use stm32_async_1wire.OneWire.Pass.Roms.{rom_path, roms-IsBus, found_roms_once, length-map_path}
use stm32_async_1wire.OneWire.Pass.Served.{Line, serve, serve_all}
use stm32_async_1wire.OneWire.Pass.Rounds.{report_all, rounds, IsBefore}
use stm32_async_1wire.OneWire.Pass.Told.{
  zeros-IsRom, entries_checked, serve_entries, serve_after, serve_done,
}

module _ {S : Type 0} where
  -- After `polls` polls, bounded by 67 for each device and a last one, the search is finished and the sink
  -- has been told of the ROMs `found`, which are those of the devices, each once.
  pub record IsFinished (sink : Sink S) (family : ℕ) (roms : List (List ℕ)) (l : Line S)
      : Type 0 where
    pub polls : ℕ
    pub within : polls ≤ 67 * length roms + 1
    pub found : List (List ℕ)
    pub each_once : (rom : List ℕ) → IsRom rom → count rom found ≡ once (count rom roms)
    pub told :
        (serve_all polls (map rom_path roms) l).bus.owner ≡ report_all sink family found l.bus.owner
    pub finishes : (serve_all polls (map rom_path roms) l).bus.search.finished ≡ true

  ready-IsFinished :
      (sink : Sink S) (family : ℕ) (first : List ℕ) (roms : List (List ℕ)) (l : Line S)
      → ((rom : List ℕ) (s : S) → (sink rom s).1 ≡ 0)
      → l.bus.search.family ≡ family
      → All IsRom (first ∷ roms)
      → All (λ (r : List ℕ). crc8 r rom_bytes ≡ 0) (first ∷ roms)
      → l.bus.search.last_discrepancy ≡ 0
      → IsBefore sink
          (map rom_path (first ∷ roms))
          (entries 64 (map rom_path (first ∷ roms)) 1 0).0
          (suc (length (entries 64 (map rom_path (first ∷ roms)) 1 0).1))
          l.bus.search
      → IsFinished sink family (first ∷ roms) l
  ready-IsFinished sink family first roms l quiet fam r h d before =
      let all = map rom_path (first ∷ roms) in
      let bus = roms-IsBus first roms in
      let es = entries 64 all 1 0 in
      let n = suc (length es.1) in
      let few : n ≤ length all = passes_lem all bus in
      let t =
        serve_entries sink all es.0 es.1 l quiet bus (entries_checked first roms r h)
          (entries-Chain 64 all 1 0 bus (omega arith)) (entries_end 64 all 1 0 bus) before in
      let last = serve_done all (rounds n all l) t.phase_done t.unfinished in
      let run : serve all (rounds n all l) ≡ serve_all (67 * n + 1) all l = serve_after n all l in
      record {
        polls = 67 * n + 1;
        within = omega (arith, few, length-map_path (first ∷ roms));
        found = roms_found n all l.bus.search;
        each_once = λ rom ok.
            found_roms_once (length es.1) first roms l.bus.search rom r ok before.rom_ok d
              (omega arith);
        told =
            sym (ap (λ (u : Line S). u.bus.owner) run)
            ∙ last.0
            ∙ t.told
            ∙ ap (λ (k : ℕ). report_all sink k (roms_found n all l.bus.search) l.bus.owner) fam;
        finishes = sym (ap (λ (u : Line S). u.bus.search.finished) run) ∙ last.1;
      }

  pub started :
      (b : Bus S) (sink : Sink S) (max_devices command family : ℕ)
      → b.search.finished ≡ true
      → 0 < max_devices
      → (search_start b (some sink) max_devices command family).search ≡ (record (b.search) {
        phase = reset;
        rom = replicate rom_bytes 0;
        sink = some sink;
        max_found = max_devices;
        found = 0;
        finished = false;
        prev_leaf_valid = false;
        last_discrepancy = 0;
        command = command;
        family = family;
      })
  unfolding search_start reset_bus
  started b sink max_devices command family f l =
      let some_room : (max_devices == 0) ≡ false = ground arith in rw (f, some_room) refl

  -- A search that is begun at rest, over the bus that it expects.
  pub search_start-IsFinished :
      (b : Bus S) (sink : Sink S) (max_devices command family : ℕ) (first : List ℕ)
      (roms : List (List ℕ)) (active : List Rom)
      → b.search.finished ≡ true
      → ((rom : List ℕ) (s : S) → (sink rom s).1 ≡ 0)
      → All IsRom (first ∷ roms)
      → All (λ (r : List ℕ). crc8 r rom_bytes ≡ 0) (first ∷ roms)
      → length (first ∷ roms) < max_devices
      → max_devices < 256
      → IsFinished sink family
          (first ∷ roms)
          (record { bus = search_start b (some sink) max_devices command family; active = active })
  search_start-IsFinished b sink max_devices command family first roms active f quiet r h room
        small =
      let all = map rom_path (first ∷ roms) in
      let bus = roms-IsBus first roms in
      let start = started b sink max_devices command family f (omega arith) in
      let es = entries 64 all 1 0 in
      let few : suc (length es.1) ≤ length all = passes_lem all bus in
      let size = length-map_path (first ∷ roms) in
      let before : IsBefore sink all es.0 (suc (length es.1))
          (search_start b (some sink) max_devices command family).search =
        rw start (record {
          phase_is = refl;
          unfinished = refl;
          rom_ok = zeros-IsRom;
          sink_is = refl;
          room = omega (arith, few, size, room);
          small = small;
          walk_is = walk-first 64 all 1 0 (rom_path (replicate rom_bytes 0)) 0 bus (omega arith);
          fresh = inl refl;
        }) in
      let l : Line S = record {
        bus = search_start b (some sink) max_devices command family;
        active = active;
      } in
      let family_is = ap (λ (u : Search S). u.family) start in
      let discrepancy_is = ap (λ (u : Search S). u.last_discrepancy) start in
      ready-IsFinished sink family first roms l quiet family_is r h discrepancy_is before
