-- ===== src/OneWire/Pass/Leaf.antt =====
-- A leaf of the search: the ROM is checked and reported, and the search ends or begins another pass.
use stm32_async_1wire.Prelude.{
  ℕ, ◌+◌, ◌≤◌, ◌<◌, inl, inr, Bool, true, false, ◌&&◌, ◌||◌, some, List, get_or, leb, ◌==◌,
  if◌then◌else◌, ◌≡◌, refl, arith, Bool-cases,
}
use stm32_async_1wire.Wire.{crc8, u8, rom_bytes}
use stm32_async_1wire.Port
use stm32_async_1wire.OneWire.{
  Search, Bus, Sink, reset, done, write_dir, same_bytes, call_sink, search_leaf, search_accept,
  search_next_pass, reset_bus, search_poll, search_poll_phase, search_switch, op_done, set_phase,
}
use stm32_async_1wire.OneWire.Pass.{Rom}
use stm32_async_1wire.OneWire.Pass.Served.{Line, serve, completed}

-- The family filter, and what a leaf does to the owner.
unfoldable pub wanted : ℕ → List ℕ → Bool
wanted family rom = family == 0 || get_or rom 0 0 == family

module _ {S : Type 0} where
  unfoldable pub report : Sink S → ℕ → List ℕ → S → S
  report sink family rom s = if wanted family rom then (sink rom s).0 else s

  -- The search as a leaf is met: its sink never asks to stop, the ROM's checksum is right, and there is
  -- room for one device more.
  pub record IsOpen (sink : Sink S) (c : Search S) : Type 0 where
    pub sink_is : c.sink ≡ some sink
    pub quiet : (rom : List ℕ) (s : S) → (sink rom s).1 ≡ 0
    pub checked : crc8 c.rom rom_bytes ≡ 0
    pub room : c.found + 1 < c.max_found
    pub small : c.max_found < 256

  -- What the leaf leaves.
  pub record IsReported (sink : Sink S) (c : Search S) (b b' : Bus S) : Type 0 where
    pub owner_is : b'.owner ≡ report sink c.family c.rom b.owner
    pub ends : c.last_zero ≡ 0 → (b'.search.phase ≡ done) × (b'.search.finished ≡ c.finished)
    pub goes :
        1 ≤ c.last_zero
        → (c.prev_leaf_valid && same_bytes rom_bytes c.prev_leaf c.rom) ≡ false
        → b'.search ≡ (record c {
          phase = reset;
          id_bit_number = u8 (c.id_bit_number + 1);
          last_discrepancy = c.last_zero;
          found = if wanted c.family c.rom then c.found + 1 else c.found;
          prev_leaf_valid = true;
          prev_leaf = c.rom;
        })

  next_pass_ends :
      (b : Bus S) → b.search.last_discrepancy ≡ 0 → search_next_pass b ≡ set_phase b done
  unfolding search_next_pass
  next_pass_ends b e = rw e refl

  next_pass_goes :
      (b : Bus S)
      → 1 ≤ b.search.last_discrepancy
      → (b.search.prev_leaf_valid && same_bytes rom_bytes b.search.prev_leaf b.search.rom) ≡ false
      → (search_next_pass b).search
        ≡ (record (b.search) { phase = reset; prev_leaf_valid = true; prev_leaf = b.search.rom })
  unfolding search_next_pass reset_bus
  next_pass_goes b l e =
      let more : (b.search.last_discrepancy == 0) ≡ false = ground arith in rw (more, e) refl

  next_pass_owner : (b : Bus S) → (search_next_pass b).owner ≡ b.owner
  unfolding search_next_pass reset_bus
  next_pass_owner b = ground arith

  accept_lem :
      (sink : Sink S) (b : Bus S)
      → IsOpen sink b.search
      → search_accept b
        ≡ search_next_pass (record b {
          search = record (b.search) { found = b.search.found + 1 };
          owner = (sink b.search.rom b.owner).0;
        })
  unfolding search_accept call_sink
  accept_lem sink b o =
      let next : u8 (b.search.found + 1) ≡ b.search.found + 1 = omega (arith, o.room, o.small) in
      let more : leb b.search.max_found (b.search.found + 1) ≡ false = ground (arith, o.room) in
      rw (o.sink_is, next, o.quiet b.search.rom b.owner, more) refl

  -- The bus at the leaf, behind the report.
  abbrev reported : Sink S → Bus S → Bus S
  reported sink b =
      let c = b.search in
      record b {
        search = record c {
          id_bit_number = u8 (c.id_bit_number + 1);
          last_discrepancy = c.last_zero;
          found = if wanted c.family c.rom then c.found + 1 else c.found;
        };
        owner = report sink c.family c.rom b.owner;
      }

  leaf_lem :
      (sink : Sink S) (b : Bus S)
      → IsOpen sink b.search
      → search_leaf b ≡ search_next_pass (reported sink b)
  unfolding search_leaf report wanted
  leaf_lem sink b o =
      let c = b.search in
      let b' = record b {
        search = record c {
          id_bit_number = u8 (c.id_bit_number + 1);
          last_discrepancy = c.last_zero;
        };
      } in
      let here : IsOpen sink b'.search = record {
        sink_is = o.sink_is;
        quiet = o.quiet;
        checked = o.checked;
        room = o.room;
        small = o.small;
      } in
      elim (Bool-cases (c.family == 0 || get_or c.rom 0 0 == c.family)) [
        | inl e ↦ rw (o.checked, e) (accept_lem sink b' here)
        | inr e ↦ rw (o.checked, e) refl
      ]

  leaf-IsReported :
      (sink : Sink S) (b : Bus S)
      → IsOpen sink b.search
      → IsReported sink b.search b (search_leaf b)
  leaf-IsReported sink b o =
      let at = leaf_lem sink b o in
      record {
        owner_is = rw at (next_pass_owner (reported sink b));
        ends = λ e. rw (at, next_pass_ends (reported sink b) e) (refl, refl);
        goes = λ l e. rw at (next_pass_goes (reported sink b) l e);
      }

  -- The poll of phase WRITE_DIR, once the timer has completed.
  pub serve-IsReported :
      (sink : Sink S) (all : List Rom) (l : Line S)
      → l.bus.search.phase ≡ write_dir
      → l.bus.search.finished ≡ false
      → IsOpen sink l.bus.search
      → IsReported sink l.bus.search l.bus (serve all l).bus
  unfolding serve completed search_poll search_poll_phase op_done Port.bus_done search_switch
  serve-IsReported sink all l p f o =
      let b = completed l.bus l.active in
      let polled : (search_poll b).0
          ≡ search_leaf (record b { port = record (b.port) { uif = false } }) =
        rw (f, p) refl in
      let r = leaf-IsReported sink (record b { port = record (b.port) { uif = false } }) o in
      record { owner_is = rw polled r.owner_is; ends = rw polled r.ends; goes = rw polled r.goes }
