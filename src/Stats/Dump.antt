-- ===== src/Stats/Dump.antt =====
-- The dump of the statistics, a line for each poll: `ow_stats_dump_start` and `ow_stats_dump_poll` of
-- src/ow_stats.c, over the output callbacks of examples/app/app.c, which write to the console's ring.
use stm32_async_1wire.Prelude.{
  ℕ, zero, suc, ◌+◌, ◌-◌, ◌≤◌, ◌^◌, Bool, true, List, [], ◌∷◌, ◌++◌, get_or, ltb, ◌==◌,
  if◌then◌else◌, ◌≡◌, ◌↔◌, refl, ◌∙◌, arith,
}
use stm32_async_1wire.Prelude.Int.{pos, negsuc}
use stm32_async_1wire.Wire.{u32}
use stm32_async_1wire.Console.{Ring, codes, enqueue_byte, write_str, write_int, write_hex}
use stm32_async_1wire.Stats.Context.{Stats, Sensor, init, no_row, hist_buckets}

-- The statistics, the state of the dump and the console.
pub record Dump : Type 0 where
  pub phase : ℕ
  pub sensor : ℕ
  pub st : Stats
  pub ring : Ring

-- `ow_stats_init`, the state of the dump included.
unfoldable pub stats_init : Dump → Dump
stats_init d = record d { st = init; phase = 0 }

-- `ow_stats_dump_start`.
unfoldable pub dump_start : Dump → Dump
dump_start d = record d { phase = 1; sensor = 0 }

-- `ow_stats_puts`, `ow_stats_print_int` of a `uint32_t`, `ow_stats_print_hex` and `ow_stats_tx_enqueue`.
abbrev puts : List ℕ → Ring → Ring
puts s r = (write_str r s).0

abbrev print_int : ℕ → Ring → Ring
print_int v r = (write_int r (if ltb v (2 ^ 31) then pos v else negsuc (2 ^ 32 - 1 - v))).0

abbrev print_hex : ℕ → Ring → Ring
print_hex v r = (write_hex r v).0

abbrev tx_enqueue : ℕ → Ring → Ring
tx_enqueue c r = (enqueue_byte r c).0

-- The loop over the bytes of a ROM from byte `j`, with `left` to go.
unfoldable pub dump_rom : ℕ → ℕ → List ℕ → Ring → Ring
dump_rom zero j rom r = r
dump_rom (suc left) j rom r =
    let r' = print_hex (get_or rom j 0) r in
    dump_rom left (j + 1) rom (if j == 7 then r' else tx_enqueue 32 r')

-- The line of a sensor.
unfoldable pub dump_sensor : Sensor → Ring → Ring
dump_sensor s r =
    let r1 = tx_enqueue 58 (dump_rom 8 0 s.rom r) in
    let r2 = tx_enqueue 45 (print_int s.min_pulse r1) in
    let r3 = tx_enqueue 110 (tx_enqueue 32 (print_int s.max_pulse r2)) in
    let r4 = tx_enqueue 101 (tx_enqueue 32 (print_int s.count r3)) in
    let errors = u32 (s.crc_err + s.no_presence + s.generic_err) in
    puts (13 ∷ 10 ∷ []) (print_int errors r4)

-- The loop over the histogram from bucket `i`, with `left` to go.
unfoldable pub dump_histogram : ℕ → ℕ → List ℕ → Ring → Ring
dump_histogram zero i histogram r = r
dump_histogram (suc left) i histogram r =
    let n = get_or histogram i 0 in
    dump_histogram left (i + 1) histogram
      (if n == 0 then r else tx_enqueue 32 (print_int n (tx_enqueue 61 (print_int i r))))

-- `ow_stats_dump_poll`, in an active phase.
unfoldable pub dump_line : Dump → Dump
dump_line d =
    if d.phase == 1
    then record d {
      phase = 2;
      sensor = 0;
      ring =
          puts (codes " c] ---" ++ 13 ∷ 10 ∷ [])
            (print_int d.st.total_cycles (puts (codes "--- stats [") d.ring));
    }
    else if d.phase == 2
    then if ltb d.sensor d.st.sensor_count
      then record d {
        sensor = u32 (d.sensor + 1);
        ring = dump_sensor (get_or d.st.sensors d.sensor no_row) d.ring;
      }
      else record d { phase = 3 }
    else if d.phase == 3
    then record d {
      phase = 4;
      ring =
          puts (13 ∷ 10 ∷ [])
            (dump_histogram hist_buckets 0 d.st.histogram (puts (codes "h:") d.ring));
    }
    else if d.phase == 4
    then record d {
      phase = 0;
      ring = puts (101 ∷ 13 ∷ 10 ∷ []) (
          print_int d.st.total_errors
            (puts (codes "c ") (print_int d.st.total_cycles (puts (codes "t=") d.ring))));
    }
    else d

-- `ow_stats_dump_poll`, with its answer.
unfoldable pub dump_poll : Dump → Dump × Bool
dump_poll d = if d.phase == 0 then (d, true) else (let d' = dump_line d in (d', d'.phase == 0))

-- A number of polls.
unfoldable pub dump_polls : ℕ → Dump → Dump
dump_polls zero d = d
dump_polls (suc n) d = dump_polls n (dump_poll d).0

-- Polls until the end, in a phase.
abbrev left_polls : Dump → ℕ
left_polls d =
    if d.phase == 0
    then 0
    else if d.phase == 1
    then d.st.sensor_count + 4
    else if d.phase == 2
    then d.st.sensor_count - d.sensor + 3
    else if d.phase == 3
    then 2
    else 1

-- The phases are 0 to 4, and the rows already dumped lie in the table.
record IsDump (d : Dump) : Type 0 where
  phase_le : d.phase ≤ 4
  sensor_le : d.sensor ≤ d.st.sensor_count
  count_le : d.st.sensor_count ≤ 8

-- One poll of a dump.
record IsPolled (d d' : Dump) : Type 0 where
  valid : IsDump d'
  fewer : left_polls d' ≡ left_polls d - 1
  same_stats : d'.st ≡ d.st

dump_poll-IsPolled : (d : Dump) → IsDump d → IsPolled d (dump_poll d).0
unfolding dump_poll dump_line
dump_poll-IsPolled d v = record {
  valid = record {
    phase_le = ground (arith, v.phase_le);
    sensor_le = ground (arith, v.sensor_le, v.count_le);
    count_le = ground (arith, v.count_le);
  };
  fewer = ground (arith, v.phase_le, v.sensor_le, v.count_le);
  same_stats = ground arith;
}

dump_polls-left :
    (n : ℕ) (d : Dump)
    → IsDump d
    → (left_polls (dump_polls n d) ≡ left_polls d - n)
      × (((dump_polls n d).st ≡ d.st) × ((dump_polls n d).phase ≤ 4))
unfolding dump_polls
dump_polls-left zero d v = (omega arith, (refl, v.phase_le))
dump_polls-left (suc n) d v =
    let p = dump_poll-IsPolled d v in
    let rest = dump_polls-left n (dump_poll d).0 p.valid in
    (omega (arith, rest.0, p.fewer), (rest.1.0 ∙ p.same_stats, rest.1.1))

ended_iff : (d : Dump) → d.phase ≤ 4 → (d.phase ≡ 0) ↔ (left_polls d ≡ 0)
ended_iff d l = (λ e. ground arith, λ e. ground arith)

-- A dump of a table of at most eight rows ends with the poll that follows one for the head, one for each
-- row, one for the end of the rows and one for the histogram, not earlier; it changes no statistics.
pub dump_polls_end :
    (n : ℕ) (d : Dump)
    → d.st.sensor_count ≤ 8
    → (((dump_polls n (dump_start d)).phase ≡ 0) ↔ (d.st.sensor_count + 4 ≤ n))
      × ((dump_polls n (dump_start d)).st ≡ d.st)
unfolding dump_start
dump_polls_end n d l =
    let e = record d { phase = 1; sensor = 0 } in
    let run =
      dump_polls-left n e
        (record { phase_le = omega arith; sensor_le = omega arith; count_le = l }) in
    let ended = ended_iff (dump_polls n e) run.1.1 in
    (
      (λ h. let z = ended.0 h in omega (arith, run.0, z), λ h. ended.1 (omega (arith, run.0))),
      run.1.0,
    )
