-- ===== src/Lib.antt =====
-- A library of proofs about stm32-async-1wire, a non-blocking 1-Wire master for STM32 timers with drivers
-- for the DS18B20 thermometer and the DS2431 EEPROM.
--
-- The program has four layers. Wire is the pulse code: a bit is the length of a low pulse in
-- microseconds, a table of pulses is what the timer's DMA feeds, and a captured pulse decodes to a bit
-- (src/onewire.c, src/ow_glue.h). Port is the timer (src/ow_port.h): each operation arms one burst of
-- slots or one wait and returns, and its completion is the update flag that the next poll consumes.
-- OneWire adds the bus primitives and the ROM search (src/onewire.c), a state machine that a poll advances
-- by one hardware operation. Ds18b20 (src/ds18b20.c, src/ds18b20_measure.c, src/ds18b20_txn.c,
-- src/ds18b20_resolution.c, src/ds18b20_search.c) and Ds2431 (src/ds2431.c, src/ds2431_txn.c) run
-- measurements, transactions and memory operations over it; they share the timer by testing each other's
-- flags. Stats is the optional bus statistics (src/ow_stats.c). Of the programs over these drivers, Console
-- is the USART output that the examples share (examples/app/app.c), Recorder the temperature recorder
-- (examples/9_multi/main.c), which keeps its records in the DS2431, and Commands and Eeprom are the command
-- demonstration (examples/5_commands/main.c) and the EEPROM demonstration (examples/8_ds2431/main.c), over the
-- models of their drivers and of the console.
--
-- State is passed explicitly. A record stands for each static context, with the source's fields; flag
-- bits are Boolean fields; a pointer into a user's buffer is the content of that buffer. The timer's
-- registers are a record Port, and what the hardware does between two calls is a step that replaces
-- registers and capture buffers by any values. Unions are byte lists with views. Numbers are natural
-- numbers with the wrap-around of their width written out. Prelude has the shared operators, lists, bits
-- and integers.
--
--   Wire          onewire_encode_byte, onewire_decode_pulses, onewire_crc8, onewire_crc16, ow_encode_*
--   Port          ow_port_*, with Wait on planned waits, Slots on what an armed port sends, Clock on the choice
--                 of prescaler and filter and Sleep on which operations are long
--   OneWire       onewire_*, with OneWire.Invariant, OneWire.Reports, OneWire.Frame and OneWire.Sends
--   OneWire.Pass  the search over a bus, a list of devices: Walk compares the bits chosen with a walk
--                 through the ROM bits; Entries, Order, Searches, Count, Once and Roms list the passes of a
--                 search; Served, Turn, Leaf, Rounds, Told and Finished run the polls against the bus that the
--                 search expects in each phase; Wired is the bus as the timer meets it, Armed, Simulated,
--                 Followed and Same show the polls to be the same over both, and Complete puts them together
--   Ds18b20       Context (core), Resolution, Txn, Search, Measure: one file for each source file;
--                 Calls lists the entry points, Invariant, Safety, Command, Request,
--                 Progress and Temperature hold the proofs; Round runs a round of the scan
--                 mode, with what the timer completes and what the port sends
--   Ds2431        Context, Txn, Memory; Command, Integrity and Progress hold the proofs
--   Stats         Context, Dump; Rows holds the proofs on the table
--   Console       uart_*; Queue, Decimal and Print hold the proofs
--   Recorder      the data and the interface of the drivers; Records has the records and write jobs, Step
--                 the states of the main loop; Image, Range, Queue, Writes, Commit, Memory, Valid,
--                 Operations, Invariant and Fails hold the proofs
--   Commands      the command demonstration; Kept, Turns, Steps and Invariant say who uses the bus, Accepted
--                 and Report hold the other proofs
--   Eeprom        the EEPROM demonstration; Kept, Turns, Steps, Order, Branches and Invariant say who uses the
--                 bus, Accepted, Once, Told and Row hold the other proofs
--
-- The build modelled is the default one: OW_LOW_POWER, OW_DRIVE_ACTIVE and OW_STATS_ENABLE are 0 in the
-- drivers, so the wake-up paths, the actively driven reset and the hooks of the statistics are left out;
-- the statistics module and the query for a long operation are modelled by themselves. The weak callbacks of the DS18B20 driver do nothing, and
-- their calls are logged. A user's search sink is a function of the ROM and the owner's state. Loops are
-- recursions on a count or a list. Two run on fuel: the wait of `uart_flush`, for which as many rounds as
-- bytes wait are enough, and the digits of `uart_write_int`, ten for an `unsigned int`.
--
-- The bus of OneWire.Pass answers as documented for 1-Wire: devices answer together and a 0 wins, the bit that
-- the master sends silences those that disagree, and a reset wakes all. In OneWire.Pass.Wired it hears only the
-- slots of a port that has been started, and answers nothing before a reset and the search command. The recorder sees the
-- drivers through the interface Recorder.Drivers; the texts that it prints are left out.
--
-- Not modelled: register addresses (src/ow_mcu.h), the DS2413 placeholder, the other examples and the
-- board's clock set-up, and the tools.
pub mod Prelude
pub mod Wire
pub mod Port
pub mod OneWire
pub mod Ds18b20
pub mod Ds2431
pub mod Stats
pub mod Console
pub mod Recorder
pub mod Commands
pub mod Eeprom
