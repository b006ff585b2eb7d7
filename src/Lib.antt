-- ===== src/Lib.antt =====
-- A model of fpga-pi-parallel-nids: a network intrusion detector whose packet path runs on an
-- FPGA, and whose Python programs on a Raspberry Pi drive it over SPI, check it against reference
-- models, and close the loop from telemetry to blocking rules. Every exchange is a frame of 32
-- bytes in each direction, and the answer to a frame comes back with the next one. The Verilog
-- under fpga/ is not modelled: it stands behind the transfer `xfer2` of the link, which is a
-- parameter, and what a theorem asks of the board is a record of named laws that
-- PROTOCOL.md describes (AnswersBytes, KeepsWords, KeepsSettings, IsReference, IsEcho,
-- IsPipeline, IsCounting, HasFlowTable, LooksUp), with the limits that the document sets: the
-- addresses of 12 bits, the identifiers and slots that exist, the window of one second. IsRecord
-- and IsLogged only keep what was exchanged.
--
-- The parts, by file, with the source as paths from the repository's root:
--
-- The reference models of the hardware.
--   Verdict            verdict.py: Verdict, threats, describe, encode_verdict, decode_verdict
--   Bloom              bloom.py, with build_words of hot_load_bloom.py
--   Thresholds         thresholds_model.py
--   Rules              rule_store_model.py and rule_lookup_model.py
--   Cms, Hll           cms.py and hll.py: the sketches with their lazy reset by epochs
--   ScanRate           scan_rate.py: the table of version 1.1
--   FlowTable          flow_table_model.py: the table with fingerprints
--   TelemetryModel     telemetry_model.py: the sketches, the top talker and the snapshots together
--   Classifier         classifier.py: from header bytes to verdict bytes
--
-- The frames.
--   Control            control.py: commands and responses
--   Telemetry          telemetry.py: responses of the telemetry
--   Frames             build_classify_frame, classify_frame, hdr, query_frame and extract_header
--   SpiLink            spi_link.py: send_frame
--
-- The demo.
--   Clock              time.monotonic and time.sleep as a parameter, with the float arithmetic
--   Orchestrator       demo/orchestrator.py: the state, the poll and the push; Orchestrator/Loop has
--                      run_loop
--   Traffic            demo/scenarios.py: the generators; Traffic/Timeline has Schedule
--   RunDemo            run_demo.py, with default_schedule
--   Dashboard          demo/dashboard.py: HeadlessDashboard; Dashboard/Screen has CursesDashboard
--   ClosedLoop         closed_loop.py
--
-- The checks of the board and of the link.
--   Golden             scenarios.py and gen_verdict_golden.py
--   SiliconCheck       silicon_check.py; SiliconCheck/Live has spi_verdict_check.py
--   Silicon            silicon_runtime_check.py; its children have read_telemetry.py,
--                      gen_telemetry_golden.py, silicon_telemetry_check.py, silicon_flow_check.py and
--                      silicon_loop_demo.py
--   HotLoad            hot_load_bloom.py
--   Ber                ber.py, with run_one of spi_ber_ramp.py; Ber/Ramp has its main
--   Wiring             spi_fpga_bringup.py and spi_loopback_test.py
--   Capture            packet_capture.py: format_row, make_handler and main
--
-- The displays and the measurement.
--   Viz                viz_core.py; Viz/Runner has viz.py
--   Benchmark          benchmark.py: the workload and the timed run; Benchmark/Latency has the summary
--                      and main
--
-- Prelude holds what they share: Boolean tests, lists, bytes, bits, exceptions as values of
-- Result. Tests has an instance of each theorem with conditions.
--
-- How they interact. The classifier calls Bloom and ScanRate and writes with Verdict. The
-- telemetry model calls the two sketches. The orchestrator pulls frames from a schedule, sends
-- them through SpiLink, decodes with Verdict and Telemetry, and builds rules with Control; the
-- rule it pushes stands where Rules looks it up. RunDemo gives the orchestrator the schedule of
-- Traffic. The replay of Viz/Runner and the benchmark classify the workload of Benchmark, which
-- avoids or hits the filter of Bloom. The golden rows come from the classifier, and SiliconCheck
-- judges a board by them.
--
-- State is passed explicitly: a method that changes its object gives the new one, and a script
-- that talks to the board carries the world `W` of everything outside. Numbers are natural
-- numbers, cut where the source cuts them with a mask or to_bytes; an exception is a value, and a
-- loop ends at the first one. Texts are modelled by their parts, so that a printed row is a
-- record.
--
-- Fuel. Loops over lists and ranges are structural. The `while` loops take fuel: the padding of
-- the golden stream has 16 turns, which is proved to be enough; `benign` has one turn for a frame,
-- which is proved to be enough with the address pools of the source; the rank of HyperLogLog has
-- as many turns as bits. The loop of the demo ends with the clock or the schedule: its theorems
-- give the fuel for a finite schedule, and for the schedules of the demo say what holds in any
-- number of turns. closed_loop.py never ends, and is its first `n` rounds. The search for an
-- address outside the filter has one turn for a draw, and its theorems ask that such an address
-- comes within the fuel; the polls of silicon_loop_demo.py have one turn each, and end when the
-- clock reaches the deadline, which a law of the clock bounds by the fuel.
--
-- Not modelled: floating-point results (cardinalities, error rates, percentages, times in printed
-- lines; the summary of the benchmark has them as a parameter), argparse, spidev, scapy, curses,
-- docs/sizing.py, the unit tests, and the Verilog. random.Random and random.sample are parameters
-- with the laws they document, scapy's sniff is the list of the packets that it hands over, and
-- the f-strings of the terminal dashboard are a parameter.
pub mod Prelude
pub mod Verdict
pub mod Bloom
pub mod Thresholds
pub mod Rules
pub mod Cms
pub mod Hll
pub mod ScanRate
pub mod FlowTable
pub mod Classifier
pub mod Frames
pub mod TelemetryModel
pub mod Telemetry
pub mod Traffic
pub mod Golden
pub mod SiliconCheck
pub mod Ber
pub mod Benchmark
pub mod HotLoad
pub mod ClosedLoop
pub mod Viz
pub mod Wiring
pub mod Dashboard
pub mod RunDemo
pub mod Silicon
pub mod Capture
pub mod Control
pub mod SpiLink
pub mod Clock
pub mod Orchestrator
pub mod Tests
