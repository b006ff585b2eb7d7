-- ===== src/Silicon/Queries.antt =====
-- read_telemetry.py, gen_telemetry_golden.py and silicon_telemetry_check.py: queries of the live
-- telemetry, and the check of the Count-Min sketch against its model.
pub mod Counting
use fpga_pi_parallel_nids.Prelude.{
  ℕ, zero, suc, ◌+◌, not, ◌&&◌, List, [], ◌∷◌, ◌++◌, map, Option, Result, ok, ◌>>=◌, ◌==◌,
  if◌then◌else◌, get_or, replicate, set,
}
use fpga_pi_parallel_nids.Prelude.Bytes.{Bytes, zeros, to_bytes, set_slice}
use fpga_pi_parallel_nids.Cms
use fpga_pi_parallel_nids.Cms.{CountMin, point_query}
use fpga_pi_parallel_nids.Hll
use fpga_pi_parallel_nids.Hll.{HyperLogLog}
use fpga_pi_parallel_nids.TelemetryModel
use fpga_pi_parallel_nids.TelemetryModel.{Snapshot}
use fpga_pi_parallel_nids.Frames.{query_frame}
use fpga_pi_parallel_nids.SpiLink.{frame_len, send_frame}
use fpga_pi_parallel_nids.Telemetry.{
  CmsResponse, SnapResponse, HllResponse, telemetry_magic, decode_query, decode_snapshot,
  decode_hll,
}

abbrev pub op_cms_q : ℕ
op_cms_q = 0x01

abbrev pub op_snapshot : ℕ
op_snapshot = 0x02

abbrev pub op_hll : ℕ
op_hll = 0x03

-- gen_telemetry_golden.py
abbrev pub stream : List ℕ
stream =
    replicate 9 0xCB007105
    ++ (replicate 3 0xC0000201
        ++ ((0x0A000001 ∷ 0x0A000002 ∷ 0x0A000003 ∷ []) ++ replicate 5 0xC0000263))

abbrev pub cms_queries : List ℕ
cms_queries = 0xCB007105 ∷ 0xC0000201 ∷ 0xC0000263 ∷ 0x0A000001 ∷ 0x08080808 ∷ []

abbrev pub counted : CountMin → List ℕ → CountMin
counted cm [] = cm
counted cm (ip ∷ ips) = counted (Cms.update cm ip) ips

unfoldable pub cms_golden : List ℕ → List ℕ → List (ℕ × ℕ)
cms_golden ips queries =
    let cm = counted Cms.init ips in map (λ ip. (ip, point_query cm ip)) queries

abbrev pub registered : HyperLogLog → List ℕ → HyperLogLog
registered h [] = h
registered h (ip ∷ ips) = registered (Hll.update h ip) ips

unfoldable pub hll_golden : List ℕ → ℕ × ℕ
hll_golden ips = let h = registered Hll.init ips in (h.harmonic_sum, h.zeros)

abbrev pub observed : TelemetryModel.Telemetry → List ℕ → TelemetryModel.Telemetry
observed t [] = t
observed t (ip ∷ ips) = observed (TelemetryModel.update t ip) ips

unfoldable pub telemetry_snapshot : List ℕ → Option Snapshot
telemetry_snapshot ips = (TelemetryModel.window_tick (observed TelemetryModel.init ips)).snapshot

-- silicon_telemetry_check.py
unfoldable pub source_frame : ℕ → Result Bytes
source_frame src_ip = do src ← to_bytes src_ip 4; ok (set_slice (zeros frame_len) 0 4 src)

unfoldable pub key_frame : ℕ → Result Bytes
key_frame key = do
  bytes ← to_bytes key 4
  ok (set (set_slice (zeros frame_len) 0 4 bytes) 16 op_cms_q)

-- The outcome of a branch of read_telemetry.py: no response, or one of the three.
pub data Reading : Type 0 where
  no_response : ℕ → Reading
  count_read : CmsResponse → Reading
  sketch_read : HllResponse → Reading
  snapshot_read : SnapResponse → Reading

module _ {W : Type 0} (xfer2 : W → Bytes → W × Bytes) where
  -- read_telemetry.py
  unfoldable pub issue : W → ℕ → ℕ → Result (W × Bytes)
  issue w opcode key = do
    query ← query_frame opcode key
    (w1, _) ← send_frame xfer2 w query
    send_frame xfer2 w1 (zeros frame_len)

  -- `--query`
  unfoldable pub read_count : W → ℕ → Result (W × Reading)
  read_count w key = do
    (w1, rx) ← issue w op_cms_q key
    if not (get_or rx 0 0 == telemetry_magic)
        then ok (w1, no_response (get_or rx 0 0))
        else (do r ← decode_query rx; ok (w1, count_read r))

  -- `--hll`, which does not test the magic itself
  unfoldable pub read_sketch : W → Result (W × Reading)
  read_sketch w = do (w1, rx) ← issue w op_hll 0; r ← decode_hll rx; ok (w1, sketch_read r)

  -- One poll of the loop.
  unfoldable pub read_snapshot : W → Result (W × Reading)
  read_snapshot w = do
    (w1, rx) ← issue w op_snapshot 0
    if not (get_or rx 0 0 == telemetry_magic)
        then ok (w1, no_response (get_or rx 0 0))
        else (do s ← decode_snapshot rx; ok (w1, snapshot_read s))

  -- The loop of --count `n`, which has no end for 0 in the source; `sleep` is the wait of
  -- --interval.
  unfoldable pub read_snapshots : (W → W) → W → ℕ → Result (W × List Reading)
  read_snapshots sleep w zero = ok (w, [])
  read_snapshots sleep w (suc n) = do
    (w1, r) ← read_snapshot w
    (w2, rs) ← read_snapshots sleep (sleep w1) n
    ok (w2, r ∷ rs)

  unfoldable pub issue_query : W → ℕ → Result (W × Bytes)
  issue_query w key = do
    query ← key_frame key
    (w1, _) ← send_frame xfer2 w query
    send_frame xfer2 w1 (zeros frame_len)

  unfoldable pub classify_all : W → List ℕ → Result W
  classify_all w [] = ok w
  classify_all w (ip ∷ ips) = do
    frame ← source_frame ip
    (w1, _) ← send_frame xfer2 w frame
    classify_all w1 ips

  -- The errors of the queries, each against its expected count.
  unfoldable pub query_all : W → List (ℕ × ℕ) → Result (W × ℕ)
  query_all w [] = ok (w, 0)
  query_all w ((ip, exp) ∷ rest) = do
    (w1, rx) ← issue_query w ip
    err ←
        if not (get_or rx 0 0 == telemetry_magic)
        then ok 1
        else (do r ← decode_query rx; ok (if r.key == ip && r.count == exp then 0 else 1))
    (w2, errs) ← query_all w1 rest
    ok (w2, err + errs)

  -- `main` for any stream and queries; `settle` is the wait before it.
  unfoldable pub telemetry_check : (W → W) → W → List ℕ → List ℕ → Result (W × ℕ)
  telemetry_check settle w ips queries = do
    w1 ← classify_all (settle w) ips
    (w2, _) ← send_frame xfer2 w1 (zeros frame_len)
    (w3, errs) ← query_all w2 (cms_golden ips queries)
    ok (w3, (if errs == 0 then 0 else 1))
