-- ===== src/Bmp/Stats.antt =====
-- parseBMP::handleStatsReport of Server/src/bmp/parseBMP.cpp: the counters of a statistics report.
pub mod Counters
use sonic_bmp.Common.{
  ℕ, zero, suc, ◌+◌, ◌-◌, ◌*◌, ◌%◌, ◌^◌, ◌||◌, [], ◌∷◌, ◌++◌, ◌==◌, ltb, leb, if◌then◌else◌, codes,
  Bytes, length, take, drop, reverse, Result, ok, throw, stuck, ◌>>=◌, read_uint, swap_bytes,
}

-- obj_stats_report as it lies in memory: seven counters of four bytes, four bytes of padding, and two
-- counters of eight bytes, each least byte first.
abbrev pub Stats : Type 0
Stats = Bytes

abbrev pub stats_size : ℕ
stats_size = 48

-- Where the counter of a type stands: STATS_PREFIX_REJ to STATS_NUM_ROUTES_LOC_RIB.
abbrev pub offset : ℕ → ℕ
offset type = if leb type 6 then 4 * type else 8 * (type - 3)

-- `memcpy(&stats + at, bytes, n)`
unfoldable pub write_at : ℕ → Bytes → Stats → Stats
write_at at bytes m = take at m ++ (bytes ++ drop (at + length bytes) m)

-- The switch, on the bytes in host order
unfoldable pub save_counter : ℕ → Bytes → Stats → Stats
save_counter type b m = if leb type 8 then write_at (offset type) b m else m

-- One pass of the loop: the fields, bmp_len and the stream. The value of an expected length that is cut
-- short is dropped; of any other length the bytes are skipped, and bmp_len is not moved on.
unfoldable pub read_counter : Bytes → ℕ → Stats → Result (Stats × ℕ × Bytes)
read_counter sock bmp_len m =
    if ltb (length sock) 2
    then throw (codes "ERROR: Cannot proceed since we cannot read the stats type.")
    else (do
      (type, d1) ← read_uint 2 sock
      if ltb (length d1) 2
          then throw (codes "ERROR: Cannot proceed since we cannot read the stats len.")
          else (do
            (len, d2) ← read_uint 2 d1
            let left = (bmp_len + 2 ^ 32 - 4) % 2 ^ 32
            if len == 4 || len == 8
                then (if ltb (length d2) len
                    then ok (m, left, [])
                    else ok (
                      save_counter type (swap_bytes (take len d2)) m,
                      (left + 2 ^ 32 - len) % 2 ^ 32,
                      drop len d2,
                    ))
                else ok (m, left, drop len d2)))

-- The loop over the counters
unfoldable pub counters_loop : ℕ → Bytes → ℕ → Stats → Result (Stats × ℕ × Bytes)
counters_loop zero sock bmp_len m = ok (m, bmp_len, sock)
counters_loop (suc n) sock bmp_len m = do
  (m', bmp_len', sock') ← read_counter sock bmp_len m
  counters_loop n sock' bmp_len' m'

-- handleStatsReport
unfoldable pub handle_stats_report : Bytes → ℕ → Stats → Result (Stats × ℕ × Bytes)
handle_stats_report sock bmp_len m =
    if ltb (length sock) 4
    then throw (codes "ERROR:  Cannot proceed since we cannot read the stats mon counter")
    else (do
      (count, d) ← read_uint 4 sock
      counters_loop count d ((bmp_len + 2 ^ 32 - 4) % 2 ^ 32) m)
