-- ===== src/Bmp/Stats/Counters.antt =====
-- A statistics report is taken counter by counter.
use sonic_bmp.Common.{
  ℕ, zero, suc, ◌+◌, ◌-◌, ◌%◌, ◌^◌, ◌<◌, ◌≡◌, refl, List, [], ◌∷◌, ◌++◌, inl, inr, ◌||◌, ◌==◌,
  le→ltb, if◌then◌else◌, Bool-cases, Bytes, false, leb, take, drop, reverse, All, length,
  length-append, take-append-length, drop-append-length, append_assoc, ok, arith, network,
  length-network, read_uint-network, swap_bytes,
}
use sonic_bmp.Bmp.Stats.{
  Stats, write_at, save_counter, read_counter, counters_loop, handle_stats_report,
}

-- A counter as it is sent: its type, and its value with the most significant byte first.
pub record Counter : Type 0 where
  pub type : ℕ
  pub value : Bytes

pub record IsCounter (c : Counter) : Type 0 where
  pub type_small : c.type < 65536
  pub value_small : length c.value < 65536

abbrev pub encode_counter : Counter → Bytes
encode_counter c = network 2 c.type ++ (network 2 (length c.value) ++ c.value)

abbrev pub encode_counters : List Counter → Bytes
encode_counters [] = []
encode_counters (c ∷ cs) = encode_counter c ++ encode_counters cs

abbrev pub count : List Counter → ℕ
count cs = length cs

-- The fields of obj_stats_report in the order of their types, each with the bytes in front of it and the
-- bytes it has; behind the first seven the compiler leaves four bytes.
abbrev pub fields : List (ℕ × ℕ)
fields = (0, 4) ∷ (4, 4) ∷ (8, 4) ∷ (12, 4) ∷ (16, 4) ∷ (20, 4) ∷ (24, 4) ∷ (32, 8) ∷ (40, 8) ∷ []

-- The bytes `value` lie from the start of the field of `type` on, if there is one.
abbrev pub stored_in : List (ℕ × ℕ) → ℕ → Bytes → Stats → Stats
stored_in [] type value m = m
stored_in ((at, n) ∷ fs) zero value m = take at m ++ (value ++ drop (at + length value) m)
stored_in (f ∷ fs) (suc type) value m = stored_in fs type value m

save_counter-beyond :
    (type : ℕ) (value : Bytes) (m : Stats) → 8 < type → save_counter type value m ≡ m
unfolding save_counter
save_counter-beyond type value m h =
    let beyond : leb type 8 ≡ false = ground arith in rw beyond refl

-- The switch of the code stores where the table says.
save_counter-stored :
    (type : ℕ) (value : Bytes) (m : Stats)
    → save_counter type value m ≡ stored_in fields type value m
unfolding save_counter write_at
save_counter-stored zero value m = refl
save_counter-stored (suc zero) value m = refl
save_counter-stored (suc (suc zero)) value m = refl
save_counter-stored (suc (suc (suc zero))) value m = refl
save_counter-stored (suc (suc (suc (suc zero)))) value m = refl
save_counter-stored (suc (suc (suc (suc (suc zero))))) value m = refl
save_counter-stored (suc (suc (suc (suc (suc (suc zero)))))) value m = refl
save_counter-stored (suc (suc (suc (suc (suc (suc (suc zero))))))) value m = refl
save_counter-stored (suc (suc (suc (suc (suc (suc (suc (suc zero)))))))) value m = refl
save_counter-stored (suc (suc (suc (suc (suc (suc (suc (suc (suc n))))))))) value m =
    save_counter-beyond (suc (suc (suc (suc (suc (suc (suc (suc (suc n))))))))) value m
      (omega arith)

-- What a counter of four or eight bytes does to the structure; any other is passed over.
abbrev pub counted : Counter → Stats → Stats
counted c m =
    if length c.value == 4 || length c.value == 8
    then stored_in fields c.type (reverse c.value) m
    else m

abbrev pub counted_all : List Counter → Stats → Stats
counted_all [] m = m
counted_all (c ∷ cs) m = counted_all cs (counted c m)

-- What the code takes off bmp_len for a counter: not the value that it passes over.
abbrev pub taken_off : Counter → ℕ → ℕ
taken_off c n =
    let left = (n + 2 ^ 32 - 4) % 2 ^ 32 in
    if length c.value == 4 || length c.value == 8
    then (left + 2 ^ 32 - length c.value) % 2 ^ 32
    else left

abbrev pub taken_off_all : List Counter → ℕ → ℕ
taken_off_all [] n = n
taken_off_all (c ∷ cs) n = taken_off_all cs (taken_off c n)

read_counter-encode_counter :
    (c : Counter) (d : Bytes) (n : ℕ) (m : Stats)
    → IsCounter c
    → read_counter (encode_counter c ++ d) n m ≡ ok (counted c m, taken_off c n, d)
unfolding read_counter swap_bytes
read_counter-encode_counter c d n m v =
    let k = length c.value in
    let tail = network 2 k ++ (c.value ++ d) in
    let t = v.type_small in
    let l = v.value_small in
    let two = length-append (network 2 c.type) tail in
    let four = length-append (network 2 k) (c.value ++ d) in
    elim (Bool-cases (k == 4 || k == 8)) [
      | inl known ↦
          rw
            (
              append_assoc (network 2 c.type) (network 2 k ++ c.value) d,
              append_assoc (network 2 k) c.value d,
              le→ltb (length (network 2 c.type ++ tail)) 2
                  (omega (arith, two, length-network 2 c.type)),
              read_uint-network 2 c.type tail (omega (arith, t)),
              le→ltb (length tail) 2 (omega (arith, four, length-network 2 k)),
              read_uint-network 2 k (c.value ++ d) (omega (arith, l)),
              known,
              le→ltb (length (c.value ++ d)) k (omega (arith, length-append c.value d)),
              take-append-length c.value d,
              drop-append-length c.value d,
              save_counter-stored c.type (swap_bytes c.value) m,
            )
            refl
      | inr other ↦
          rw
            (
              append_assoc (network 2 c.type) (network 2 k ++ c.value) d,
              append_assoc (network 2 k) c.value d,
              le→ltb (length (network 2 c.type ++ tail)) 2
                  (omega (arith, two, length-network 2 c.type)),
              read_uint-network 2 c.type tail (omega (arith, t)),
              le→ltb (length tail) 2 (omega (arith, four, length-network 2 k)),
              read_uint-network 2 k (c.value ++ d) (omega (arith, l)),
              other,
              drop-append-length c.value d,
            )
            refl
    ]

counters_loop-encode_counters :
    (cs : List Counter) (d : Bytes) (n : ℕ) (m : Stats)
    → All IsCounter cs
    → counters_loop (count cs) (encode_counters cs ++ d) n m
      ≡ ok (counted_all cs m, taken_off_all cs n, d)
unfolding counters_loop
counters_loop-encode_counters [] d n m vs = refl
counters_loop-encode_counters (c ∷ cs) d n m (v, vs) =
    rw
      (
        append_assoc (encode_counter c) (encode_counters cs) d,
        read_counter-encode_counter c (encode_counters cs ++ d) n m v,
      )
      (counters_loop-encode_counters cs d (taken_off c n) (counted c m) vs)

-- A statistics report of any counters is read by handleStatsReport up to its end, counter by counter: one
-- of four or eight bytes is stored with its bytes in host order from the start of its type's field on, and
-- goes on into what lies behind a field of four if it has eight; one of another length, or of a type that
-- has no field, leaves the report as it is. For one of another length only its header is taken off bmp_len.
pub handle_stats_report-encode_counters :
    (cs : List Counter) (d : Bytes) (n : ℕ) (m : Stats)
    → All IsCounter cs
    → count cs < 2 ^ 32
    → handle_stats_report (network 4 (count cs) ++ (encode_counters cs ++ d)) n m
      ≡ ok (counted_all cs m, taken_off_all cs ((n + 2 ^ 32 - 4) % 2 ^ 32), d)
unfolding handle_stats_report
handle_stats_report-encode_counters cs d n m vs small =
    let tail = encode_counters cs ++ d in
    rw
      (
        le→ltb (length (network 4 (count cs) ++ tail)) 4
            (omega (arith, length-append (network 4 (count cs)) tail, length-network 4 (count cs))),
        read_uint-network 4 (count cs) tail (omega (arith, small)),
        counters_loop-encode_counters cs d ((n + 2 ^ 32 - 4) % 2 ^ 32) m vs,
      )
      refl
