-- ===== src/Bmp/Info.antt =====
-- The information TLVs of Server/src/bmp/parseBMP.cpp: the loops of parsePeerUpInfo, handleInitMsg and
-- handleTermMsg have the same head, and each its own switch behind it.
pub mod Fold
pub mod Copies
use sonic_bmp.Common.{
  ℕ, zero, suc, ◌+◌, ◌-◌, min, [], ◌∷◌, ◌++◌, ◌==◌, ltb, if◌then◌else◌, Bytes, length, take, drop,
  replicate, Result, ok, fault, stuck, overread, overwrite, ◌>>=◌, read_bytes, read_uint,
}

-- info_tlv_msg and term_msg_v3, in host order. `info` is infoBuf, and NULL where `len` is 0.
pub record Tlv : Type 0 where
  pub type : ℕ  -- uint16_t
  pub len : ℕ  -- uint16_t
  pub info : Bytes

-- The head of the loops: at most the `size` bytes of infoBuf are copied into it, which is zeroed before,
-- and the pointer is moved on by what was copied.
unfoldable pub read_tlv : ℕ → Bytes → Result (Tlv × Bytes)
read_tlv size d = do
  (type, d1) ← read_uint 2 d
  (len, d2) ← read_uint 2 d1
  (info, d3) ← read_bytes (min size len) d2
  ok (record { type = type; len = len; info = info ++ replicate (size - length info) 0 }, d3)

-- `for (int i = 0; i < len; i += BMP_INFO_TLV_HDR_LEN)`, on fuel
unfoldable pub tlv_loop {ℓ} :
    {S : Type ℓ} → ℕ → (Tlv → S → Result S) → ℕ → Bytes → ℕ → ℕ → S → Result S
tlv_loop size save zero d i len s = stuck
tlv_loop size save (suc f) d i len s =
    if ltb i len
    then (do
      (t, d') ← read_tlv size d
      s' ← save t s
      tlv_loop size save f d' (i + (4 + min size t.len)) len s')
    else ok s

-- `sizeof(dst) < (info.len - 1) ? (sizeof(dst) - 1) : info.len`: the difference is an int, which the
-- comparison makes a size_t, so that of a length of 0 is above every size.
unfoldable pub clip : ℕ → ℕ → ℕ
clip size len = if len == 0 then size - 1 else if ltb size (len - 1) then size - 1 else len

-- `memcpy(dst, info, n)`, where infoBuf has `from` bytes and dst has `size`; from NULL nothing can be read.
unfoldable pub copy_info : ℕ → ℕ → Tlv → ℕ → Bytes → Result Bytes
copy_info from size t n dst =
    if n == 0
    then ok dst
    else if t.len == 0
    then fault overread
    else if ltb from n
    then fault overread
    else if ltb size n
    then fault overwrite
    else ok (take n t.info ++ drop n dst)

-- The characters in front of the first zero byte.
unfoldable pub until_nul : Bytes → Bytes
until_nul [] = []
until_nul (b ∷ bs) = let rest = until_nul bs in if b == 0 then [] else b ∷ rest

-- `strncpy(dst, info, n)`: n bytes are written, behind the characters zeros. The code calls it with an n
-- below the size of infoBuf.
unfoldable pub copy_string : ℕ → Tlv → ℕ → Bytes → Result Bytes
copy_string size t n dst =
    let s = until_nul (take n t.info) in
    if ltb size n then fault overwrite else ok (s ++ (replicate (n - length s) 0 ++ drop n dst))

-- bmp_data: all of it is zero before the message is buffered.
abbrev pub zero_filled : ℕ → Bytes → Bytes
zero_filled size d = d ++ replicate (size - length d) 0
