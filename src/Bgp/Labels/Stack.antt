-- ===== src/Bgp/Labels/Stack.antt =====
-- A label stack that is written as RFC 3107 (section 3) says: three bytes for each label, with twenty
-- bits of value, three of EXP and the bottom-of-stack bit.
use sonic_bmp.Common.{
  ℕ, zero, suc, ◌+◌, ◌*◌, ◌^◌, ◌≤◌, ◌<◌, ◌≡◌, ◌≢◌, ap, ◌∙◌, true, false, List, [], All, ◌∷◌, ◌++◌,
  Text, codes, to_dec, Bytes, length, arith, Result, ok, little_endian, swap_bytes, network,
  length-network, read_bytes-length, append_assoc, le→leb,
}
use native.Mathlib.Nat.{zero-add}
use sonic_bmp.Bgp.Labels.{
  read_label, label_value, label_bos, is_last_label, decode_label_loop, decode_label,
}

pub record Label : Type 0 where
  pub value : ℕ
  pub exp : ℕ

abbrev pub IsLabel : Label → Type 0
IsLabel l = (l.value < 2 ^ 20) × (l.exp < 8)

-- A label above the bottom is neither 0 nor 0x80000 with no EXP bits, which the code takes for the end.
abbrev pub IsInner : Label → Type 0
IsInner l = (l.value < 2 ^ 20) × (l.exp < 8) × (l.value ≢ 0) × (l.value ≢ 0x80000)

abbrev pub encode_label : Label → ℕ → Bytes
encode_label l bottom = network 3 (l.value * 16 + l.exp * 2 + bottom)

abbrev pub encode_stack : List Label → Label → Bytes
encode_stack [] bottom = encode_label bottom 1
encode_stack (l ∷ ls) bottom = encode_label l 0 ++ encode_stack ls bottom

-- The printed labels, from the top, with commas between them.
abbrev pub print_stack : List Label → Label → Text
print_stack [] bottom = to_dec bottom.value
print_stack (l ∷ ls) bottom = to_dec l.value ++ (codes "," ++ print_stack ls bottom)

read_label-network :
    (w : ℕ) (d : Bytes) → w < 256 ^ 3 → read_label (network 3 w ++ d) ≡ ok (256 * w, d)
unfolding read_label swap_bytes little_endian
read_label-network w d h =
    rw (read_bytes-length 3 (network 3 w) d (length-network 3 w))
      (ap (λ (n : ℕ). ok (n, d)) (omega arith))

label_word :
    (l : Label) (b : ℕ)
    → IsLabel l
    → b < 2
    → (label_value (256 * (l.value * 16 + l.exp * 2 + b)) ≡ l.value)
      × (label_bos (256 * (l.value * 16 + l.exp * 2 + b)) ≡ b)
label_word l b h hb = omega arith

last_bottom : (l : Label) → IsLabel l → is_last_label (256 * (l.value * 16 + l.exp * 2 + 1)) ≡ true
last_bottom l h = ground (arith, label_word l 1 h)

last_inner : (l : Label) → IsInner l → is_last_label (256 * (l.value * 16 + l.exp * 2 + 0)) ≡ false
last_inner l h = ground (arith, label_word l 0 (h.0, h.1))

decode_label_loop-stack :
    (ls : List Label) (f len read : ℕ) (bottom : Label) (d : Bytes) (out : Text)
    → All IsInner ls
    → IsLabel bottom
    → read + 3 * length ls ≤ len
    → length ls < f
    → decode_label_loop f len read (encode_stack ls bottom ++ d) out
      ≡ ok (read + 3 * (length ls + 1), out ++ print_stack ls bottom)
unfolding decode_label_loop
decode_label_loop-stack ls zero len read bottom d out v vb room fuel = absurd (omega arith)
decode_label_loop-stack [] (suc f) len read bottom d out v vb room fuel = rw (
  le→leb read len (omega arith),
  read_label-network (bottom.value * 16 + bottom.exp * 2 + 1) d (omega arith),
  last_bottom bottom vb,
  (label_word bottom 1 vb (omega arith)).0,
)
decode_label_loop-stack (l ∷ ls) (suc f) len read bottom d out (vl, v) vb room fuel =
    rw
      (
        le→leb read len (omega arith),
        append_assoc (encode_label l 0) (encode_stack ls bottom) d,
        read_label-network (l.value * 16 + l.exp * 2 + 0) (encode_stack ls bottom ++ d)
            (omega arith),
        last_inner l vl,
        (label_word l 0 (vl.0, vl.1) (omega arith)).0,
        decode_label_loop-stack ls f len (read + 3) bottom d _ v vb (omega arith) (omega arith),
      )
      (pair_eq (omega arith) (simp append_assoc))
  where
    pair_eq :
        {m n : ℕ} {s t : Text} → m ≡ n → s ≡ t → ◌≡◌ {A = Result (ℕ × Text)} (ok (m, s)) (ok (n, t))
    pair_eq p q = λ i. ok (p i, q i)

-- decodeLabel on a label stack that the prefix's bytes have room for reads three bytes for each label,
-- up to the bottom of the stack, and gives the values from the top with commas between them, whatever
-- follows; no label above the bottom may be 0 or 0x80000.
pub decode_label-stack :
    (ls : List Label) (bottom : Label) (len : ℕ) (d : Bytes)
    → All IsInner ls
    → IsLabel bottom
    → 3 * length ls ≤ len
    → decode_label (encode_stack ls bottom ++ d) len
      ≡ ok (3 * (length ls + 1), print_stack ls bottom)
unfolding decode_label
decode_label-stack ls bottom len d v vb room =
    decode_label_loop-stack ls (len + 2) len 0 bottom d [] v vb (omega arith) (omega arith)
    ∙ ap (λ (n : ℕ). ok (n, print_stack ls bottom)) (zero-add (3 * (length ls + 1)))
