-- ===== src/Bmp/Info/Fold.antt =====
-- The loop over the TLVs takes them one after another, and ends on every input.
use sonic_bmp.Common.{
  ℕ, zero, suc, ◌+◌, ◌-◌, ◌≤◌, ◌<◌, ◌≡◌, refl, List, [], ◌∷◌, ◌++◌, append_assoc, inl, inr, ltb,
  lt→ltb, le→ltb, ltb→lt, Bool-cases, Bytes, All, length, length-append, replicate, arith, Result,
  ok, throw, fault, stuck, ◌>>=◌, Ends, AnyFault, Post-bind, read_bytes, read_uint, read_uint-Ends,
  read_bytes-Ends, network, length-network, read_uint-network, read_bytes-append, min,
}
use sonic_bmp.Bmp.Info.{Tlv, read_tlv, tlv_loop}

-- A TLV as it is sent: its type and its value.
pub record Item : Type 0 where
  pub type : ℕ
  pub value : Bytes

abbrev pub encode_item : Item → Bytes
encode_item x = network 2 x.type ++ (network 2 (length x.value) ++ x.value)

abbrev pub encode_items : List Item → Bytes
encode_items [] = []
encode_items (x ∷ xs) = encode_item x ++ encode_items xs

-- It fits its length field, and infoBuf.
pub record IsItem (size : ℕ) (x : Item) : Type 0 where
  pub type_small : x.type < 65536
  pub value_small : length x.value < 65536
  pub fits : length x.value ≤ size

-- What the head of the loop makes of it.
abbrev pub tlv_of : ℕ → Item → Tlv
tlv_of size x = record {
  type = x.type;
  len = length x.value;
  info = x.value ++ replicate (size - length x.value) 0;
}

-- The switch behind the head, for one TLV after another.
abbrev pub fold_items {ℓ} : {S : Type ℓ} → ℕ → (Tlv → S → Result S) → List Item → S → Result S
fold_items size save [] s = ok s
fold_items size save (x ∷ xs) s = save (tlv_of size x) s >>= fold_items size save xs

length-encode_item : (x : Item) → length (encode_item x) ≡ 4 + length x.value
length-encode_item x = omega (
  arith,
  length-append (network 2 x.type) (network 2 (length x.value) ++ x.value),
  length-append (network 2 (length x.value)) x.value,
  length-network 2 x.type,
  length-network 2 (length x.value),
)

pub read_tlv-encode_item :
    (size : ℕ) (x : Item) (d : Bytes)
    → IsItem size x
    → read_tlv size (encode_item x ++ d) ≡ ok (tlv_of size x, d)
unfolding read_tlv
read_tlv-encode_item size x d v =
    let t = v.type_small in
    let n = v.value_small in
    let s = v.fits in
    let least : min size (length x.value) ≡ length x.value = omega (arith, s) in
    rw
      (
        append_assoc (network 2 x.type) (network 2 (length x.value) ++ x.value) d,
        append_assoc (network 2 (length x.value)) x.value d,
        read_uint-network 2 x.type (network 2 (length x.value) ++ (x.value ++ d))
            (omega (arith, t)),
        read_uint-network 2 (length x.value) (x.value ++ d) (omega (arith, n)),
        least,
        read_bytes-append x.value d,
      )
      refl

bind-cong {ℓ} :
    {A : Type ℓ} {B : Type ℓ} (m : Result A) (f g : A → Result B)
    → ((a : A) → f a ≡ g a)
    → (m >>= f) ≡ (m >>= g)
bind-cong (ok a) f g h = h a
bind-cong (throw e) f g h = refl
bind-cong (fault e) f g h = refl
bind-cong stuck f g h = refl

read_tlv-Ends : (size : ℕ) (d : Bytes) → Ends (λ p. Unit) (read_tlv size d)
unfolding read_tlv
read_tlv-Ends size d = Post-bind AnyFault _ _ (read_uint 2 d) _ (read_uint-Ends 2 d) (λ p e.
    Post-bind AnyFault _ _ (read_uint 2 p.1) _ (read_uint-Ends 2 p.1) (λ q e'.
      Post-bind AnyFault _ _ (read_bytes (min size q.0) q.1) _ (read_bytes-Ends (min size q.0) q.1)
        (λ r e''. tt)))

module _ {ℓ} {S : Type ℓ} (size : ℕ) (save : Tlv → S → Result S) where
  pub tlv_loop-encode_items :
      (xs : List Item) (f i len : ℕ) (d : Bytes) (s : S)
      → All (IsItem size) xs
      → len ≡ i + length (encode_items xs)
      → length (encode_items xs) < f
      → tlv_loop size save f (encode_items xs ++ d) i len s ≡ fold_items size save xs s
  unfolding tlv_loop
  tlv_loop-encode_items xs zero i len d s v e l = absurd (omega arith)
  tlv_loop-encode_items [] (suc f) i len d s v e l = rw (le→ltb i len (omega arith)) refl
  tlv_loop-encode_items (x ∷ xs) (suc f) i len d s (v, vs) e l =
      let n = v.fits in
      let both = length-append (encode_item x) (encode_items xs) in
      let one = length-encode_item x in
      rw
        (
          lt→ltb i len (omega (arith, both, one)),
          append_assoc (encode_item x) (encode_items xs) d,
          read_tlv-encode_item size x (encode_items xs ++ d) v,
        )
        (bind-cong (save (tlv_of size x) s) _ _ (λ s'.
          tlv_loop-encode_items xs f (i + (4 + min size (length x.value))) len d s' vs
            (omega (arith, both, one, n)) (omega (arith, both, one, n))))

  -- Whatever the bytes are, the loop ends, if the switch does.
  pub tlv_loop-Ends :
      ((t : Tlv) (s : S) → Ends (λ s'. Unit) (save t s))
      → (f i len : ℕ) (d : Bytes) (s : S) → len - i < f
      → Ends (λ s'. Unit) (tlv_loop size save f d i len s)
  unfolding tlv_loop
  tlv_loop-Ends h zero i len d s l = absurd (omega arith)
  tlv_loop-Ends h (suc f) i len d s l = elim (Bool-cases (ltb i len)) [
    | inl more ↦ rw more (
        Post-bind AnyFault _ _ (read_tlv size d) _ (read_tlv-Ends size d) (λ p e.
          Post-bind AnyFault _ _ (save p.0 s) _ (h p.0 s) (λ s' e'.
            tlv_loop-Ends h f (i + (4 + min size p.0.len)) len p.1 s'
              (omega (arith, l, ltb→lt i len more)))))
    | inr done ↦ rw done tt
  ]
