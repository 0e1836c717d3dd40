-- ===== src/Bgp/Notification/Fits.antt =====
-- Every text that parseNotify writes fits its array, so the unbounded sprintf of the default case is in
-- bounds, and snprintf cuts nothing off.
use sonic_bmp.Common.{
  ℕ, zero, suc, ◌+◌, ◌/◌, ◌%◌, ◌≤◌, ◌≡◌, refl, ap, false, [], ◌∷◌, ◌++◌, ◌==◌, if◌then◌else◌, Text,
  codes, to_dec, dec_onto, Bytes, length, take, length-append, lt→ltb, arith, ok, read_u8,
}
use sonic_bmp.Bgp.Notification.{
  open_text, update_text, cease_text, snprintf, sprintf, error_text, parse_notify,
}

length-dec_onto : (f n : ℕ) (acc : Text) → length (dec_onto f n acc) ≤ f + length acc
unfolding dec_onto
length-dec_onto zero n acc = omega arith
length-dec_onto (suc f) n acc = ground (arith, length-dec_onto f (n / 10) ((48 + n % 10) ∷ acc))

-- A printed number has at most twenty digits.
length-to_dec : (n : ℕ) → length (to_dec n) ≤ 20
unfolding to_dec
length-to_dec n = omega (arith, length-dec_onto 20 n [])

-- Text with a number in its middle.
length-numbered : (a b : Text) (n : ℕ) → length (a ++ (to_dec n ++ b)) ≤ length a + 20 + length b
length-numbered a b n =
    omega (arith, length-append a (to_dec n ++ b), length-append (to_dec n) b, length-to_dec n)

pub take-all : (n : ℕ) (t : Text) → length t ≤ n → take n t ≡ t
take-all zero [] h = refl
take-all zero (x ∷ t) h = absurd (omega arith)
take-all (suc n) [] h = refl
take-all (suc n) (x ∷ t) h = ap (◌∷◌ x) (take-all n t (omega arith))

open_text-fits : (sub : ℕ) → length (open_text sub) ≤ 100
unfolding open_text
open_text-fits sub =
    ground (arith, length-numbered (codes "Open message error - unknown subcode [") (codes "]") sub)

update_text-fits : (sub : ℕ) → length (update_text sub) ≤ 100
unfolding update_text
update_text-fits sub =
    ground
      (arith, length-numbered (codes "Update message error - unknown subcode [") (codes "]") sub)

cease_text-fits : (sub : ℕ) → length (cease_text sub) ≤ 100
unfolding cease_text
cease_text-fits sub =
    ground (arith, length-numbered (codes "Unknown cease code, subcode [") (codes "]") sub)

-- The text for an error code and subcode, in full.
abbrev pub message_text : ℕ → ℕ → Text
message_text code sub =
    if code == 1
    then (if sub == 2 then codes "Bad message header length" else codes "Bad message header type")
    else if code == 2
    then open_text sub
    else if code == 3
    then update_text sub
    else if code == 4
    then codes "Hold timer expired"
    else if code == 5
    then codes "FSM error"
    else if code == 6
    then cease_text sub
    else codes "Unknown notification type [" ++ (to_dec code ++ codes "]")

snprintf-fits : (t : Text) → length t ≤ 100 → snprintf 255 t ≡ t
unfolding snprintf
snprintf-fits t h = take-all 254 t (omega arith)

sprintf-fits : (t : Text) → length t ≤ 100 → sprintf 255 t ≡ ok t
unfolding sprintf
sprintf-fits t h = rw (lt→ltb (length t) 255 (omega arith)) refl

error_text-message_text : (code sub : ℕ) → error_text code sub ≡ ok (message_text code sub)
unfolding error_text
error_text-message_text code sub = ground (
  arith,
  snprintf-fits (open_text sub) (open_text-fits sub),
  snprintf-fits (update_text sub) (update_text-fits sub),
  snprintf-fits (cease_text sub) (cease_text-fits sub),
  sprintf-fits (codes "Unknown notification type [" ++ (to_dec code ++ codes "]"))
      (omega (arith, length-numbered (codes "Unknown notification type [") (codes "]") code)),
)

-- Every text has at most a hundred bytes.
pub message_text-fits : (code sub : ℕ) → length (message_text code sub) ≤ 100
message_text-fits code sub = ground (
  arith,
  open_text-fits sub,
  update_text-fits sub,
  cease_text-fits sub,
  length-numbered (codes "Unknown notification type [") (codes "]") code,
)

-- With two bytes in the buffer, parseNotify accepts every announced size but 0, so also 1, returns the
-- two bytes as code and subcode and writes the whole text, cut off nowhere and within its array.
pub parse_notify-message_text :
    (code sub size : ℕ) (rest : Bytes)
    → 1 ≤ size
    → parse_notify (code ∷ sub ∷ rest) size
      ≡ ok (
        false,
        record { error_code = code; error_subcode = sub; error_text = message_text code sub },
      )
unfolding parse_notify read_u8
parse_notify-message_text code sub size rest h =
    rw
      (
        lt→ltb 0 size (omega arith),
        read_u8,
        lt→ltb 0 (size + 1) (omega arith),
        error_text-message_text code sub,
      )
      refl
