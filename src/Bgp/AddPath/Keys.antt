-- ===== src/Bgp/AddPath/Keys.antt =====
-- The keys of the map: equality of texts, and that a key determines the two numbers in it.
use sonic_bmp.Common.{
  ℕ, ◌^◌, ◌<◌, ◌≡◌, sym, ap, ◌∙◌, Bool, true, false, ◌&&◌, [], ◌∷◌, ◌++◌, ◌↔◌, arith, ◌==◌, Text,
  to_dec, read_dec, read_dec-to_dec,
}

unfoldable pub text_eq : Text → Text → Bool
text_eq [] [] = true
text_eq (x ∷ xs) (y ∷ ys) = x == y && text_eq xs ys
text_eq _ _ = false

pub text_eq_iff : (a b : Text) → (text_eq a b ≡ true) ↔ (a ≡ b)
unfolding text_eq
text_eq_iff (x ∷ a) (y ∷ b) = ground (arith, text_eq_iff a b)
text_eq_iff _ _ = ground arith

-- getAFiSafiKeyString
unfoldable pub key_string : ℕ → ℕ → Text
key_string afi safi = to_dec afi ++ (b'_' ∷ to_dec safi)

read-key_string : (a s : ℕ) → a < 10 ^ 20 → read_dec b'_' 0 (key_string a s) ≡ (a, to_dec s)
unfolding key_string
read-key_string a s h = read_dec-to_dec a b'_' (b'_' ∷ to_dec s) (omega arith) h

to_dec_injective : (a b : ℕ) → a < 10 ^ 20 → b < 10 ^ 20 → to_dec a ≡ to_dec b → a ≡ b
to_dec_injective a b ha hb e =
    ap (λ p. p.0)
      (sym (read_dec-to_dec a 95 [] (omega arith) ha)
        ∙ ap (λ (t : Text). read_dec 95 0 (t ++ [])) e
        ∙ read_dec-to_dec b 95 [] (omega arith) hb)

-- Two pairs of numbers with one key are one pair.
pub key_string_injective :
    (a s a' s' : ℕ)
    → a < 10 ^ 20
    → s < 10 ^ 20
    → a' < 10 ^ 20
    → s' < 10 ^ 20
    → key_string a s ≡ key_string a' s'
    → (a ≡ a') × (s ≡ s')
key_string_injective a s a' s' ha hs ha' hs' e =
    (ap (λ p. p.0) both, to_dec_injective s s' hs hs' (ap (λ p. p.1) both))
  where
    both : ◌≡◌ {A = ℕ × Text} (a, to_dec s) (a', to_dec s')
    both = sym (read-key_string a s ha) ∙ ap (read_dec b'_' 0) e ∙ read-key_string a' s' ha'
