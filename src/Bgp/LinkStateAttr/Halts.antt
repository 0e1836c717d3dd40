-- ===== src/Bgp/LinkStateAttr/Halts.antt =====
-- The loops and reads of Server/src/bgp/linkstate/MPLinkStateAttr.cpp that give texts come to an end.
use sonic_bmp.Common.{
  ℕ, zero, suc, ◌+◌, ◌-◌, ◌<◌, Bool, true, false, inl, inr, ◌==◌, ltb, leb, ◌||◌, if◌then◌else◌,
  Bool-cases, List, [], ◌∷◌, Text, Bytes, arith, Result, Ends, Post-bind, AnyFault, read_bytes,
  read_u8, read_uint, read_bytes-Ends, read_uint-Ends, read_u8-Ends, ltb→lt,
}
use sonic_bmp.Bgp.Types.{Host}
use sonic_bmp.Bgp.LinkStateAttr.{mt_loop, sr_loop, unreserved_loop}
use sonic_bmp.Bgp.LinkStateAttr.Arrays.{c_text, strncpy}
use sonic_bmp.Bgp.LinkStateAttr.Values.{read_flags, by_protocol, front, parse_sid_value}

-- An outcome other than `stuck`.
abbrev pub Halts : {A : Type 0} → Result A → Type 0
Halts m = Ends (λ a. Unit) m

module _ {A : Type 0} where
  pub if-Ends :
      (P : A → Type 0) (b : Bool) (x y : Result A)
      → Ends P x
      → Ends P y
      → Ends P (if b then x else y)
  if-Ends P true x y h k = h
  if-Ends P false x y h k = k

  pub front-Halts : (xs : List A) → Halts (front xs)
  unfolding front
  front-Halts [] = tt
  front-Halts (x ∷ xs) = tt

pub by_protocol-Halts :
    (t : Text) (x y : Result Text) → Halts x → Halts y → Halts (by_protocol t x y)
unfolding by_protocol
by_protocol-Halts t x y h k = search if-Ends

pub read_flags-Halts : (flags : List Text) (d : Bytes) → Halts (read_flags flags d)
read_flags-Halts flags d = Post-bind AnyFault _ _ (read_u8 d) _ (read_u8-Ends d) (λ p e. tt)

pub parse_sid_value-Halts : (h : Host) (d : Bytes) (len : ℕ) → Halts (parse_sid_value h d len)
unfolding parse_sid_value
parse_sid_value-Halts h d len = elim (Bool-cases (len == 3)) [
  | inl e ↦ rw e (Post-bind AnyFault _ _ (read_uint 3 d) _ (read_uint-Ends 3 d) (λ p e. tt))
  | inr e ↦ rw e (elim (Bool-cases (leb 16 len)) [
    | inl e ↦ rw e (Post-bind AnyFault _ _ (read_bytes 16 d) _ (read_bytes-Ends 16 d) (λ p e. tt))
    | inr e ↦ rw e (elim (Bool-cases (len == 4)) [
      | inl e ↦ rw e (Post-bind AnyFault _ _ (read_uint 4 d) _ (read_uint-Ends 4 d) (λ p e. tt))
      | inr e ↦ rw e tt
    ])
  ])
]

pub c_text-Halts : (bs : Bytes) → Halts (c_text bs)
unfolding c_text
c_text-Halts [] = tt
c_text-Halts (b ∷ bs) = elim (Bool-cases (b == 0)) [
  | inl e ↦ rw e tt
  | inr e ↦ rw e (Post-bind AnyFault _ _ (c_text bs) _ (c_text-Halts bs) (λ t e. tt))
]

pub strncpy-Halts : (n : ℕ) (d : Bytes) → Halts (strncpy n d)
unfolding strncpy
strncpy-Halts zero d = tt
strncpy-Halts (suc n) [] = tt
strncpy-Halts (suc n) (b ∷ d) = elim (Bool-cases (b == 0)) [
  | inl e ↦ rw e tt
  | inr e ↦ rw e (Post-bind AnyFault _ _ (strncpy n d) _ (strncpy-Halts n d) (λ t e. tt))
]

pub mt_loop-Halts : (f i len : ℕ) (d : Bytes) (t : Text) → len - i < f → Halts (mt_loop f i len d t)
unfolding mt_loop
mt_loop-Halts zero i len d t fuel = absurd (omega arith)
mt_loop-Halts (suc f) i len d t fuel = elim (Bool-cases (ltb i len)) [
  | inl e ↦ rw e (
      Post-bind AnyFault _ _ (read_uint 2 d) _ (read_uint-Ends 2 d)
        λ p r. mt_loop-Halts f (i + 2) len p.1 _ (omega (arith, fuel, ltb→lt i len e)))
  | inr e ↦ rw e tt
]

pub sr_loop-Halts : (f l len : ℕ) (d : Bytes) (t : Text) → len - l < f → Halts (sr_loop f l len d t)
unfolding sr_loop
sr_loop-Halts zero l len d t fuel = absurd (omega arith)
sr_loop-Halts (suc f) l len d t fuel = elim (Bool-cases (ltb l len)) [
  | inl more ↦ rw more (
      Post-bind AnyFault _ _ (read_uint 3 d) _ (read_uint-Ends 3 d) λ p e.
        Post-bind AnyFault _ _ (read_uint 2 p.1) _ (read_uint-Ends 2 p.1) λ q e.
          Post-bind AnyFault _ _ (read_uint 2 q.1) _ (read_uint-Ends 2 q.1) λ r e.
            elim (Bool-cases (q.0 == 1161)) [
              | inl label ↦ rw label (elim (Bool-cases (r.0 == 3 || r.0 == 4)) [
                | inl size ↦ rw size (
                    Post-bind AnyFault _ _ (read_uint r.0 r.1) _ (read_uint-Ends r.0 r.1) λ s e.
                      elim (Bool-cases (r.0 == 4)) [
                        | inl four ↦ rw four (
                            sr_loop-Halts f (l + 11) len r.1 _
                              (omega (arith, fuel, ltb→lt l len more)))
                        | inr three ↦ rw three (
                            sr_loop-Halts f (l + 10) len r.1 _
                              (omega (arith, fuel, ltb→lt l len more)))
                      ])
                | inr other ↦ rw other tt
              ])
              | inr other ↦ rw other tt
            ])
  | inr done ↦ rw done tt
]

-- The flags of a row, by its protocol
pub protocol_flags-Halts :
    (t : Text) (isis ospf : List Text) (d : Bytes)
    → Halts (by_protocol t (read_flags isis d) (read_flags ospf d))
protocol_flags-Halts t isis ospf d =
    by_protocol-Halts t _ _ (read_flags-Halts isis d) (read_flags-Halts ospf d)

pub unreserved_loop-Halts :
    (wide : ℕ → ℕ) (n : ℕ) (d : Bytes) (t : Text) → Halts (unreserved_loop wide n d t)
unfolding unreserved_loop
unreserved_loop-Halts wide zero d t = tt
unreserved_loop-Halts wide (suc n) d t =
    Post-bind AnyFault _ _ (read_uint 4 d) _ (read_uint-Ends 4 d)
      λ p e. unreserved_loop-Halts wide n p.1 _
