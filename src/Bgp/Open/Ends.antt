-- ===== src/Bgp/Open/Ends.antt =====
-- parseOpenMsg ends on every input.
use sonic_bmp.Common.{
  ℕ, zero, suc, ◌+◌, ◌-◌, ◌/◌, ◌≤◌, ◌<◌, Bool, not, ◌&&◌, ◌==◌, ltb, leb, Bool-cases, inl, inr,
  ltb→lt, ltb→le, Bytes, drop, arith, Ends, Post-bind, AnyFault, read_bytes, read_u8, read_uint,
  read_bytes-Ends, read_uint-Ends, read_u8-Ends,
}
use sonic_bmp.Bgp.Types.{Host}
use sonic_bmp.Bgp.Open.{
  OpenState, add_path_loop, capability, capabilities_loop, open_parameter, parameters_loop,
  parse_capabilities, parse_open_msg,
}

add_path_loop-Ends :
    (h : Host) (sent : Bool) (n : ℕ) (d : Bytes) (s : OpenState)
    → Ends (λ p. Unit) (add_path_loop h sent n d s)
unfolding add_path_loop
add_path_loop-Ends h sent zero d s = tt
add_path_loop-Ends h sent (suc n) d s =
    Post-bind AnyFault _ _ (read_uint 2 d) _ (read_uint-Ends 2 d) λ p ep.
      Post-bind AnyFault _ _ (read_u8 p.1) _ (read_u8-Ends p.1) λ q eq.
        Post-bind AnyFault _ _ (read_u8 q.1) _ (read_u8-Ends q.1)
          λ r er. add_path_loop-Ends h sent n r.1 _

capability-Ends :
    (h : Host) (sent : Bool) (code len : ℕ) (d : Bytes) (s : OpenState)
    → Ends (λ p. Unit) (capability h sent code len d s)
unfolding capability
capability-Ends h sent code len d s = elim (Bool-cases (code == 65)) [
  | inl asn ↦ rw asn (elim (Bool-cases (len == 4)) [
    | inl e ↦ rw e (
        Post-bind AnyFault _ _ (read_uint 4 (drop 2 d)) _ (read_uint-Ends 4 (drop 2 d))
          (λ p ep. tt))
    | inr e ↦ rw e tt
  ])
  | inr other ↦ rw other (elim (Bool-cases (code == 69)) [
    | inl path ↦ rw path (elim (Bool-cases (leb 4 len)) [
      | inl e ↦ rw e (
          Post-bind AnyFault _ _ (add_path_loop h sent ((len + 3) / 4) (drop 2 d) s) _
            (add_path_loop-Ends h sent ((len + 3) / 4) (drop 2 d) s) (λ p ep. tt))
      | inr e ↦ rw e tt
    ])
    | inr path ↦ rw path (elim (Bool-cases (code == 1)) [
      | inl mp ↦ rw mp (elim (Bool-cases (len == 4)) [
        | inl e ↦ rw e (
            Post-bind AnyFault _ _ (read_uint 2 (drop 2 d)) _ (read_uint-Ends 2 (drop 2 d)) λ p ep.
              Post-bind AnyFault _ _ (read_u8 p.1) _ (read_u8-Ends p.1)
                λ q eq. Post-bind AnyFault _ _ (read_u8 q.1) _ (read_u8-Ends q.1) (λ r er. tt))
        | inr e ↦ rw e tt
      ])
      | inr mp ↦ rw mp tt
    ])
  ])
]

capabilities_loop-Ends :
    (f : ℕ) (h : Host) (sent : Bool) (param_len c : ℕ) (d : Bytes) (s : OpenState)
    → param_len - c < f
    → Ends (λ p. Unit) (capabilities_loop h sent f param_len c d s)
unfolding capabilities_loop
capabilities_loop-Ends zero h sent param_len c d s fuel = absurd (omega arith)
capabilities_loop-Ends (suc f) h sent param_len c d s fuel = elim (Bool-cases (ltb c param_len)) [
  | inl more ↦ rw more (
      Post-bind AnyFault _ _ (read_u8 d) _ (read_u8-Ends d) λ p ep.
        Post-bind AnyFault _ _ (read_u8 p.1) _ (read_u8-Ends p.1) λ q eq.
          Post-bind AnyFault _ _ (capability h sent p.0 q.0 d s) _
            (capability-Ends h sent p.0 q.0 d s)
            λ r er. elim (Bool-cases r.0) [
              | inl good ↦ rw good (
                  capabilities_loop-Ends f h sent param_len (c + (2 + q.0)) (drop (2 + q.0) r.2) r.1
                    (omega (arith, ltb→lt c param_len more)))
              | inr bad ↦ rw bad tt
            ])
  | inr done ↦ rw done tt
]

open_parameter-Ends :
    (h : Host) (sent : Bool) (size read type len : ℕ) (d : Bytes) (s : OpenState)
    → Ends (λ p. Unit) (open_parameter h sent size read type len d s)
unfolding open_parameter
open_parameter-Ends h sent size read type len d s = elim (Bool-cases (not (type == 2))) [
  | inl other ↦ rw other tt
  | inr caps ↦ rw caps (elim (Bool-cases (leb 2 len && leb (read + 2 + len) size)) [
    | inl fits ↦ rw fits (capabilities_loop-Ends (suc len) h sent len 0 d s (omega arith))
    | inr long ↦ rw long tt
  ])
]

parameters_loop-Ends :
    (f : ℕ) (h : Host) (sent : Bool) (size read : ℕ) (d : Bytes) (s : OpenState)
    → size - read < f
    → Ends (λ p. Unit) (parameters_loop h sent f size read d s)
unfolding parameters_loop
parameters_loop-Ends zero h sent size read d s fuel = absurd (omega arith)
parameters_loop-Ends (suc f) h sent size read d s fuel = elim (Bool-cases (ltb read size)) [
  | inl more ↦ rw more (
      Post-bind AnyFault _ _ (read_u8 d) _ (read_u8-Ends d) λ p ep.
        Post-bind AnyFault _ _ (read_u8 p.1) _ (read_u8-Ends p.1) λ q eq.
          Post-bind AnyFault _ _ (open_parameter h sent size read p.0 q.0 q.1 s) _
            (open_parameter-Ends h sent size read p.0 q.0 q.1 s)
            λ r er. elim (Bool-cases r.0) [
              | inl good ↦ rw good (
                  parameters_loop-Ends f h sent size (read + (2 + q.0)) (drop q.0 q.1) r.1
                    (omega (arith, ltb→lt read size more)))
              | inr bad ↦ rw bad tt
            ])
  | inr done ↦ rw done tt
]

parse_capabilities-Ends :
    (h : Host) (sent : Bool) (d : Bytes) (size : ℕ) (s : OpenState)
    → Ends (λ p. Unit) (parse_capabilities h sent d size s)
unfolding parse_capabilities
parse_capabilities-Ends h sent d size s =
    parameters_loop-Ends (suc size) h sent size 0 d s (omega arith)

-- parseOpenMsg ends on every input and every size, and the number of bytes that it returns is at most
-- the size.
pub parse_open_msg-Ends :
    (h : Host) (sent : Bool) (d : Bytes) (size : ℕ) (s : OpenState)
    → Ends (λ p. p.0 ≤ size) (parse_open_msg h sent d size s)
unfolding parse_open_msg
parse_open_msg-Ends h sent d size s = elim (Bool-cases (ltb size 10)) [
  | inl short ↦ rw short (omega arith)
  | inr long ↦ rw long (
      Post-bind AnyFault _ _ (read_u8 d) _ (read_u8-Ends d) λ p ep.
        Post-bind AnyFault _ _ (read_uint 2 p.1) _ (read_uint-Ends 2 p.1) λ q eq.
          Post-bind AnyFault _ _ (read_uint 2 q.1) _ (read_uint-Ends 2 q.1) λ r er.
            Post-bind AnyFault _ _ (read_bytes 4 r.1) _ (read_bytes-Ends 4 r.1) λ i ei.
              Post-bind AnyFault _ _ (read_u8 i.1) _ (read_u8-Ends i.1) λ n en.
                elim (Bool-cases (n.0 == 0)) [
                  | inl none ↦ rw none (omega (arith, ltb→le size 10 long))
                  | inr params ↦ rw params (elim (Bool-cases (ltb (size - 10) n.0)) [
                    | inl cut ↦ rw cut (
                        Post-bind AnyFault _ _ (parse_capabilities h sent n.1 (size - 10) _) _
                          (parse_capabilities-Ends h sent n.1 (size - 10) _) (λ r er. omega arith))
                    | inr whole ↦ rw whole (
                        Post-bind AnyFault _ _ (parse_capabilities h sent n.1 n.0 _) _
                          (parse_capabilities-Ends h sent n.1 n.0 _)
                          (λ r er.
                            ground (arith, ltb→le size 10 long, ltb→le (size - 10) n.0 whole)))
                  ])
                ])
]
