-- ===== src/Bmp/Reader/Bodies.antt =====
-- What the handlers of a message's kind leave of the stream.
use sonic_bmp.Common.{
  ℕ, zero, suc, ◌+◌, ◌-◌, ◌%◌, ◌^◌, ◌≤◌, Bool, true, false, [], ◌||◌, ◌==◌, ltb, if◌then◌else◌, inl,
  inr, Bool-cases, Bytes, length, arith, IfOk, IfOk-bind, IfOk-then, IfOk-imp, read_uint,
}
use sonic_bmp.Bgp.Types.{Host}
use sonic_bmp.Bmp.CommonHeader.{buffer_size, buffer_bmp_message}
use sonic_bmp.Bmp.Info.{tlv_loop, zero_filled}
use sonic_bmp.Bmp.Init.{Router, data_size, init_save, handle_init_msg}
use sonic_bmp.Bmp.PeerUp.{UpHeader, recv_if, parse_peer_up_event_hdr}
use sonic_bmp.Bmp.Stats.{Stats, read_counter, counters_loop, handle_stats_report}
use sonic_bmp.Bmp.Term.{term_save, handle_term_msg}
use sonic_bmp.Bmp.Reader.Shorter.{drop-shorter, buffer-shorter, read_uint-shorter}

recv_if-shorter :
    (good : Bool) (n : ℕ) (sock : Bytes) → length (recv_if good n sock).2 ≤ length sock
unfolding recv_if
recv_if-shorter false n sock = omega arith
recv_if-shorter true n sock = elim (Bool-cases (ltb (length sock) n)) [
  | inl short ↦ rw short (omega arith)
  | inr there ↦ rw there (drop-shorter n sock)
]

pub up-hdr-shorter :
    (h : Host) (is_ipv4 : Bool) (sock : Bytes) (n : ℕ) (e : UpHeader)
    → IfOk (λ r. length r.3 ≤ length sock) (parse_peer_up_event_hdr h is_ipv4 sock n e)
unfolding parse_peer_up_event_hdr
up-hdr-shorter h is_ipv4 sock n e =
    let r1 = recv_if true 16 sock in
    let r2 = recv_if r1.0 2 r1.2 in
    let r3 = recv_if r2.0 2 r2.2 in
    let l1 = recv_if-shorter true 16 sock in
    let l2 = recv_if-shorter r1.0 2 r1.2 in
    let l3 = recv_if-shorter r2.0 2 r2.2 in
    let read : ℕ = (if r1.0 then 16 else 0) + ((if r2.0 then 2 else 0) + (if r3.0 then 2 else 0)) in
    let left : ℕ = (n + 2 ^ 32 - read) % 2 ^ 32 in
    IfOk-then (λ b. length b.2 ≤ length r3.2) _ (buffer_bmp_message [] left r3.2) _
      (buffer-shorter [] left r3.2)
      (λ b l. elim (Bool-cases r3.0) [
        | inl good ↦ rw good (omega (arith, l, l1, l2, l3))
        | inr bad ↦ rw bad (
            IfOk-then (λ b'. length b'.2 ≤ length b.2) _ (buffer_bmp_message b.0 b.1 b.2) _
              (buffer-shorter b.0 b.1 b.2) (λ b' l'. omega (arith, l, l', l1, l2, l3)))
      ])

read_counter-shorter :
    (sock : Bytes) (n : ℕ) (m : Stats)
    → IfOk (λ r. length r.2 ≤ length sock) (read_counter sock n m)
unfolding read_counter
read_counter-shorter sock n m = elim (Bool-cases (ltb (length sock) 2)) [
  | inl short ↦ rw short tt
  | inr there ↦ rw there (
      IfOk-then (λ p. length p.1 ≤ length sock) _ (read_uint 2 sock) _ (read_uint-shorter 2 sock)
        (λ p l. elim (Bool-cases (ltb (length p.1) 2)) [
          | inl short ↦ rw short tt
          | inr more ↦ rw more (
              IfOk-then (λ q. length q.1 ≤ length p.1) _ (read_uint 2 p.1) _
                (read_uint-shorter 2 p.1)
                (λ q k. elim (Bool-cases (q.0 == 4 || q.0 == 8)) [
                  | inl known ↦ elim (Bool-cases (ltb (length q.1) q.0)) [
                    | inl cut ↦ rw (known, cut) (omega arith)
                    | inr whole ↦ rw (known, whole) (omega (arith, l, k, drop-shorter q.0 q.1))
                  ]
                  | inr other ↦ rw other (omega (arith, l, k, drop-shorter q.0 q.1))
                ]))
        ]))
]

counters_loop-shorter :
    (c : ℕ) (sock : Bytes) (n : ℕ) (m : Stats)
    → IfOk (λ r. length r.2 ≤ length sock) (counters_loop c sock n m)
unfolding counters_loop
counters_loop-shorter zero sock n m = omega arith
counters_loop-shorter (suc c) sock n m =
    IfOk-then (λ r. length r.2 ≤ length sock) _ (read_counter sock n m) _
      (read_counter-shorter sock n m)
      (λ r l.
        IfOk-imp (λ q. length q.2 ≤ length r.2) _ (counters_loop c r.2 r.1 r.0)
          (counters_loop-shorter c r.2 r.1 r.0) (λ q k. omega (arith, l, k)))

pub stats-shorter :
    (sock : Bytes) (n : ℕ) (m : Stats)
    → IfOk (λ r. length r.2 ≤ length sock) (handle_stats_report sock n m)
unfolding handle_stats_report
stats-shorter sock n m = elim (Bool-cases (ltb (length sock) 4)) [
  | inl short ↦ rw short tt
  | inr there ↦ rw there (
      IfOk-then (λ p. length p.1 ≤ length sock) _ (read_uint 4 sock) _ (read_uint-shorter 4 sock)
        (λ p l.
          IfOk-imp (λ q. length q.2 ≤ length p.1) _
            (counters_loop p.0 p.1 ((n + 2 ^ 32 - 4) % 2 ^ 32) m)
            (counters_loop-shorter p.0 p.1 ((n + 2 ^ 32 - 4) % 2 ^ 32) m)
            (λ q k. omega (arith, l, k))))
]

pub init-shorter :
    (h : Host) (sock : Bytes) (n : ℕ) (r : Router)
    → IfOk (λ p. length p.1 ≤ length sock) (handle_init_msg h sock n r)
unfolding handle_init_msg
init-shorter h sock n r =
    IfOk-then (λ b. length b.2 ≤ length sock) _ (buffer_bmp_message [] n sock) _
      (buffer-shorter [] n sock)
      (λ b l.
        IfOk-bind _
          (tlv_loop data_size (init_save h) (suc (length b.0)) (zero_filled buffer_size b.0) zero
            (length b.0) (record r { hash_type = 0 }))
          _ (λ r'. l))

pub term-shorter :
    (sock : Bytes) (n : ℕ) (r : Router)
    → IfOk (λ p. length p.1 ≤ length sock) (handle_term_msg sock n r)
unfolding handle_term_msg
term-shorter sock n r =
    IfOk-then (λ b. length b.2 ≤ length sock) _ (buffer_bmp_message [] n sock) _
      (buffer-shorter [] n sock)
      (λ b l.
        IfOk-bind _
          (tlv_loop data_size term_save (suc (length b.0)) (zero_filled buffer_size b.0) zero
            (length b.0) r)
          _ (λ r'. l))
