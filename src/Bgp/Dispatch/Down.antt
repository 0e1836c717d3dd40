-- ===== src/Bgp/Dispatch/Down.antt =====
-- A peer down event with a notification is handled as the notification says.
use sonic_bmp.Common.{
  ℕ, ◌+◌, ◌^◌, ◌≤◌, ◌<◌, ◌≡◌, refl, Bool, false, ◌∷◌, ◌==◌, if◌then◌else◌, Bytes, length, arith,
  Result, ok, throw, codes,
}
use sonic_bmp.Bgp.Dispatch.{Parser, sub32, DownEvent, handle_down_event}
use sonic_bmp.Bgp.Dispatch.RoundTrip.{frame, header_drop, parse_bgp_header-frame}
use sonic_bmp.Bgp.Notification.Fits.{
  message_text, message_text-fits, take-all, parse_notify-message_text,
}

-- What handleDownEvent makes of a message of this type: an exception for all but notifications.
abbrev pub down_result : ℕ → ℕ → ℕ → ℕ → Result (Bool × DownEvent × Parser)
down_result type code sub n =
    if type == 3
    then ok (
      false,
      record { bgp_err_code = code; bgp_err_subcode = sub; error_text = message_text code sub },
      record { len = 19 + n; type = type; remaining = sub32 n 2 },
    )
    else throw (codes "ERROR: Invalid BGP MSG for BMP down event, expected NOTIFICATION message.")

-- A framed BGP message of at least one byte, with at least two in the buffer, is handled by
-- handleDownEvent as follows: a notification's code, subcode and whole text go into the event, and any
-- other message ends in an exception.
pub handle_down_event-frame :
    (marker : Bytes) (type code sub n size : ℕ) (rest : Bytes) (e : DownEvent) (p : Parser)
    → length marker ≡ 16
    → 1 ≤ n
    → 19 + n < 256 ^ 2
    → 19 ≤ size
    → handle_down_event (frame marker n type (code ∷ sub ∷ rest)) size e p
      ≡ down_result type code sub n
unfolding handle_down_event
handle_down_event-frame marker type code sub n size rest e p sixteen some small room =
    rw
      (
        parse_bgp_header-frame marker n type size (code ∷ sub ∷ rest) p sixteen small room,
        handle_down_event,
        header_drop marker n type (code ∷ sub ∷ rest) sixteen,
        parse_notify-message_text code sub n rest some,
        take-all 255 (message_text code sub) (omega (arith, message_text-fits code sub)),
      )
      refl
