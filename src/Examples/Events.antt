-- ===== src/Examples/Events.antt =====
-- Framed messages: updates, peer up and peer down events.
use sonic_bmp.Common.{true, false, [], ◌∷◌, ◌≡◌, refl, Bytes, replicate, arith}
use sonic_bmp.Bgp.Dispatch.{Parser, DownEvent, handle_down_event, handle_up_event}
use sonic_bmp.Bgp.Dispatch.Down.{down_result, handle_down_event-frame}
use sonic_bmp.Bgp.Dispatch.RoundTrip.{frame}
use sonic_bmp.Bgp.Dispatch.Up.{
  ComesUp, Open, IsOpen, encode_framed, open_result, side_start, handle_up_event-encode_framed,
}
use sonic_bmp.Bgp.Open.{OpenState}
use sonic_bmp.Examples.Data.{host, peer}
use sonic_bmp.Examples.Messages.{
  header, header-IsHeader, first_param, second_param, first_param-IsParam, second_param-IsParam,
}

abbrev pub marker : Bytes
marker = replicate 16 255

abbrev pub fresh : Parser
fresh = record { len = 0; type = 0; remaining = 0 }

abbrev no_event : DownEvent
no_event = record { bgp_err_code = 0; bgp_err_subcode = 0; error_text = [] }

handle_down_event-frame_example :
    handle_down_event (frame marker 2 3 (6 ∷ 2 ∷ [])) 21 no_event fresh ≡ down_result 3 6 2 2
handle_down_event-frame_example =
    handle_down_event-frame marker 3 6 2 2 21 [] no_event fresh refl (omega arith) (omega arith)
      (omega arith)

abbrev sent_open : Open
sent_open = record { header = header; params = first_param ∷ []; marker = marker }

abbrev received_open : Open
received_open = record { header = header; params = second_param ∷ []; marker = marker }

sent_open-IsOpen : IsOpen sent_open
sent_open-IsOpen = record {
  is_header = header-IsHeader;
  are_params = (first_param-IsParam, tt);
  sixteen = refl;
  small = omega arith;
}

received_open-IsOpen : IsOpen received_open
received_open-IsOpen = record {
  is_header = header-IsHeader;
  are_params = (second_param-IsParam, tt);
  sixteen = refl;
  small = omega arith;
}

abbrev sent_state : OpenState
sent_state = open_result host true sent_open (side_start (0, 0) [])

abbrev received_state : OpenState
received_state =
    open_result host false received_open (side_start (0, 0) sent_state.add_path_capability)

handle_up_event-encode_framed_example : ComesUp sent_state received_state 84 peer (
    handle_up_event host
      (encode_framed sent_open (encode_framed received_open []))
      84
      (0, 0)
      (0, 0)
      peer
      fresh)
handle_up_event-encode_framed_example =
    handle_up_event-encode_framed host sent_open received_open [] 84 (0, 0) (0, 0) peer fresh
      sent_open-IsOpen received_open-IsOpen (omega arith)
