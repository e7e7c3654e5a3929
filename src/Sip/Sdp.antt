-- ===== src/Sip/Sdp.antt =====
-- include/sipdemo/Sdp.h and src/sip/Sdp.cpp: session descriptions and their text.
pub mod Parse
pub mod Answer
use sipdemo.Base.{
  ℕ, zero, suc, ◌+◌, ◌-◌, Bool, true, false, not, ◌&&◌, ◌||◌, List, [], ◌∷◌, ◌++◌, Option, none,
  some, ltb, leb, ◌==◌, if◌then◌else◌, length, is_empty, drop, take, get_elem?,
}
use sipdemo.Base.Int.{ℤ, pos, negsuc, pos_part, neg_part, ltb_ℤ, eqb_ℤ, unsigned}
use sipdemo.Base.Text.{
  Text, text, text_eq, starts_with, find, substr, trim, lower, tokenize, split_newlines, atoi,
  strtoull, to_string, digits_onto, int_to_string,
}

pub record SdpSession : Type 0 where
  pub username : Text
  pub session_id : ℕ
  pub session_version : ℕ
  pub connection_address : Text
  pub audio_port : ℕ
  pub payload_types : List ℤ
  pub ptime_ms : ℤ
  pub dtmf_payload_type : ℤ

abbrev pub new_session : SdpSession
new_session = record {
  username = text "-";
  session_id = 0;
  session_version = 0;
  connection_address = text "127.0.0.1";
  audio_port = 0;
  payload_types = [];
  ptime_ms = pos 20;
  dtmf_payload_type = negsuc 0;
}

-- `std::find(...) != end()`.
unfoldable pub contains : List ℤ → ℤ → Bool
contains [] x = false
contains (y ∷ ys) x = if eqb_ℤ y x then true else contains ys x

abbrev pub offers_pcmu : SdpSession → Bool
offers_pcmu s = contains s.payload_types (pos 0)

abbrev pub offers_pcma : SdpSession → Bool
offers_pcma s = contains s.payload_types (pos 8)

abbrev pub offers_dtmf : SdpSession → Bool
offers_dtmf s = not (ltb_ℤ s.dtmf_payload_type (pos 0))

abbrev crlf : Text
crlf = 13 ∷ 10 ∷ []

pub type_list : List ℤ → Text
type_list [] = []
type_list (pt ∷ pts) = text " " ++ (int_to_string pt ++ type_list pts)

pub rtpmap_line : ℤ → ℤ → Text
rtpmap_line dtmf pt =
    if eqb_ℤ pt (pos 0)
    then text "a=rtpmap:0 PCMU/8000" ++ crlf
    else if eqb_ℤ pt (pos 8)
    then text "a=rtpmap:8 PCMA/8000" ++ crlf
    else if eqb_ℤ pt dtmf && not (ltb_ℤ dtmf (pos 0))
    then text "a=rtpmap:"
      ++ (int_to_string pt
          ++ (text " telephone-event/8000"
              ++ (crlf ++ (text "a=fmtp:" ++ (int_to_string pt ++ (text " 0-15" ++ crlf))))))
    else []

pub rtpmap_lines : ℤ → List ℤ → Text
rtpmap_lines dtmf [] = []
rtpmap_lines dtmf (pt ∷ pts) = rtpmap_line dtmf pt ++ rtpmap_lines dtmf pts

unfoldable pub generate : SdpSession → Text
unfolding type_list rtpmap_line rtpmap_lines int_to_string digits_onto
generate s =
    text "v=0"
    ++ (crlf
        ++ (text "o="
            ++ (s.username
                ++ (text " "
                    ++ (to_string s.session_id
                        ++ (text " "
                            ++ (to_string s.session_version
                                ++ (text " IN IP4 "
                                    ++ (s.connection_address
                                        ++ (crlf
                                            ++ (text "s=sipdemo"
                                                ++ (crlf
                                                    ++ (text "c=IN IP4 "
                                                        ++ (s.connection_address
                                                            ++ (crlf
                                                            ++ (text "t=0 0"
                                                            ++ (crlf
                                                            ++ (text "m=audio "
                                                            ++ (to_string s.audio_port
                                                            ++ (text " RTP/AVP"
                                                            ++ (type_list s.payload_types
                                                            ++ (crlf
                                                            ++ (rtpmap_lines s.dtmf_payload_type
                                                            s.payload_types
                                                            ++ (text "a=ptime:"
                                                            ++ (int_to_string s.ptime_ms
                                                            ++ (crlf
                                                            ++ (text "a=sendrecv"
                                                            ++ crlf)))))))))))))))))))))))))))
