-- ===== src/Sip.antt =====
-- The signalling side: messages and their parser (src/sip/SipParser.cpp), session descriptions
-- (src/sip/Sdp.cpp) and the user agent server (src/sip/SipUas.cpp).
pub mod Message
pub mod Parser
pub mod Sdp
pub mod Uas
