-- ===== src/Rtp/Extension.antt =====
-- `RtpPacket::serialize` sets the extension bit and writes no extension header
-- (src/rtp/RtpPacket.cpp), so such a packet does not come back.
use sipdemo.Base.{◌<◌, ◌≡◌, true, false, arith, length, []}
use sipdemo.Rtp.{
  RtpPacket, nullopt, byte, rd16, rd32, parse_csrc, skip_extension, parse, serialize, wr_all,
}

-- A packet with the extension bit, no padding, no sources and fewer than four payload bytes is
-- serialized to a datagram that the parser rejects.
pub parse-serialize_extension :
    (p : RtpPacket)
    → p.version ≡ 2
    → p.extension ≡ true
    → p.padding ≡ false
    → p.csrc ≡ []
    → length p.payload < 4
    → parse (serialize p) ≡ nullopt
unfolding parse serialize byte rd16 rd32 parse_csrc skip_extension wr_all
parse-serialize_extension p version extension padding csrc short =
    rw (version, extension, padding, csrc) (ground arith)
