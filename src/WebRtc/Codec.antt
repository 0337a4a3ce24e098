-- ===== src/WebRtc/Codec.antt =====
-- Codecs and the SDP that ffmpeg reads: crates/api/src/webrtc_ingest.rs.
use shed.Prelude.{if◌then◌else◌, ℕ, String, [], ◌∷◌, concat, decimal, eq_ignore_ascii_case}

pub data VideoCodec : Type 0 where
  vp8 h264 : VideoCodec

abbrev pub opus_pt : ℕ
opus_pt = 111

unfoldable pub from_mime : String → VideoCodec
from_mime mime = if eq_ignore_ascii_case mime "video/H264" then h264 else vp8

abbrev pub payload_type : VideoCodec → ℕ
payload_type vp8 = 96
payload_type h264 = 97

abbrev pub rtpmap : VideoCodec → String
rtpmap vp8 = "VP8/90000"
rtpmap h264 = "H264/90000"

abbrev pub fmtp : VideoCodec → String
fmtp vp8 = ""
fmtp h264 = concat ("a=fmtp:" ∷ decimal 97 ∷ " packetization-mode=1\r\n" ∷ [])

unfoldable pub build_ingest_sdp : ℕ → ℕ → VideoCodec → String
build_ingest_sdp video_port audio_port video =
    let vpt = decimal (payload_type video) in
    concat (
      "v=0\r\no=- 0 0 IN IP4 127.0.0.1\r\ns=muxshed-ingest\r\nc=IN IP4 127.0.0.1\r\nt=0 0\r\nm=video "
      ∷ decimal video_port
      ∷ " RTP/AVP "
      ∷ vpt
      ∷ "\r\na=rtpmap:"
      ∷ vpt
      ∷ " "
      ∷ rtpmap video
      ∷ "\r\n"
      ∷ fmtp video
      ∷ "m=audio "
      ∷ decimal audio_port
      ∷ " RTP/AVP "
      ∷ decimal opus_pt
      ∷ "\r\na=rtpmap:"
      ∷ decimal opus_pt
      ∷ " opus/48000/2\r\n"
      ∷ [])
