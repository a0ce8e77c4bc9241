-- ===== src/VideoCore/Encode/Sample.antt =====
-- Codecs in the place of FFmpeg for the tests: one that yields a packet for each frame, and one
-- that refuses every frame.
use direct_link.Base.{ℕ, zero, suc, ◌<◌, ◌≡◌, Bool, true, false, Option, none, some, pos, arith}
use direct_link.VideoCore.Types.{AvFrame, yuv422p}
use direct_link.VideoCore.Ffmpeg.{Ffmpeg, AvPacket}

abbrev pub packet_of : ℕ → AvPacket ℕ
packet_of n = record { payload = n; pts = pos n; dts = pos n; size = pos 100; key_flag = true }

abbrev yield_packet : ℕ → Option (AvPacket ℕ × ℕ)
yield_packet zero = none
yield_packet (suc n) = some (packet_of n, n)

abbrev take_in : ℕ → Option (AvFrame ℕ) → ℕ × Bool
take_in n none = (n, true)
take_in n (some frame) = (suc n, true)

pub yield_packet-falls : (s t : ℕ) (p : AvPacket ℕ) → yield_packet s ≡ some (p, t) → t < s
yield_packet-falls zero t p e = ground arith
yield_packet-falls (suc n) t p e = ground arith

-- The state is the number of packets that wait. Every codec is found.
abbrev pub counting : Ffmpeg
counting = record {
  State = ℕ;
  Image = ℕ;
  Payload = ℕ;
  find_encoder_by_name = λ name. true;
  alloc_context = λ name. true;
  open_codec = λ name settings options. some 0;
  send_frame = take_in;
  receive_packet = yield_packet;
  pending = λ n. n;
  pending_falls = yield_packet-falls;
  rescale_q = λ z from to. z;
  convert = λ frame fmt range settings. some 7;
}

abbrev pub camera_frame : AvFrame ℕ
camera_frame = record {
  image = 3;
  format = yuv422p;
  width = pos 640;
  height = pos 480;
  full_range = true;
  has_stride = true;
  pts = pos 5;
  intra = false;
}

abbrev pub refusing : Ffmpeg
refusing = record {
  State = ℕ;
  Image = ℕ;
  Payload = ℕ;
  find_encoder_by_name = λ name. true;
  alloc_context = λ name. true;
  open_codec = λ name settings options. some 0;
  send_frame = λ n frame. (n, false);
  receive_packet = yield_packet;
  pending = λ n. n;
  pending_falls = yield_packet-falls;
  rescale_q = λ z from to. z;
  convert = λ frame fmt range settings. some 7;
}
