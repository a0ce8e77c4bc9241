-- ===== src/VideoCore/Decode/Tests.antt =====
-- Decoders over a codec that yields a frame for each packet.
use direct_link.Base.{
  ℕ, zero, suc, ◌<◌, ◌≡◌, refl, Bool, true, false, Option, none, some, List, pos, arith,
}
use direct_link.VideoCore.Types.{Packet, Frame, AvFrame, yuv420p}
use direct_link.VideoCore.Drain.{Gives}
use direct_link.VideoCore.Decode.{Ffmpeg}
use direct_link.VideoCore.Decode.Create.{Decoder, software, nvdec, decode_packet}
use direct_link.VideoCore.Decode.Nvdec
use direct_link.VideoCore.Decode.Lifecycle.{OwnsAll, initializes, perform, perform-OwnsAll}
use direct_link.VideoCore.Decode.Frames.{with_codec, HandsOn, image_of, decode_packet-Gives}

abbrev picture : ℕ → AvFrame ℕ
picture n = record {
  image = n;
  format = yuv420p;
  width = pos 4;
  height = pos 2;
  full_range = false;
  has_stride = true;
  pts = pos n;
  intra = false;
}

abbrev yield_frame : ℕ → Option (AvFrame ℕ × ℕ)
yield_frame zero = none
yield_frame (suc n) = some (picture n, n)

abbrev take_in : ℕ → Option ℕ → ℕ × Bool
take_in n none = (n, true)
take_in n (some payload) = (suc n, true)

yield_frame-falls : (s t : ℕ) (p : AvFrame ℕ) → yield_frame s ≡ some (p, t) → t < s
yield_frame-falls zero t p e = ground arith
yield_frame-falls (suc n) t p e = ground arith

-- The state is the number of frames that wait.
abbrev counting : Ffmpeg
counting = record {
  State = ℕ;
  Image = ℕ;
  Payload = ℕ;
  has_h264 = true;
  has_cuvid = true;
  has_cuda = true;
  alloc_context = true;
  open_codec = some 0;
  alloc_frame = true;
  alloc_cpu_frame = true;
  send_packet = take_in;
  receive_frame = yield_frame;
  pending = λ n. n;
  pending_falls = yield_frame-falls;
  transfer = λ frame. some frame;
  clone = λ frame. some frame;
  time_base = record { num = pos 1; den = pos 25 };
  rescale_q = λ z from to. z;
}

abbrev packet : Packet ℕ
packet = record { packet = 8; pts = pos 0; dts = pos 0; size = pos 10; is_keyframe = true }

abbrev ready : Decoder counting
ready = software (record {
  has_callback = true;
  initialized = true;
  codec_ctx = some (some 1);
  has_frame = true;
  live_contexts = 1;
  live_frames = 1;
})

abbrev new_nvdec : Decoder counting
new_nvdec = nvdec (Nvdec.new counting)

perform-OwnsAll_example :
    (d : Decoder counting) × (perform counting (initializes true) new_nvdec ≡ some d)
    × OwnsAll counting d
perform-OwnsAll_example =
    perform-OwnsAll counting (initializes true) new_nvdec (refl, refl, refl, refl, refl)
      record {
        base = record { contexts = refl; frames = refl; open_if_initialized = λ e. ground arith };
        cpu_frames = refl;
        devices = refl;
      }

decode_packet-Gives_example :
    (fs : List (AvFrame ℕ)) × (t : ℕ) × Gives yield_frame 2 t fs
    × (qs : List (Frame (Option (AvFrame ℕ)))) × (decode_packet counting ready packet
        ≡ some (with_codec counting ready t, qs))
    × HandsOn counting (image_of counting ready) fs qs
decode_packet-Gives_example =
    decode_packet-Gives counting ready 1 packet record { initialized = refl; context = refl } refl
      refl
