-- ===== src/VideoCore/Encode/Drain.antt =====
-- What the receive loop of both encoders (software_encoder.cpp and nvenc_encoder.cpp) hands on.
use mathlib.Core.Path.{subst}
use direct_link.Base.{
  suc, ◌≡◌, refl, List, [], ◌∷◌, map, ℤ, pos, eq_ℤ, eq_ℤ-eq, sym, inl, inr, Bool-cases, arith,
}
use direct_link.VideoCore.Types.{Packet}
use direct_link.VideoCore.Drain.{Gives, drain, drain-Gives}
use direct_link.VideoCore.Ffmpeg.{Ffmpeg, Rational, AvPacket, nanoseconds, no_pts}
use direct_link.VideoCore.Encode.{wrap_packet, receive_packets, rescale_to_ns}

module _ (f : Ffmpeg) where
  -- The codec yields these packets, one after the other, and then no more.
  abbrev pub Yields : f.State → f.State → List (AvPacket f.Payload) → Type 0
  Yields s t ps = Gives f.receive_packet s t ps

  -- A time of the codec in nanoseconds; one that is missing counts as zero.
  pub record InNanoseconds (tb : Rational) (time ns : ℤ) : Type 0 where
    pub missing : time ≡ no_pts → ns ≡ pos 0
    pub rescaled : (time ≡ no_pts → ⊥) → ns ≡ f.rescale_q time tb nanoseconds

  pub record IsPacketOf (tb : Rational) (p : AvPacket f.Payload) (q : Packet f.Payload)
      : Type 0 where
    pub payload : q.packet ≡ p.payload
    pub pts : InNanoseconds tb p.pts q.pts
    pub dts : InNanoseconds tb p.dts q.dts
    pub size : q.size ≡ p.size
    pub is_keyframe : q.is_keyframe ≡ p.key_flag

  rescale_to_ns-InNanoseconds :
      (tb : Rational) (time : ℤ) → InNanoseconds tb time (rescale_to_ns f time tb)
  unfolding rescale_to_ns
  rescale_to_ns-InNanoseconds tb time = record {
    missing = λ h. rw h refl;
    rescaled = λ n. elim (Bool-cases (eq_ℤ time no_pts)) [
      | inl e ↦ absurd (n (eq_ℤ-eq time no_pts e))
      | inr e ↦ rw e refl
    ];
  }

  wrap_packet-IsPacketOf :
      (tb : Rational) (p : AvPacket f.Payload) → IsPacketOf tb p (wrap_packet f tb p)
  unfolding wrap_packet
  wrap_packet-IsPacketOf tb p = record {
    payload = refl;
    pts = rescale_to_ns-InNanoseconds tb p.pts;
    dts = rescale_to_ns-InNanoseconds tb p.dts;
    size = refl;
    is_keyframe = refl;
  }

  -- One packet for each, in the same order.
  unfoldable pub ArePacketsOf :
      Rational → List (AvPacket f.Payload) → List (Packet f.Payload) → Type 0
  ArePacketsOf tb [] [] = Unit
  ArePacketsOf tb (p ∷ ps) (q ∷ qs) = IsPacketOf tb p q × ArePacketsOf tb ps qs
  ArePacketsOf tb ps qs = ⊥

  wrap_packet-ArePacketsOf :
      (tb : Rational) (ps : List (AvPacket f.Payload))
      → ArePacketsOf tb ps (map (wrap_packet f tb) ps)
  unfolding ArePacketsOf
  wrap_packet-ArePacketsOf tb [] = tt
  wrap_packet-ArePacketsOf tb (p ∷ ps) =
      (wrap_packet-IsPacketOf tb p, wrap_packet-ArePacketsOf tb ps)

  pub receive_packets_wraps :
      (tb : Rational) (s : f.State)
      → (ps : List (AvPacket f.Payload)) × Yields s (receive_packets f tb s).0 ps
        × ((receive_packets f tb s).1 ≡ map (wrap_packet f tb) ps)
  unfolding receive_packets
  receive_packets_wraps tb s = (
    (drain f.receive_packet (suc (f.pending s)) s).1,
    drain-Gives f.receive_packet f.pending f.pending_falls (suc (f.pending s)) s (omega arith),
    refl,
  )

  -- The receive loop ends once the codec has no packet, and hands on one packet for each that the
  -- codec yields until then, in order: with its payload, its size and its key flag, and with its two
  -- time stamps rescaled from the time base to nanoseconds, or zero where the codec gives none.
  pub receive_packets-Yields :
      (tb : Rational) (s : f.State)
      → (ps : List (AvPacket f.Payload)) × Yields s (receive_packets f tb s).0 ps
        × ArePacketsOf tb ps (receive_packets f tb s).1
  receive_packets-Yields tb s =
      let (ps, y, e) = receive_packets_wraps tb s in
      (ps, y, subst (λ qs. ArePacketsOf tb ps qs) (sym e) (wrap_packet-ArePacketsOf tb ps))
