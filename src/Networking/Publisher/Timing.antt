-- ===== src/Networking/Publisher/Timing.antt =====
-- The time stamps that `pushPacket` (networking/src/whip_publisher.cpp) gives to the buffers.
use direct_link.Base.{
  ℕ, ◌-◌, ◌/◌, ◌<◌, ◌≡◌, refl, ap, ap₂, Bool, true, if◌then◌else◌, Option, none, some, List, [],
  ◌∷◌, ◌++◌, map, All, ℤ, pos, negsuc, ◌-ℤ◌, ◌≤ℤ◌, pos_part, is_neg, is_zero, to_u64, two_64, arith,
}
use direct_link.VideoCore.Types.{Packet}
use direct_link.Gstreamer.{gst_second}
use direct_link.Networking.Publisher.{Publisher, Buffer, push_packet, cons_buffer}

abbrev pub effective_rate : ℤ → ℤ
effective_rate rate = if is_zero rate then pos 30 else rate

-- A publisher in a stream that started at `a`.
record Streaming (a : ℕ) (rate : ℤ) (p : Publisher) : Type 0 where
  running : p.running ≡ true
  appsrc : p.appsrc ≡ true
  started : p.stream_start_pts ≡ pos a
  paced : effective_rate p.framerate ≡ effective_rate rate

to_u64-sub :
    (a : ℕ) (z : ℤ) → pos a ≤ℤ z → pos_part z < two_64 → to_u64 (z -ℤ pos a) ≡ pos_part z - a
to_u64-sub a (pos n) h b = ground arith
to_u64-sub a (negsuc n) h b = absurd (omega arith)

effective_rate-twice : (rate : ℤ) → effective_rate (effective_rate rate) ≡ effective_rate rate
effective_rate-twice (pos n) = ground arith
effective_rate-twice (negsuc n) = refl

module _ {P : Type 0} where
  cons_buffer-append :
      (b : Option (Buffer P)) (bs cs : List (Buffer P))
      → cons_buffer b (bs ++ cs) ≡ cons_buffer b bs ++ cs
  cons_buffer-append none bs cs = refl
  cons_buffer-append (some b) bs cs = refl

  -- `pushPacket` for one packet after the other, each with the answer of the source; the buffers
  -- that reach the source.
  unfoldable pub push_all : Publisher → List (Packet P × Bool) → Publisher × List (Buffer P)
  push_all p [] = (p, [])
  push_all p ((packet, flow_ok) ∷ rest) =
      let r = push_packet p packet flow_ok in
      let (q, bs) = push_all r.publisher rest in (q, cons_buffer r.buffer bs)

  pub push_all-append :
      (p : Publisher) (xs ys : List (Packet P × Bool))
      → push_all p (xs ++ ys) ≡ (
        (push_all (push_all p xs).0 ys).0,
        (push_all p xs).1 ++ (push_all (push_all p xs).0 ys).1,
      )
  unfolding push_all
  push_all-append p [] ys = refl
  push_all-append p ((packet, ok) ∷ rest) ys =
      let r = push_packet p packet ok in
      rw (push_all-append r.publisher rest ys) (
        ap (λ bs. ((push_all (push_all r.publisher rest).0 ys).0, bs))
          (cons_buffer-append r.buffer (push_all r.publisher rest).1
            (push_all (push_all r.publisher rest).0 ys).1))

  -- The buffer for a packet of a stream that starts at `a`.
  abbrev pub relative : ℕ → ℤ → Packet P × Bool → Buffer P
  relative a rate (packet, flow_ok) = record {
    payload = packet.packet;
    pts = pos_part packet.pts - a;
    duration = gst_second / to_u64 (effective_rate rate);
  }

  -- The packet is not older than the start, and its stamp is a 64-bit number.
  abbrev pub InStream : ℕ → Packet P × Bool → Type 0
  InStream a (packet, flow_ok) = (pos a ≤ℤ packet.pts) × (pos_part packet.pts < two_64)

  push_packet-Streaming :
      (a : ℕ) (rate : ℤ) (p : Publisher) (packet : Packet P) (ok : Bool)
      → p.running ≡ true
      → p.appsrc ≡ true
      → (if is_neg p.stream_start_pts then packet.pts else p.stream_start_pts) ≡ pos a
      → effective_rate p.framerate ≡ effective_rate rate
      → InStream a (packet, ok)
      → Streaming a rate (push_packet p packet ok).publisher
        × ((push_packet p packet ok).buffer ≡ some (relative a rate (packet, ok)))
  unfolding push_packet
  push_packet-Streaming a rate p packet ok r s e k h =
      rw (r, e, k, s)
        (
          record {
            running = refl;
            appsrc = refl;
            started = refl;
            paced = effective_rate-twice rate;
          },
          ap
              (λ n. some (record {
                payload = packet.packet;
                pts = n;
                duration = gst_second / to_u64 (effective_rate rate);
              }))
              (to_u64-sub a packet.pts h.0 h.1),
        )

  push_all-Streaming :
      (a : ℕ) (rate : ℤ) (p : Publisher) (packets : List (Packet P × Bool))
      → Streaming a rate p
      → All (InStream a) packets
      → (push_all p packets).1 ≡ map (relative a rate) packets
  unfolding push_all
  push_all-Streaming a rate p [] v h = refl
  push_all-Streaming a rate p ((packet, ok) ∷ rest) v (h, hs) =
      let (w, b) =
        push_packet-Streaming a rate p packet ok v.running v.appsrc (rw v.started) v.paced h in
      ap₂ cons_buffer b (push_all-Streaming a rate (push_packet p packet ok).publisher rest w hs)

  -- A running publisher with a source, whose stream has not started, is given packets, the first
  -- with a stamp that is not negative and none older than it: every packet reaches the source, in
  -- order and with its payload, stamped with its distance from the first; a frame lasts a second
  -- divided by the frame rate, or by 30 where the rate is 0.
  pub push_all-relative :
      (p : Publisher) (first : Packet P) (ok : Bool) (rest : List (Packet P × Bool)) (a : ℕ)
      → p.running ≡ true
      → p.appsrc ≡ true
      → is_neg p.stream_start_pts ≡ true
      → first.pts ≡ pos a
      → All (InStream a) ((first, ok) ∷ rest)
      → (push_all p ((first, ok) ∷ rest)).1 ≡ map (relative a p.framerate) ((first, ok) ∷ rest)
  unfolding push_all
  push_all-relative p first ok rest a running appsrc fresh e (h, hs) =
      let (w, b) =
        push_packet-Streaming a p.framerate p first ok running appsrc (rw (fresh, e)) refl h in
      ap₂ cons_buffer b
        (push_all-Streaming a p.framerate (push_packet p first ok).publisher rest w hs)
