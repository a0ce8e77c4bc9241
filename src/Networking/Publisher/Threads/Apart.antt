-- ===== src/Networking/Publisher/Threads/Apart.antt =====
-- `pushPacket` and `stop` (networking/src/whip_publisher.cpp) that do not overlap, as in a camera
-- session, which joins the encode thread before it stops the publisher.
use direct_link.Base.{◌≡◌, refl, Bool, true, false, ◌&&◌, some, List, arith}
use direct_link.VideoCore.Types.{Packet}
use direct_link.Networking.Publisher.{Publisher, Buffer}
use direct_link.Networking.Publisher.Threads.{
  PushPc, StopPc, Shared, Label, calls_push, push_step, calls_stop, stop_step, fire, Steps, here,
  next, quiet, push_next, stop_next, enter_push, enter_stop,
}

abbrev pub is_stopping : StopPc → Bool
is_stopping StopPc.outside = false
is_stopping pc = true

-- The source is freed and `appsrc_` not yet cleared.
abbrev pub is_dangling : StopPc → Bool
is_dangling StopPc.released = true
is_dangling StopPc.unpiped = true
is_dangling pc = false

module _ {P : Type 0} where
  abbrev pub is_pushing : PushPc P → Bool
  is_pushing PushPc.outside = false
  is_pushing pc = true

  abbrev finds_source : PushPc P → Bool
  finds_source (PushPc.pushing b) = true
  finds_source pc = false

  -- A call is made only while the other thread is in none.
  abbrev pub Apart : Label P → Shared P → Type 0
  Apart (calls_push packet) s = is_stopping s.stop_pc ≡ false
  Apart calls_stop s = is_pushing s.push_pc ≡ false
  Apart l s = Unit {0}

  -- No freed source was used, one call is under way at most, and outside the two steps of `stop`
  -- in between a source that `appsrc_` points to is alive.
  pub record IsSafe (s : Shared P) : Type 0 where
    pub faultless : s.faulted ≡ false
    pub apart : (is_pushing s.push_pc && is_stopping s.stop_pc) ≡ false
    pub alive : is_dangling s.stop_pc ≡ false → s.publisher.appsrc ≡ true → s.source_alive ≡ true
    pub found : finds_source s.push_pc ≡ true → s.publisher.appsrc ≡ true

  push_next-IsSafe :
      (pc : PushPc P) (s t : Shared P)
      → s.push_pc ≡ pc
      → push_next pc s ≡ some t
      → IsSafe s
      → IsSafe t
  unfolding push_next
  push_next-IsSafe PushPc.outside s t h e v = ground arith
  push_next-IsSafe _ s t h e v = ground arith

  stop_next-IsSafe :
      (pc : StopPc) (s t : Shared P)
      → s.stop_pc ≡ pc
      → stop_next pc s ≡ some t
      → IsSafe s
      → IsSafe t
  unfolding stop_next
  stop_next-IsSafe StopPc.outside s t h e v = ground arith
  stop_next-IsSafe _ s t h e v = ground arith

  enter_push-IsSafe :
      (packet : Packet P) (pc : PushPc P) (s t : Shared P)
      → s.push_pc ≡ pc
      → is_stopping s.stop_pc ≡ false
      → enter_push packet pc s ≡ some t
      → IsSafe s
      → IsSafe t
  unfolding enter_push
  enter_push-IsSafe packet PushPc.outside s t h a e v = ground arith
  enter_push-IsSafe packet _ s t h a e v = ground arith

  enter_stop-IsSafe :
      (pc : StopPc) (s t : Shared P)
      → s.stop_pc ≡ pc
      → is_pushing s.push_pc ≡ false
      → enter_stop pc s ≡ some t
      → IsSafe s
      → IsSafe t
  unfolding enter_stop
  enter_stop-IsSafe StopPc.outside s t h a e v = ground arith
  enter_stop-IsSafe _ s t h a e v = ground arith

  fire-IsSafe : (l : Label P) (s t : Shared P) → Apart l s → fire l s ≡ some t → IsSafe s → IsSafe t
  unfolding fire
  fire-IsSafe (calls_push packet) s t a e v = enter_push-IsSafe packet s.push_pc s t refl a e v
  fire-IsSafe push_step s t a e v = push_next-IsSafe s.push_pc s t refl e v
  fire-IsSafe calls_stop s t a e v = enter_stop-IsSafe s.stop_pc s t refl a e v
  fire-IsSafe stop_step s t a e v = stop_next-IsSafe s.stop_pc s t refl e v

  -- From a state in which neither thread is in a call, whatever the order of the calls and of their
  -- steps, so long as neither call begins while the other is under way: no freed source is used,
  -- the calls never overlap, and a source that `appsrc_` points to is alive but for the steps of
  -- `stop` between its release and the clearing of `appsrc_`.
  pub Steps-IsSafe :
      {p : Publisher} {sent : List (Buffer P)} {t : Shared P}
      → Steps (λ l s. Apart l s) (quiet p sent) t
      → IsSafe t
  Steps-IsSafe here = ground arith
  Steps-IsSafe (next {t = t} r l a e) = fire-IsSafe l t _ a e (Steps-IsSafe r)
