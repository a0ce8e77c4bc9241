-- ===== src/Networking/Publisher/Threads/Exclusion.antt =====
-- What `appsrcMutex_` (networking/src/whip_publisher.cpp) ensures.
use direct_link.Base.{◌≡◌, refl, Bool, true, false, ◌&&◌, ◌||◌, some, List, arith}
use direct_link.VideoCore.Types.{Packet}
use direct_link.Networking.Publisher.{Publisher, Buffer}
use direct_link.Networking.Publisher.Threads.{
  PushPc, StopPc, Shared, Label, calls_push, push_step, calls_stop, stop_step, fire, Steps, here,
  next, quiet, push_next, stop_next, enter_push, enter_stop,
}

abbrev pub stop_holds : StopPc → Bool
stop_holds StopPc.locked = true
stop_holds pc = false

module _ {P : Type 0} where
  abbrev pub push_holds : PushPc P → Bool
  push_holds (PushPc.locked b) = true
  push_holds (PushPc.pushing b) = true
  push_holds pc = false

  -- The mutex is held exactly while one of the two threads is in its critical section, and
  -- never both are.
  pub record Excludes (s : Shared P) : Type 0 where
    pub held : s.is_locked ≡ (push_holds s.push_pc || stop_holds s.stop_pc)
    pub not_both : (push_holds s.push_pc && stop_holds s.stop_pc) ≡ false

  push_next-Excludes :
      (pc : PushPc P) (s t : Shared P)
      → s.push_pc ≡ pc
      → push_next pc s ≡ some t
      → Excludes s
      → Excludes t
  unfolding push_next
  push_next-Excludes PushPc.outside s t h e v = ground arith
  push_next-Excludes _ s t h e v = ground arith

  stop_next-Excludes :
      (pc : StopPc) (s t : Shared P)
      → s.stop_pc ≡ pc
      → stop_next pc s ≡ some t
      → Excludes s
      → Excludes t
  unfolding stop_next
  stop_next-Excludes StopPc.outside s t h e v = ground arith
  stop_next-Excludes _ s t h e v = ground arith

  enter_push-Excludes :
      (packet : Packet P) (pc : PushPc P) (s t : Shared P)
      → s.push_pc ≡ pc
      → enter_push packet pc s ≡ some t
      → Excludes s
      → Excludes t
  unfolding enter_push
  enter_push-Excludes packet PushPc.outside s t h e v = ground arith
  enter_push-Excludes packet _ s t h e v = ground arith

  enter_stop-Excludes :
      (pc : StopPc) (s t : Shared P)
      → s.stop_pc ≡ pc
      → enter_stop pc s ≡ some t
      → Excludes s
      → Excludes t
  unfolding enter_stop
  enter_stop-Excludes StopPc.outside s t h e v = ground arith
  enter_stop-Excludes _ s t h e v = ground arith

  fire-Excludes : (l : Label P) (s t : Shared P) → fire l s ≡ some t → Excludes s → Excludes t
  unfolding fire
  fire-Excludes (calls_push packet) s t e v = enter_push-Excludes packet s.push_pc s t refl e v
  fire-Excludes push_step s t e v = push_next-Excludes s.push_pc s t refl e v
  fire-Excludes calls_stop s t e v = enter_stop-Excludes s.stop_pc s t refl e v
  fire-Excludes stop_step s t e v = stop_next-Excludes s.stop_pc s t refl e v

  -- From a state in which neither thread is in a call, in every interleaving: the mutex is held
  -- exactly while a thread tests and pushes to the source or ends the stream, and the two never
  -- do so together.
  pub Steps-Excludes :
      {p : Publisher} {sent : List (Buffer P)} {t : Shared P}
      → Steps (λ l s. Unit {0}) (quiet p sent) t
      → Excludes t
  Steps-Excludes here = record { held = refl; not_both = refl }
  Steps-Excludes (next {t = t} r l a e) = fire-Excludes l t _ e (Steps-Excludes r)
