-- ===== src/Client/DirectorTransport/Reached.antt =====
-- The states that DirectorTransport (client/src/directortransport.cpp) reaches from its construction.
use mathlib.Core.Path.{subst}
use direct_link.Base.{◌≡◌, List, arith}
use direct_link.Client.Task.{OnMove, moves}
use direct_link.Client.DirectorTransport.{Transport, Signal, new}
use direct_link.Client.DirectorTransport.Steps.{Label, fire}
use direct_link.Client.DirectorTransport.Invariant.{Allowed}
use direct_link.Client.DirectorTransport.Rooms.{IsHeld, Waits, fire-IsHeld}

module _ {T : Type 0} where
  -- Each step is one that the callers' rule admits in its state.
  pub data Reached (Admits : Label T → Transport T → Type 0) : Transport T → Type 0 where
    begins : Reached Admits new
    steps :
        {t u : Transport T} {ss : List Signal} (l : Label T)
        → Reached Admits t
        → Admits l t
        → fire l t ≡ moves (u, ss)
        → Reached Admits u

  -- What the callers keep to: `connectToRoom` is not called between the return of Connect and the
  -- delivery of its `finished`, and neither `disconnectFromRoom` nor `shutdown` while Connect runs.
  abbrev pub Careful : Label T → Transport T → Type 0
  Careful l t = Allowed l t × Waits l t

  -- In every state that is reached from the construction, in any order of steps, if `disconnectFromRoom`
  -- and `shutdown` are never called while Connect runs: while Connect runs, the room that it was called on is there.
  pub Reached-IsHeld : {t : Transport T} → Reached (λ l s. Waits l s) t → IsHeld t
  Reached-IsHeld begins = unfold IsHeld in λ h. ground arith
  Reached-IsHeld (steps l r a e) =
      subst (λ o. OnMove (λ q. IsHeld q.0) o) e (fire-IsHeld l _ a (Reached-IsHeld r))
