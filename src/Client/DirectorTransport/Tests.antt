-- ===== src/Client/DirectorTransport/Tests.antt =====
-- DirectorTransport at concrete moments, with tracks that are numbers.
use direct_link.Base.{ap, inl, inr, Bool-cases, List, ◌≡◌, refl, ℕ, true, false, some, [], ◌∷◌}
use direct_link.Client.Task.{returned, absent, moves, faults, Ensures}
use direct_link.Client.DirectorSession.{Sid, Tracks}
use direct_link.Client.DirectorTransport.{
  connect_to_room, Transport, Status, Posted, new, state_changed, RoomEvent, track_subscribed,
  track_unsubscribed,
}
use direct_link.Client.DirectorTransport.Steps.{
  Label, connects, disconnects, connect_returns, runs_posted, room_calls, fire, run,
}
use direct_link.Client.DirectorTransport.Connecting.{
  under_way, overlapping_connects_fault, disconnect_under_connect_faults,
}
use direct_link.Client.DirectorTransport.Rooms.{IsHeld, Waits}
use direct_link.Client.DirectorTransport.Reached.{Reached, begins, steps, Reached-IsHeld}
use direct_link.Client.DirectorTransport.Watching.{eventual, calls_by_all}
use direct_link.Client.DirectorTransport.Subscriptions.{run-lookup}
use direct_link.Client.DirectorTransport.Orders.{SameAbout, run-order}
use direct_link.Client.DirectorSession.Determined.{calls_about}
use direct_link.Client.DirectorSession.Lookup.{lookup, views_after, eq_sid, eq_sid-eq}
use direct_link.Client.DirectorSession.TrackMap.{IsSorted}

abbrev fresh : Transport ℕ
fresh = new

-- Connect has succeeded, and its `finished` waits.
abbrev arrived : Transport ℕ
arrived = record fresh {
  room = some 0;
  rooms_made = 1;
  status = Status.connecting;
  connect_task = returned true;
  posted = Posted.finishes ∷ [];
}

abbrev connecting : Transport ℕ
connecting = under_way fresh

abbrev sid_a : Sid
sid_a = 84 ∷ 82 ∷ 95 ∷ 97 ∷ []

abbrev watching : Transport ℕ
watching = record arrived {
  status = Status.connected;
  session = some [];
  connect_task = absent;
  posted = [];
}

overlapping_connects_fault_example :
    run (connects "t" "u" ∷ connect_returns false ∷ runs_posted ∷ runs_posted ∷ []) arrived ≡ faults
overlapping_connects_fault_example =
    overlapping_connects_fault arrived "t" "u" true false refl refl refl

disconnect_under_connect_faults_example :
    run (disconnects ∷ connect_returns true ∷ []) connecting ≡ faults
disconnect_under_connect_faults_example = disconnect_under_connect_faults connecting true refl refl

starts : fire (connects "t" "u") fresh ≡ moves (connecting, state_changed Status.connecting ∷ [])
unfolding fire connect_to_room
starts = refl

connecting-Reached : Reached (λ l s. Waits l s) connecting
connecting-Reached = steps (connects "t" "u") begins tt starts

Reached-IsHeld_example : IsHeld connecting
Reached-IsHeld_example = Reached-IsHeld connecting-Reached

abbrev subscribes : RoomEvent ℕ
subscribes = track_subscribed (some (true, some 7)) (some sid_a)

abbrev comes_and_goes : List (Label ℕ)
comes_and_goes =
    room_calls subscribes ∷ runs_posted ∷ room_calls (track_unsubscribed (some sid_a)) ∷ []

nothing-IsSorted : IsSorted {T = ℕ} []
unfolding IsSorted
nothing-IsSorted = tt

run-lookup_example :
    Ensures
      (λ q.
        (n : Tracks ℕ) × (eventual q.0 ≡ some n)
        × ((k : Sid) → lookup k n ≡ views_after (calls_by_all comes_and_goes) (λ l. lookup l []) k))
      (run comes_and_goes watching)
run-lookup_example =
    run-lookup comes_and_goes watching [] (tt, (tt, (tt, tt))) refl refl nothing-IsSorted

abbrev sid_b : Sid
sid_b = 84 ∷ 82 ∷ 95 ∷ 98 ∷ []

abbrev subscribes_b : Label ℕ
subscribes_b = room_calls (track_subscribed (some (true, some 8)) (some sid_b))

abbrev leaves : Label ℕ
leaves = room_calls (track_unsubscribed (some sid_a))

-- The one track comes first and goes last, each event taken at once.
abbrev around : List (Label ℕ)
around =
    room_calls subscribes ∷ runs_posted ∷ subscribes_b ∷ runs_posted ∷ leaves ∷ runs_posted ∷ []

-- The other track comes first, and all is taken at the end.
abbrev after : List (Label ℕ)
after = subscribes_b ∷ room_calls subscribes ∷ leaves ∷ runs_posted ∷ runs_posted ∷ runs_posted ∷ []

same_events : SameAbout (calls_by_all around) (calls_by_all after)
unfolding calls_about
same_events k = elim (Bool-cases (eq_sid k sid_a)) [
  | inl e ↦ rw (e, ap (λ x. eq_sid x sid_b) (eq_sid-eq k sid_a e)) (unfold eq_sid in refl)
  | inr e ↦ rw e refl
]

run-order_example :
    Ensures
      (λ q. Ensures (λ r. eventual q.0 ≡ eventual r.0) (run after watching))
      (run around watching)
run-order_example =
    run-order around after watching (tt, (tt, (tt, (tt, (tt, (tt, tt))))))
      (tt, (tt, (tt, (tt, (tt, (tt, tt)))))) refl nothing-IsSorted same_events
