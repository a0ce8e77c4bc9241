-- ===== src/Client/Task.antt =====
-- QtConcurrent::run with the QFutureWatcher that a member points to, as DirectorTransport
-- (client/src/directortransport.cpp) and CameraSessionController
-- (client/src/session/session_controller.cpp) both have it.
use direct_link.Base.{Bool, true, false}

-- The member: a null pointer, or a watcher whose function still runs in the pool, or has returned.
-- The slot of `finished` reads the result through the member and then clears it.
pub data Task (A : Type 0) : Type 0 where
  absent running : Task A
  returned : A → Task A

-- `(m_watcher != nullptr) && m_watcher->isRunning()`
abbrev pub is_running : {A : Type 0} → Task A → Bool
is_running running = true
is_running t = false

-- The tasks whose `finished` is posted and not yet delivered.
abbrev pub is_returned : {A : Type 0} → Task A → Bool
is_returned (returned a) = true
is_returned t = false

-- What a step of the program comes to. A null member that is read is a fault; `result()` of a
-- function that still runs blocks the main thread.
pub data Outcome (S : Type 0) : Type 0 where
  moves : S → Outcome S
  disabled : Outcome S  -- the step cannot be made now
  blocks faults : Outcome S

infixl 5 ◌>>=◌
abbrev pub ◌>>=◌ : {S T : Type 0} → Outcome S → (S → Outcome T) → Outcome T
moves s >>= k = k s
disabled >>= k = disabled
blocks >>= k = blocks
faults >>= k = faults

-- The step neither blocks nor faults, and its result, if it can be made, has the property.
abbrev pub Ensures : {S : Type 0} → (S → Type 0) → Outcome S → Type 0
Ensures P (moves s) = P s
Ensures P disabled = Unit
Ensures P blocks = ⊥
Ensures P faults = ⊥

-- `m_watcher->result()`, and the member is cleared.
abbrev pub take_result : {A : Type 0} → Task A → Outcome A
take_result absent = faults
take_result running = blocks
take_result (returned a) = moves a

pub bind-Ensures :
    {S T : Type 0} (P : S → Type 0) (Q : T → Type 0) (o : Outcome S) (k : S → Outcome T)
    → Ensures P o
    → ((s : S) → P s → Ensures Q (k s))
    → Ensures Q (o >>= k)
bind-Ensures P Q (moves s) k p h = h s p
bind-Ensures P Q disabled k p h = tt
bind-Ensures P Q blocks k p h = absurd p
bind-Ensures P Q faults k p h = absurd p

pub map-Ensures :
    {S : Type 0} (P Q : S → Type 0) (o : Outcome S)
    → Ensures P o
    → ((s : S) → P s → Q s)
    → Ensures Q o
map-Ensures P Q (moves s) p h = h s p
map-Ensures P Q disabled p h = tt
map-Ensures P Q blocks p h = absurd p
map-Ensures P Q faults p h = absurd p

-- The result of the step, if it comes to one, has the property.
abbrev pub OnMove : {S : Type 0} → (S → Type 0) → Outcome S → Type 0
OnMove P (moves s) = P s
OnMove P o = Unit

-- What a step ensures holds beside what its results have.
pub both-Ensures :
    {S : Type 0} (P Q : S → Type 0) (o : Outcome S)
    → Ensures P o
    → OnMove Q o
    → Ensures (λ s. P s × Q s) o
both-Ensures P Q (moves s) p q = (p, q)
both-Ensures P Q disabled p q = tt
both-Ensures P Q blocks p q = absurd p
both-Ensures P Q faults p q = absurd p
