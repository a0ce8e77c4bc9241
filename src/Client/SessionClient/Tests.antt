-- ===== src/Client/SessionClient/Tests.antt =====
-- A session that is created and then not closed, the service says.
use direct_link.Base.{List, ◌+◌, ◌≡◌, some, false, [], ◌∷◌, length}
use direct_link.Client.SessionClient.{Finished, creates, closes, ok}
use direct_link.Client.SessionClient.Answers.{silent_all, emitted, emitted-length}

abbrev two_calls : List Finished
two_calls = creates (ok (some "ABCD")) ∷ closes (ok (some false)) ∷ []

emitted-length_example : length (emitted two_calls) + silent_all two_calls ≡ 2
emitted-length_example = emitted-length two_calls
