-- ===== src/Client/SessionClient/Answers.antt =====
-- How many signals an answer becomes (client/src/network/sessionclient.cpp), and which role joins.
use direct_link.Base.{
  ℕ, ◌+◌, ◌≡◌, refl, true, false, none, some, List, [], ◌∷◌, ◌++◌, length, length-append, arith,
}
use direct_link.Client.SessionClient.{
  Finished, creates, joins, closes, lists, not_ok, ok, Signal, on_finished,
}

-- The answers to CloseSession that say no, or cannot be read.
abbrev pub silent : Finished → ℕ
silent (closes (ok none)) = 1
silent (closes (ok (some false))) = 1
silent f = 0

pub emitted : List Finished → List Signal
unfolding on_finished
emitted [] = []
emitted (f ∷ fs) = on_finished f ++ emitted fs

abbrev pub silent_all : List Finished → ℕ
silent_all [] = 0
silent_all (f ∷ fs) = silent f + silent_all fs

on_finished-length : (f : Finished) → length (on_finished f) + silent f ≡ 1
unfolding on_finished
on_finished-length (creates (not_ok message)) = refl
on_finished-length (creates (ok none)) = refl
on_finished-length (creates (ok (some room_code))) = refl
on_finished-length (joins (not_ok message)) = refl
on_finished-length (joins (ok none)) = refl
on_finished-length (joins (ok (some resp))) = refl
on_finished-length (closes (not_ok message)) = refl
on_finished-length (closes (ok none)) = refl
on_finished-length (closes (ok (some true))) = refl
on_finished-length (closes (ok (some false))) = refl
on_finished-length (lists (not_ok message)) = refl
on_finished-length (lists (ok none)) = refl
on_finished-length (lists (ok (some sessions))) = refl

-- Whatever calls finish, in whatever order and with whatever answers, there are as many signals as calls, but
-- for the calls of CloseSession whose answer says no or cannot be read, which become none.
pub emitted-length : (fs : List Finished) → length (emitted fs) + silent_all fs ≡ length fs
unfolding emitted
emitted-length [] = refl
emitted-length (f ∷ fs) =
    omega
      (arith, length-append (on_finished f) (emitted fs), on_finished-length f, emitted-length fs)
