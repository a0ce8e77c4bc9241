-- ===== src/Client/DirectorSession/Lookup.antt =====
-- The track map of client/src/directorsession.cpp as a map: which track stands under an identifier,
-- whatever the order of the keys.
use direct_link.Base.{
  ◌≡◌, refl, sym, ap, ap₂, ◌∙◌, true, false, Bool, if◌then◌else◌, ◌&&◌, ◌==◌, Option, none, some,
  is_some, List, [], ◌∷◌, inl, inr, Bool-cases, arith,
}
use direct_link.Client.DirectorSession.{
  Sid, less, Tracks, found, insert, erase, attach_track, detach_track, detach_all_tracks,
}
use direct_link.Client.DirectorSession.TrackMap.{
  less_irrefl, less_trans, IsSorted, IsBelow, Call, attaches, detaches, detaches_all, perform,
}

unfoldable pub eq_sid : Sid → Sid → Bool
eq_sid [] [] = true
eq_sid [] (b ∷ bs) = false
eq_sid (a ∷ as') [] = false
eq_sid (a ∷ as') (b ∷ bs) = let rest = eq_sid as' bs in (a == b) && rest

pub eq_sid-eq : (a b : Sid) → eq_sid a b ≡ true → a ≡ b
unfolding eq_sid
eq_sid-eq [] [] h = refl
eq_sid-eq [] (b ∷ bs) h = ground arith
eq_sid-eq (a ∷ as') [] h = ground arith
eq_sid-eq (a ∷ as') (b ∷ bs) h =
    ap₂ (λ x xs. x ∷ xs) (ground arith) (eq_sid-eq as' bs (ground arith))

pub eq_sid_refl : (a : Sid) → eq_sid a a ≡ true
unfolding eq_sid
eq_sid_refl [] = refl
eq_sid_refl (a ∷ as') = ground (arith, eq_sid_refl as')

pub neither_less : (a b : Sid) → less a b ≡ false → less b a ≡ false → a ≡ b
unfolding less
neither_less [] [] h k = refl
neither_less [] (b ∷ bs) h k = ground arith
neither_less (a ∷ as') [] h k = ground arith
neither_less (a ∷ as') (b ∷ bs) h k =
    ap₂ (λ x xs. x ∷ xs) (ground arith) (neither_less as' bs (ground arith) (ground arith))

eq_sid-less : (a b : Sid) → less a b ≡ true → eq_sid a b ≡ false
eq_sid-less a b h = elim (Bool-cases (eq_sid a b)) [
  | inr e ↦ e
  | inl e ↦ ground (arith, ap (λ x. less x b) (eq_sid-eq a b e) ∙ less_irrefl b)
]

eq_sid-greater : (a b : Sid) → less a b ≡ true → eq_sid b a ≡ false
eq_sid-greater a b h = elim (Bool-cases (eq_sid b a)) [
  | inr e ↦ e
  | inl e ↦ ground (arith, ap (λ x. less a x) (eq_sid-eq b a e) ∙ less_irrefl a)
]

-- A key equal to one that is less than another is not that other.
eq_sid-before : (k l sid : Sid) → eq_sid k l ≡ true → less l sid ≡ true → eq_sid k sid ≡ false
eq_sid-before k l sid n e = ap (λ x. eq_sid x sid) (eq_sid-eq k l n) ∙ eq_sid-less l sid e

module _ {T : Type 0} where
  unfoldable pub lookup : Sid → Tracks T → Option T
  lookup k [] = none
  lookup k ((l, t) ∷ m) = let rest = lookup k m in if eq_sid k l then some t else rest

  -- What a call does to the map, by identifiers: a new one gets its track, one that is there keeps
  -- its own.
  abbrev pub attached : Sid → Option T → (Sid → Option T) → Sid → Option T
  attached sid none g k = g k
  attached sid (some t) g k = if is_some (g sid) then g k else if eq_sid k sid then some t else g k

  abbrev pub view_after : Call T → (Sid → Option T) → Sid → Option T
  view_after (attaches made sid) g k = attached sid made g k
  view_after (detaches sid) g k = if eq_sid k sid then none else g k
  view_after detaches_all g k = none

  lookup-insert :
      (k sid : Sid) (t : T) (m : Tracks T)
      → lookup k (insert sid t m) ≡ (if eq_sid k sid then some t else lookup k m)
  unfolding lookup insert
  lookup-insert k sid t [] = refl
  lookup-insert k sid t ((l, u) ∷ m) = elim (Bool-cases (less l sid)) [
    | inr e ↦ rw e refl
    | inl e ↦ rw e (elim (Bool-cases (eq_sid k l)) [
      | inr n ↦ rw n (lookup-insert k sid t m)
      | inl n ↦ rw (eq_sid-before k l sid n e, n) refl
    ])
  ]

  -- A key that is below the whole map is not in it.
  pub lookup-IsBelow : (k : Sid) (m : Tracks T) → IsBelow k m → IsSorted m → lookup k m ≡ none
  unfolding lookup IsSorted
  lookup-IsBelow k [] b v = refl
  lookup-IsBelow k ((l, u) ∷ []) b v = rw (eq_sid-less k l b) refl
  lookup-IsBelow k ((l, u) ∷ (l', u') ∷ m) b (c, v) =
      rw (eq_sid-less k l b) (lookup-IsBelow k ((l', u') ∷ m) (less_trans k l l' b c) v)

  IsBelow-trans : (k l : Sid) (m : Tracks T) → less k l ≡ true → IsBelow l m → IsBelow k m
  IsBelow-trans k l [] h b = tt
  IsBelow-trans k l ((l', u) ∷ m) h b = less_trans k l l' h b

  found-lookup : (sid : Sid) (m : Tracks T) → IsSorted m → found sid m ≡ is_some (lookup sid m)
  unfolding found lookup IsSorted
  found-lookup sid [] v = refl
  found-lookup sid ((l, u) ∷ m) (b, v) = elim (Bool-cases (less l sid)) [
    | inl e ↦ rw (e, eq_sid-greater l sid e) (found-lookup sid m v)
    | inr e ↦ elim (Bool-cases (less sid l)) [
      | inl h ↦
          rw (e, h, eq_sid-less sid l h, lookup-IsBelow sid m (IsBelow-trans sid l m h b) v) refl
      | inr h ↦ rw (e, h, ap (λ x. eq_sid sid x) (neither_less l sid e h) ∙ eq_sid_refl sid) refl
    ]
  ]

  lookup-erase :
      (k sid : Sid) (m : Tracks T)
      → found sid m ≡ true
      → IsSorted m
      → lookup k (erase sid m) ≡ (if eq_sid k sid then none else lookup k m)
  unfolding found lookup erase IsSorted
  lookup-erase k sid [] h v = ground arith
  lookup-erase k sid ((l, u) ∷ m) h (b, v) = elim (Bool-cases (less l sid)) [
    | inl e ↦ elim (Bool-cases (eq_sid k l)) [
      | inl n ↦ rw (e, n, eq_sid-before k l sid n e) refl
      | inr n ↦ rw (e, n) (lookup-erase k sid m (ground arith) v)
    ]
    | inr e ↦
        let p = neither_less l sid e (ground arith) in
        elim (Bool-cases (eq_sid k sid)) [
          | inl n ↦
              rw (e, n) (ap (λ x. lookup x m) (eq_sid-eq k sid n ∙ sym p) ∙ lookup-IsBelow l m b v)
          | inr n ↦ rw (e, n, ap (λ x. eq_sid k x) p ∙ n) refl
        ]
  ]

  lookup-attach_track :
      (made : Option T) (sid : Sid) (m : Tracks T) (k : Sid)
      → IsSorted m
      → lookup k (attach_track m made sid).0 ≡ attached sid made (λ l. lookup l m) k
  unfolding attach_track
  lookup-attach_track none sid m k v = elim (Bool-cases (found sid m)) [
    | inl e ↦ rw e refl
    | inr e ↦ rw e refl
  ]
  lookup-attach_track (some t) sid m k v = elim (Bool-cases (found sid m)) [
    | inl e ↦ rw (e, sym (found-lookup sid m v) ∙ e) refl
    | inr e ↦ rw (e, sym (found-lookup sid m v) ∙ e) (lookup-insert k sid t m)
  ]

  lookup_missing :
      (k sid : Sid) (m : Tracks T)
      → is_some (lookup sid m) ≡ false
      → lookup k m ≡ (if eq_sid k sid then none else lookup k m)
  lookup_missing k sid m h = elim (Bool-cases (eq_sid k sid)) [
    | inl e ↦ rw e (ap (λ x. lookup x m) (eq_sid-eq k sid e) ∙ ground arith)
    | inr e ↦ rw e refl
  ]

  -- The track that stands under each identifier after a call is the one that the call, seen as a change of
  -- a map from identifiers, leaves there: `attachTrack` gives a new identifier its track and leaves a known one its
  -- own, `detachTrack` takes away the one identifier, and `detachAllTracks` all.
  pub lookup-perform :
      (call : Call T) (m : Tracks T) (k : Sid)
      → IsSorted m
      → lookup k (perform call m).0 ≡ view_after call (λ l. lookup l m) k
  unfolding perform detach_track detach_all_tracks
  lookup-perform (attaches made sid) m k v = lookup-attach_track made sid m k v
  lookup-perform (detaches sid) m k v = elim (Bool-cases (found sid m)) [
    | inl e ↦ rw e (lookup-erase k sid m e v)
    | inr e ↦ rw e (lookup_missing k sid m (sym (found-lookup sid m v) ∙ e))
  ]
  lookup-perform detaches_all m k v = unfold lookup in refl

  unfoldable pub views_after : List (Call T) → (Sid → Option T) → Sid → Option T
  views_after [] g = g
  views_after (c ∷ cs) g = views_after cs (view_after c g)
