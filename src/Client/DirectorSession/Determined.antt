-- ===== src/Client/DirectorSession/Determined.antt =====
-- The track map of client/src/directorsession.cpp, which what stands under each identifier
-- determines, order included; and what one identifier sees of a sequence of calls.
use mathlib.Core.Path.{subst}
use mathlib.Core.Option.{some-injective}
use direct_link.Base.{
  ◌≡◌, refl, sym, ap, ap₂, ◌∙◌, true, false, Bool, if◌then◌else◌, Option, none, some, is_some, List,
  [], ◌∷◌, inl, inr, Bool-cases, arith,
}
use direct_link.Client.DirectorSession.{Sid, less, Tracks}
use direct_link.Client.DirectorSession.TrackMap.{
  IsSorted, IsBelow, Call, attaches, detaches, detaches_all,
}
use direct_link.Client.DirectorSession.Lookup.{
  eq_sid, eq_sid-eq, eq_sid_refl, neither_less, lookup, lookup-IsBelow, view_after, attached,
}

module _ {T : Type 0} where
  lookup_head : (k : Sid) (t : T) (m : Tracks T) → lookup k ((k, t) ∷ m) ≡ some t
  unfolding lookup
  lookup_head k t m = rw (eq_sid_refl k) refl

  -- A map that begins below another has a key that the other lacks.
  lookup_first :
      (k : Sid) (t : T) (m n : Tracks T)
      → IsBelow k n
      → IsSorted n
      → lookup k ((k, t) ∷ m) ≡ lookup k n
      → ⊥
  lookup_first k t m n b w h =
      let e : none ≡ some t = sym (lookup-IsBelow k n b w) ∙ sym h ∙ lookup_head k t m in
      ground (arith, e)

  lookup_tail :
      (k j : Sid) (t u : T) (m n : Tracks T)
      → IsSorted ((k, t) ∷ m)
      → IsSorted ((k, u) ∷ n)
      → lookup j ((k, t) ∷ m) ≡ lookup j ((k, u) ∷ n)
      → lookup j m ≡ lookup j n
  unfolding lookup IsSorted
  lookup_tail k j t u m n (b, v) (c, w) h = elim (Bool-cases (eq_sid j k)) [
    | inl e ↦
        let p = eq_sid-eq j k e in
        ap (λ x. lookup x m) p
        ∙ lookup-IsBelow k m b v
        ∙ sym (lookup-IsBelow k n c w)
        ∙ sym (ap (λ x. lookup x n) p)
    | inr e ↦ ground (arith, h, e)
  ]

  IsSorted-tail : (k : Sid) (t : T) (m : Tracks T) → IsSorted ((k, t) ∷ m) → IsSorted m
  unfolding IsSorted
  IsSorted-tail k t m v = v.1

  heads_agree :
      (k l : Sid) (t u : T) (m n : Tracks T)
      → k ≡ l
      → IsSorted ((k, t) ∷ m)
      → IsSorted ((l, u) ∷ n)
      → ((j : Sid) → lookup j ((k, t) ∷ m) ≡ lookup j ((l, u) ∷ n))
      → (IsSorted m → IsSorted n → ((j : Sid) → lookup j m ≡ lookup j n) → m ≡ n)
      → (k, t) ∷ m ≡ (l, u) ∷ n
  heads_agree k l t u m n p v w h tails =
      let w' : IsSorted ((k, u) ∷ n) = subst (λ x. IsSorted ((x, u) ∷ n)) (sym p) w in
      let h' : (j : Sid) → lookup j ((k, t) ∷ m) ≡ lookup j ((k, u) ∷ n) =
        λ j. h j ∙ ap (λ x. lookup j ((x, u) ∷ n)) (sym p) in
      let same : t ≡ u = some-injective t u (sym (lookup_head k t m) ∙ h' k ∙ lookup_head k u n) in
      ap₂ (λ x xs. x ∷ xs) (ap₂ (λ x y. (x, y)) p same)
        (tails (IsSorted-tail k t m v) (IsSorted-tail k u n w')
          (λ j. lookup_tail k j t u m n v w' (h' j)))

  -- Two maps in order with the same track under each identifier are the same, rows included.
  pub lookup_ext :
      (m n : Tracks T) → IsSorted m → IsSorted n → ((k : Sid) → lookup k m ≡ lookup k n) → m ≡ n
  unfolding IsSorted
  lookup_ext [] [] v w h = refl
  lookup_ext [] ((l, u) ∷ n) v w h = absurd (lookup_first l u n [] tt v (sym (h l)))
  lookup_ext ((k, t) ∷ m) [] v w h = absurd (lookup_first k t m [] tt w (h k))
  lookup_ext ((k, t) ∷ m) ((l, u) ∷ n) v w h = elim (Bool-cases (less k l)) [
    | inl e ↦ absurd (lookup_first k t m ((l, u) ∷ n) e w (h k))
    | inr e ↦ elim (Bool-cases (less l k)) [
      | inl g ↦ absurd (lookup_first l u n ((k, t) ∷ m) g v (sym (h l)))
      | inr g ↦ heads_agree k l t u m n (neither_less k l e g) v w h (lookup_ext m n)
    ]
  ]

  -- Whether a call may change what stands under an identifier.
  abbrev pub is_about : Sid → Call T → Bool
  is_about k (attaches made sid) = eq_sid k sid
  is_about k (detaches sid) = eq_sid k sid
  is_about k detaches_all = true

  unfoldable pub calls_about : Sid → List (Call T) → List (Call T)
  calls_about k [] = []
  calls_about k (c ∷ cs) = let rest = calls_about k cs in if is_about k c then c ∷ rest else rest

  -- What stands under the identifier of a call afterwards, by what stood there.
  abbrev pub seen_after : Call T → Option T → Option T
  seen_after (attaches made sid) none = made
  seen_after (attaches made sid) (some t) = some t
  seen_after (detaches sid) o = none
  seen_after detaches_all o = none

  seen_attached :
      (made o : Option T) (g : Sid → Option T) (sid : Sid)
      → g sid ≡ o
      → attached sid made g sid ≡ seen_after (attaches made sid) o
  seen_attached none none g sid e = e
  seen_attached none (some t) g sid e = e
  seen_attached (some u) none g sid e = rw (e, eq_sid_refl sid) refl
  seen_attached (some u) (some t) g sid e = rw e refl

  attached_here :
      (k sid : Sid) (made : Option T) (g : Sid → Option T)
      → k ≡ sid
      → attached sid made g k ≡ seen_after (attaches made sid) (g k)
  attached_here k sid made g p = rw p (seen_attached made (g sid) g sid refl)

  attached_elsewhere :
      (k sid : Sid) (made : Option T) (g : Sid → Option T)
      → eq_sid k sid ≡ false
      → attached sid made g k ≡ g k
  attached_elsewhere k sid none g e = refl
  attached_elsewhere k sid (some t) g e = elim (Bool-cases (is_some (g sid))) [
    | inl h ↦ rw h refl
    | inr h ↦ rw (h, e) refl
  ]

  pub view_after_lem :
      (k : Sid) (c : Call T) (g : Sid → Option T)
      → view_after c g k ≡ (if is_about k c then seen_after c (g k) else g k)
  view_after_lem k (attaches made sid) g = elim (Bool-cases (eq_sid k sid)) [
    | inl e ↦ rw e (attached_here k sid made g (eq_sid-eq k sid e))
    | inr e ↦ rw e (attached_elsewhere k sid made g e)
  ]
  view_after_lem k (detaches sid) g = refl
  view_after_lem k detaches_all g = refl
