-- ===== src/VideoCore/Drain.antt =====
-- The loop `while (avcodec_receive_…(…) == 0)` of the encoders and decoders (video-core/src/encode and
-- src/decode): it ends, and takes exactly what the codec yields.
use direct_link.Base.{
  ℕ, zero, suc, ◌<◌, ◌≡◌, inl, inr, Option, none, some, List, [], ◌∷◌, arith, Option-cases,
}

module _ {S A : Type 0} (next : S → Option (A × S)) where
  -- On fuel.
  unfoldable pub drain : ℕ → S → S × List A
  drain zero s = (s, [])
  drain (suc n) s = elim (next s) [
    | none ↦ (s, [])
    | some (a, t) ↦ let (u, as') = drain n t in (u, a ∷ as')
  ]

  -- The codec yields these, one after the other, and then no more.
  pub data Gives : S → S → List A → Type 0 where
    ends : {s : S} → next s ≡ none → Gives s s []
    gives :
        {s u t : S} {as' : List A} (a : A)
        → next s ≡ some (a, u)
        → Gives u t as'
        → Gives s t (a ∷ as')

  pub drain-Gives :
      (pending : S → ℕ)
      → ((s t : S) (a : A) → next s ≡ some (a, t) → pending t < pending s)
      → (n : ℕ) (s : S) → pending s < n
      → Gives s (drain n s).0 (drain n s).1
  unfolding drain
  drain-Gives pending falls zero s h = elim h [ ]
  drain-Gives pending falls (suc n) s h = elim (Option-cases (next s)) [
    | inl e ↦ rw (e, drain) (ends e)
    | inr ((a, u), e) ↦
        rw (e, drain) (gives a e (drain-Gives pending falls n u (omega (arith, falls s u a e))))
  ]
