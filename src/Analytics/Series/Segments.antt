-- ===== src/Analytics/Series/Segments.antt =====
-- src/planter_telemetry/analytics/model.py: what split_segments promises: the series in order, cut
-- exactly at the refills and the gaps.
use planter_telemetry.Prelude.{
  inr, refl, [], arith, inl, false, true, last_from, ◌≡◌, ◌++◌, Bool-cases, ◌∷◌, List,
}
use planter_telemetry.Analytics.Series.{
  cadence_seconds, is_break, gap_limit_of, split_from, split_segments, extend,
}
use planter_telemetry.Analytics.Model.{Sample}
use planter_telemetry.Prelude.Floats.{Floats}

unfoldable pub concat {ℓ} : {A : Type ℓ} → List (List A) → List A
concat [] = []
concat (xs ∷ xss) = xs ++ concat xss

module _ {F : Type 0} ⦃fl : Floats F⦄ (jump gap_limit : F) where
  -- No two consecutive samples, from `a` on, are a break.
  abbrev Unbroken : Sample F → List (Sample F) → Type 0
  Unbroken a [] = Unit
  Unbroken a (b ∷ rest) = (is_break jump gap_limit a b ≡ false) × Unbroken b rest

  -- The next segment, if there is one, begins with a break after `a`.
  abbrev BrokenAt : Sample F → List (List (Sample F)) → Type 0
  BrokenAt a [] = Unit
  BrokenAt a ([] ∷ segments) = ⊥
  BrokenAt a ((b ∷ rest) ∷ segments) = is_break jump gap_limit a b ≡ true

  -- Every segment has a sample and no break inside, and each pair of neighbours has a break between.
  abbrev pub IsCut : List (List (Sample F)) → Type 0
  IsCut [] = Unit
  IsCut ([] ∷ segments) = ⊥
  IsCut ((a ∷ rest) ∷ segments) =
      Unbroken a rest × BrokenAt (last_from a rest) segments × IsCut segments

  abbrev BeginsWith : Sample F → List (List (Sample F)) → Type 0
  BeginsWith a [] = ⊥
  BeginsWith a ([] ∷ segments) = ⊥
  BeginsWith a ((b ∷ rest) ∷ segments) = b ≡ a

  extend-IsCut :
      (a b : Sample F) (segments : List (List (Sample F)))
      → is_break jump gap_limit a b ≡ false
      → BeginsWith b segments
      → IsCut segments
      → IsCut (extend a segments) × BeginsWith a (extend a segments)
  unfolding extend
  extend-IsCut a b [] e w h = elim w [ ]
  extend-IsCut a b ([] ∷ segments) e w h = elim w [ ]
  extend-IsCut a b ((c ∷ rest) ∷ segments) e w h = (((rw w e, h.0), h.1, h.2), refl)

  cons-IsCut :
      (a b : Sample F) (segments : List (List (Sample F)))
      → is_break jump gap_limit a b ≡ true
      → BeginsWith b segments
      → IsCut segments
      → IsCut ((a ∷ []) ∷ segments)
  cons-IsCut a b [] e w h = elim w [ ]
  cons-IsCut a b ([] ∷ segments) e w h = elim w [ ]
  cons-IsCut a b ((c ∷ rest) ∷ segments) e w h = (tt, rw w e, h)

  split_from-IsCut :
      (a : Sample F) (rest : List (Sample F))
      → IsCut (split_from jump gap_limit a rest) × BeginsWith a (split_from jump gap_limit a rest)
  unfolding split_from
  split_from-IsCut a [] = ((tt, tt, tt), refl)
  split_from-IsCut a (b ∷ rest) = elim (Bool-cases (is_break jump gap_limit a b)) [
    | inl e ↦
        let (cut, begins) = split_from-IsCut b rest in
        rw e (cons-IsCut a b (split_from jump gap_limit b rest) e begins cut, refl)
    | inr e ↦
        let (cut, begins) = split_from-IsCut b rest in
        rw e (extend-IsCut a b (split_from jump gap_limit b rest) e begins cut)
  ]

  concat-extend :
      (a : Sample F) (segments : List (List (Sample F)))
      → concat (extend a segments) ≡ a ∷ concat segments
  unfolding concat extend
  concat-extend a [] = refl
  concat-extend a (s ∷ segments) = refl

  concat-split_from :
      (a : Sample F) (rest : List (Sample F)) → concat (split_from jump gap_limit a rest) ≡ a ∷ rest
  unfolding split_from concat
  concat-split_from a [] = refl
  concat-split_from a (b ∷ rest) =
      ground (arith, concat-split_from b rest, concat-extend a (split_from jump gap_limit b rest))

module _ {F : Type 0} ⦃fl : Floats F⦄ where
  -- split_segments loses and reorders no sample. Its segments are not empty; two consecutive samples
  -- are in one segment exactly when they are neither a refill (a step up of at least `jump`) nor
  -- further apart than the observed cadence allows.
  pub split_segments-IsCut :
      (samples : List (Sample F)) (jump gap_factor : F)
      → let segments = split_segments samples jump gap_factor in
        let gap_limit = gap_limit_of gap_factor (cadence_seconds samples) in
        (concat segments ≡ samples) × IsCut jump gap_limit segments
  unfolding split_segments concat
  split_segments-IsCut [] jump gap_factor = (refl, tt)
  split_segments-IsCut (a ∷ rest) jump gap_factor =
      let gap_limit = gap_limit_of gap_factor (cadence_seconds (a ∷ rest)) in
      (concat-split_from jump gap_limit a rest, (split_from-IsCut jump gap_limit a rest).0)
