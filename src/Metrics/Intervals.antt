-- ===== src/Metrics/Intervals.antt =====
-- No growth of a series is counted in two rates: features/metrics/metricSeries.ts.
use everyup.Common.{
  ℕ, ◌+◌, ◌≤◌, ◌<◌, String, Bool, true, false, Option, some, none, List, [], ◌∷◌, ◌≡◌, refl, sym,
  ap, ◌∙◌, ◌==◌, arith, Bool-cases, inl, inr, All, sort_by, sort_by-IsSorted, IsSorted, eq_iff,
}
use everyup.Metrics.Rates.{
  OtelMetricPoint, Rate, rate_of, rates_from, metric_rates, recorded, earlier, point_identity, ends,
}

-- The nanoseconds over which a rate counts.
abbrev pub elapsed : Rate → ℕ
elapsed (Rate.per n t) = t
elapsed Rate.no_rate = 0

abbrev pub is_counted : Rate → Bool
is_counted (Rate.per n t) = true
is_counted Rate.no_rate = false

module _ {A : Type 0} (series_identity : Option A → String) where
  -- The time over which the rate of `p` counts is not empty.
  abbrev pub IsTimed : OtelMetricPoint A × Rate → Type 0
  IsTimed (p, r) = is_counted r ≡ true → 0 < elapsed r

  -- The time over which the rate of `p` counts begins at or after the instant of `q`.
  abbrev pub Follows : OtelMetricPoint A → OtelMetricPoint A × Rate → Type 0
  Follows q (p, r) =
      is_counted r ≡ true
      → point_identity series_identity q ≡ point_identity series_identity p
      → ends series_identity q + elapsed r ≤ ends series_identity p

  abbrev pub AreDisjoint : List (OtelMetricPoint A × Rate) → Type 0
  AreDisjoint [] = Unit
  AreDisjoint (x ∷ xs) = All (Follows (x.0)) xs × AreDisjoint xs

  rate_of-IsTimed :
      (p : OtelMetricPoint A) (last : Option (OtelMetricPoint A))
      → IsTimed (p, rate_of series_identity p last)
  unfolding rate_of
  rate_of-IsTimed p none h = ground arith
  rate_of-IsTimed p (some l) h = ground arith

  rate_of-elapsed :
      (p l : OtelMetricPoint A)
      → is_counted (rate_of series_identity p (some l)) ≡ true
      → ends series_identity l + elapsed (rate_of series_identity p (some l))
        ≤ ends series_identity p
  unfolding rate_of
  rate_of-elapsed p l h = ground arith

  follows_last :
      (q l p : OtelMetricPoint A) (o : Option (OtelMetricPoint A))
      → o ≡ some l
      → ends series_identity q ≤ ends series_identity l
      → is_counted (rate_of series_identity p o) ≡ true
      → ends series_identity q + elapsed (rate_of series_identity p o) ≤ ends series_identity p
  follows_last q l p o e k = rw e (λ h. omega (arith, k, rate_of-elapsed p l h))

  -- The last point of the series of `q` is `q` or a later one.
  abbrev IsReached : OtelMetricPoint A → (String → Option (OtelMetricPoint A)) → Type 0
  IsReached q previous =
      (l : OtelMetricPoint A) × ((previous (point_identity series_identity q) ≡ some l)
        × (ends series_identity q ≤ ends series_identity l))

  IsReached-recorded :
      (q p : OtelMetricPoint A) (previous : String → Option (OtelMetricPoint A))
      → IsReached q previous
      → ends series_identity q ≤ ends series_identity p
      → IsReached q (recorded series_identity p previous)
  IsReached-recorded q p previous (l, (e, k)) h =
      elim (Bool-cases (point_identity series_identity q == point_identity series_identity p)) [
        | inl b ↦ (p, (rw b refl, h))
        | inr b ↦ (l, (rw b e, k))
      ]

  earlier_at_end :
      (q p : OtelMetricPoint A)
      → earlier series_identity q p ≡ true
      → ends series_identity q ≤ ends series_identity p
  earlier_at_end q p h = ground arith

  all_follow :
      (q : OtelMetricPoint A) (previous : String → Option (OtelMetricPoint A))
      (ps : List (OtelMetricPoint A))
      → IsReached q previous
      → All (λ p. earlier series_identity q p ≡ true) ps
      → All (Follows q) (rates_from series_identity previous ps)
  unfolding rates_from
  all_follow q previous [] r h = tt
  all_follow q previous (p ∷ ps) (l, (e, k)) h = (
    λ c s.
        follows_last q l p (previous (point_identity series_identity p)) (ap previous (sym s) ∙ e) k
          c,
    all_follow q (recorded series_identity p previous) ps
        (IsReached-recorded q p previous (l, (e, k)) (earlier_at_end q p h.0)) h.1,
  )

  recorded_self :
      (p : OtelMetricPoint A) (previous : String → Option (OtelMetricPoint A))
      → IsReached p (recorded series_identity p previous)
  recorded_self p previous = (
    p,
    (
      ground (arith, eq_iff (point_identity series_identity p) (point_identity series_identity p)),
      omega arith,
    ),
  )

  rates_disjoint :
      (previous : String → Option (OtelMetricPoint A)) (ps : List (OtelMetricPoint A))
      → IsSorted (earlier series_identity) ps
      → AreDisjoint (rates_from series_identity previous ps)
        × All IsTimed (rates_from series_identity previous ps)
  unfolding rates_from
  rates_disjoint previous [] h = (tt, tt)
  rates_disjoint previous (p ∷ ps) h =
      let (d, t) = rates_disjoint (recorded series_identity p previous) ps h.1 in
      (
        (all_follow p (recorded series_identity p previous) ps (recorded_self p previous) h.0, d),
        (rate_of-IsTimed p (previous (point_identity series_identity p)), t),
      )

  earlier_total :
      (a b : OtelMetricPoint A)
      → earlier series_identity a b ≡ false
      → earlier series_identity b a ≡ true
  earlier_total a b h = ground arith

  earlier_trans :
      (a b c : OtelMetricPoint A)
      → earlier series_identity a b ≡ true
      → earlier series_identity b c ≡ true
      → earlier series_identity a c ≡ true
  earlier_trans a b c h k = ground arith

  -- In whatever order the points of a response stand, no time is counted in two rates of one
  -- series: each rate counts over a time that is not empty, ends at its point, and begins no earlier
  -- than any point of the series before it.
  pub metric_rates-AreDisjoint :
      (points : List (OtelMetricPoint A))
      → AreDisjoint (metric_rates series_identity points)
        × All IsTimed (metric_rates series_identity points)
  unfolding metric_rates
  metric_rates-AreDisjoint points =
      rates_disjoint (λ k. none) (sort_by (earlier series_identity) points)
        (sort_by-IsSorted (earlier series_identity) earlier_total earlier_trans points)
