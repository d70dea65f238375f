-- ===== src/Charts/Axis.antt =====
-- Ticks and buckets of a time axis: timeTicks and fillBuckets of components/charts/chartTheme.ts.
use mathlib.Core.Path.{subst}
use everyup.Common.{
  ℕ, zero, suc, ◌+◌, ◌-◌, ◌*◌, ◌/◌, ◌≤◌, ◌<◌, true, false, Option, some, none, List, [], ◌∷◌, ◌≡◌,
  refl, map, leb, nat_eq, if◌then◌else◌, find, sym, or_else, arith, Bool-cases, inl, inr, All, ap,
}

-- The instants that a loop visits: from `t` on, `step` apart, up to `to` and no further.
abbrev pub IsGrid : ℕ → ℕ → ℕ → List ℕ → Type 0
IsGrid step to t [] = to < t
IsGrid step to t (x ∷ xs) = (x ≡ t) × ((t ≤ to) × IsGrid step to (t + step) xs)

-- `for (let t = start; t <= to; t += step)`, on fuel for its rounds.
visits : ℕ → ℕ → ℕ → ℕ → List ℕ
visits zero step to t = []
visits (suc n) step to t = elim (leb t to) [ true ↦ t ∷ visits n step to (t + step) | false ↦ [] ]

visits_on :
    (n step to t : ℕ) → leb t to ≡ true → visits (suc n) step to t ≡ t ∷ visits n step to (t + step)
unfolding visits
visits_on n step to t e = ground arith

visits_over : (n step to t : ℕ) → leb t to ≡ false → visits (suc n) step to t ≡ []
unfolding visits
visits_over n step to t e = ground arith

-- Each round moves on by at least one.
visits-IsGrid : (n step to t : ℕ) → 0 < step → to < t + n → IsGrid step to t (visits n step to t)
unfolding visits
visits-IsGrid zero step to t h k = omega arith
visits-IsGrid (suc n) step to t h k = elim (Bool-cases (leb t to)) [
  | inl e ↦
      subst (IsGrid step to t) (sym (visits_on n step to t e))
        (refl, (ground arith, visits-IsGrid n step to (t + step) h (omega arith)))
  | inr e ↦ subst (IsGrid step to t) (sym (visits_over n step to t e)) (ground arith)
]

-- `-getTimezoneOffset()` in milliseconds: so far east of UTC, or west of it.
pub data Zone : Type 0 where
  east west : ℕ → Zone

abbrev pub to_local : Zone → ℕ → ℕ
to_local (east n) t = t + n
to_local (west n) t = t - n

abbrev pub to_utc : Zone → ℕ → ℕ
to_utc (east n) t = t - n
to_utc (west n) t = t + n

-- TICK_STEPS.
abbrev pub tick_steps : List ℕ
tick_steps =
    300000 ∷ 600000 ∷ 900000 ∷ 1800000 ∷ 3600000 ∷ 7200000 ∷ 10800000 ∷ 21600000 ∷ 43200000
    ∷ 86400000 ∷ []

-- `(to - from) / s <= 8`, the quotient not rounded.
unfoldable pub tick_step : ℕ → ℕ → ℕ
tick_step start to = or_else (find (λ s. leb to (start + 8 * s)) tick_steps) 86400000

unfoldable pub first_tick : Zone → ℕ → ℕ → ℕ
first_tick zone start step = to_utc zone ((to_local zone start + (step - 1)) / step * step)

unfoldable pub time_ticks : Zone → ℕ → ℕ → List ℕ
unfolding visits
time_ticks zone start to =
    let step = tick_step start to in
    let t = first_tick zone start step in visits (to + 1 - t) step to t

-- A row of a chart: its time `t`, and the rest of it.
pub record Row {ℓ} (A : Type ℓ) : Type ℓ where
  pub t : ℕ
  pub rest : A

module _ {ℓ} {A : Type ℓ} where
  abbrev pub slot : ℕ → Row A → ℕ
  slot step r = r.t / step * step

  -- `new Map(rows.map(...)).get(t)`: the last row of a slot wins.
  abbrev pub by_slot : ℕ → ℕ → List (Row A) → Option (Row A)
  by_slot step t [] = none
  by_slot step t (r ∷ rs) = elim (by_slot step t rs) [
    | some s ↦ some s
    | none ↦ if nat_eq (slot step r) t then some r else none
  ]

  -- `row ? { ...row, t } : empty(t)`.
  abbrev pub placed : (ℕ → Row A) → ℕ → Option (Row A) → Row A
  placed empty t none = empty t
  placed empty t (some r) = record r { t = t }

  bucket_at : ℕ → (ℕ → Row A) → List (Row A) → ℕ → Row A
  bucket_at step empty rows t = placed empty t (by_slot step t rows)

  unfoldable pub fill_buckets : List (Row A) → ℕ → ℕ → ℕ → (ℕ → Row A) → List (Row A)
  unfolding bucket_at visits
  fill_buckets rows start to step empty =
      let t = start / step * step in map (bucket_at step empty rows) (visits (to + 1 - t) step to t)

  placed_time :
      (empty : ℕ → Row A) (t : ℕ) (o : Option (Row A))
      → ((u : ℕ) → (empty u).t ≡ u)
      → (placed empty t o).t ≡ t
  placed_time empty t none h = h t
  placed_time empty t (some r) h = refl

  bucket_time :
      (rows : List (Row A)) (step : ℕ) (empty : ℕ → Row A) (t : ℕ)
      → ((u : ℕ) → (empty u).t ≡ u)
      → (bucket_at step empty rows t).t ≡ t
  unfolding bucket_at
  bucket_time rows step empty t h = placed_time empty t (by_slot step t rows) h

  times_of_filled :
      (rows : List (Row A)) (step : ℕ) (empty : ℕ → Row A) (ts : List ℕ)
      → ((u : ℕ) → (empty u).t ≡ u)
      → map (λ r. r.t) (map (bucket_at step empty rows) ts) ≡ ts
  times_of_filled rows step empty [] h = refl
  times_of_filled rows step empty (t ∷ ts) h =
      rw (bucket_time rows step empty t h) (ap (λ x. t ∷ x) (times_of_filled rows step empty ts h))

  filled_row :
      (rows : List (Row A)) (step : ℕ) (empty : ℕ → Row A) (t : ℕ)
      → (bucket_at step empty rows t).t ≡ t
      → bucket_at step empty rows t
        ≡ placed empty
            (bucket_at step empty rows t).t
            (by_slot step (bucket_at step empty rows t).t rows)
  unfolding bucket_at
  filled_row rows step empty t e = sym (ap (λ u. placed empty u (by_slot step u rows)) e)

  filled_rows :
      (rows : List (Row A)) (step : ℕ) (empty : ℕ → Row A) (ts : List ℕ)
      → ((u : ℕ) → (empty u).t ≡ u)
      → All (λ e. e ≡ placed empty e.t (by_slot step e.t rows)) (map (bucket_at step empty rows) ts)
  filled_rows rows step empty [] h = tt
  filled_rows rows step empty (t ∷ ts) h = (
    filled_row rows step empty t (bucket_time rows step empty t h),
    filled_rows rows step empty ts h,
  )

  -- The filled rows stand one for each slot of the window, from the slot that the window starts in
  -- to its end, each at the start of its slot, if the step is positive and an empty row stands at
  -- the time that it is made for. Each of them is the last row of the data in its slot, moved to
  -- the start of the slot, and the empty row where the data has none.
  pub fill_buckets_lem :
      (rows : List (Row A)) (start to step : ℕ) (empty : ℕ → Row A)
      → 0 < step
      → ((t : ℕ) → (empty t).t ≡ t)
      → IsGrid step to
          (start / step * step)
          (map (λ r. r.t) (fill_buckets rows start to step empty))
        × All
            (λ e. e ≡ placed empty e.t (by_slot step e.t rows))
            (fill_buckets rows start to step empty)
  unfolding fill_buckets
  fill_buckets_lem rows start to step empty p h = (
    subst (IsGrid step to (start / step * step))
        (sym (
          times_of_filled rows step empty
            (visits (to + 1 - start / step * step) step to (start / step * step)) h))
        (visits-IsGrid (to + 1 - start / step * step) step to (start / step * step) p
          (omega arith)),
    filled_rows rows step empty _ h,
  )
