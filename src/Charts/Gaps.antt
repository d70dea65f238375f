-- ===== src/Charts/Gaps.antt =====
-- Gaps in collected data: medianStep and splitGaps of components/charts/chartTheme.ts.
use everyup.Common.{
  ℕ, zero, suc, ◌+◌, ◌-◌, ◌*◌, ◌/◌, ◌<◌, Bool, false, Option, some, none, List, [], ◌∷◌, ◌≡◌, ◌&&◌,
  leb, ltb, if◌then◌else◌, length, sort_by, or_else,
}
use everyup.Charts.Axis.{Row}

abbrev item : ℕ → List ℕ → Option ℕ
item k [] = none
item zero (x ∷ xs) = some x
item (suc k) (x ∷ xs) = item k xs

-- `times.slice(1).map((t, i) => t - times[i])`, for times in their order.
abbrev pub diffs : List ℕ → List ℕ
diffs [] = []
diffs (t ∷ []) = []
diffs (t ∷ u ∷ ts) = (u - t) ∷ diffs (u ∷ ts)

unfoldable pub median_step : List ℕ → ℕ
unfolding sort_by
median_step times = let ds = sort_by leb (diffs times) in or_else (item (length ds / 2) ds) 0

-- Each gap is wider than two steps, and the hole stands a step after its start, so inside it.
abbrev pub AreFilled : ℕ → List (ℕ × ℕ) → List ℕ → Type 0
AreFilled step [] [] = Unit
AreFilled step ((a, b) ∷ gs) (t ∷ ts) =
    ((t ≡ a + step) × ((a < t) × (t + step < b))) × AreFilled step gs ts
AreFilled step [] (t ∷ ts) = ⊥
AreFilled step (g ∷ gs) [] = ⊥

-- Each row's time with that of the next.
abbrev pub consecutive : List ℕ → List (ℕ × ℕ)
consecutive [] = []
consecutive (t ∷ []) = []
consecutive (t ∷ u ∷ ts) = (t, u) ∷ consecutive (u ∷ ts)

abbrev pub is_wide : ℕ → ℕ × ℕ → Bool
is_wide step (a, b) = ltb 0 step && ltb (a + 2 * step) b

-- A row of the data, and a row with a time only, which breaks the line.
pub data Point {ℓ} (A : Type ℓ) : Type ℓ where
  real : Row A → Point A
  hole : (t : ℕ) → Point A

pub record Split {ℓ} (A : Type ℓ) : Type ℓ where
  pub rows : List (Point A)
  pub gaps : List (ℕ × ℕ)

module _ {ℓ} {A : Type ℓ} where
  -- `prev && step > 0 && row.t - prev.t > 2 * step`.
  abbrev pub is_gap : ℕ → Option (Row A) → Row A → Bool
  is_gap step none r = false
  is_gap step (some p) r = ltb 0 step && ltb (p.t + 2 * step) r.t

  abbrev hole_before : ℕ → Option (Row A) → Row A → List (Point A) → List (Point A)
  hole_before step none r out = out
  hole_before step (some p) r out = if is_gap step (some p) r then hole (p.t + step) ∷ out else out

  abbrev gap_before : ℕ → Option (Row A) → Row A → List (ℕ × ℕ) → List (ℕ × ℕ)
  gap_before step none r out = out
  gap_before step (some p) r out = if is_gap step (some p) r then (p.t, r.t) ∷ out else out

  -- The rounds of `forEach`, with the row before.
  rounds : ℕ → Option (Row A) → List (Row A) → Split A
  rounds step prev [] = record { rows = []; gaps = [] }
  rounds step prev (r ∷ rs) =
      let after = rounds step (some r) rs in
      record {
        rows = hole_before step prev r (real r ∷ after.rows);
        gaps = gap_before step prev r after.gaps;
      }

  unfoldable pub split_gaps : List (Row A) → ℕ → Split A
  unfolding rounds
  split_gaps rows step = rounds step none rows

  abbrev pub real_rows : List (Point A) → List (Row A)
  real_rows [] = []
  real_rows (real r ∷ ps) = r ∷ real_rows ps
  real_rows (hole t ∷ ps) = real_rows ps

  abbrev pub holes : List (Point A) → List ℕ
  holes [] = []
  holes (real r ∷ ps) = holes ps
  holes (hole t ∷ ps) = t ∷ holes ps
