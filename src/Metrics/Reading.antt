-- ===== src/Metrics/Reading.antt =====
-- What the loading of a metric keeps, in any order of its requests and answers:
-- features/metrics/useMetricRead.ts.
use everyup.Common.{
  suc, String, ◌&&◌, if◌then◌else◌, Bool, true, false, Option, some, none, ◌≡◌, refl, sym, ap, ◌∙◌,
  ◌⊎◌, inl, inr, is_some, Bool-cases, arith, eq_iff,
}
use everyup.Uptime.Detail.{Settled, fulfilled, rejected}
use everyup.Metrics.Read.{
  MetricSource, MetricWindow, Input, MetricRead, Stage, run_read, first_read, settle_data,
  settle_quantiles, retry, same_key, shown_error, quantiles_loading, is_loaded, wants_quantiles,
  is_distributed, unread, same_source,
}

same_source_refl : (a : MetricSource) → same_source a a ≡ true
same_source_refl (MetricSource.agent a k) = ground (arith, eq_iff a a, eq_iff k k)
same_source_refl (MetricSource.direct a) = ground (arith, eq_iff a a)

same_key_refl : (i : Input) → same_key i i ≡ true
unfolding same_key
same_key_refl i = ground (
  arith,
  same_source_refl i.source,
  eq_iff i.selection i.selection,
  eq_iff i.from i.from,
  eq_iff i.to i.to,
)

not_loading : (w l d : Bool) → d ≡ true → (w && (l && (if d then false else true))) ≡ false
not_loading w l d h = ground arith

not_wanted : (w x : Bool) → w ≡ false → (w && x) ≡ false
not_wanted w x h = ground arith

abbrev awaits_data : Option Stage → Bool
awaits_data (some Stage.of_data) = true
awaits_data _ = false

module _ {D Q : Type 0} (type_of : String → String) where
  -- A change of the key or of the window, an answer to the request that is running, or one to a
  -- request that its cleanup has cancelled.
  pub data ReadEvent (s : MetricRead D Q) : MetricRead D Q → Type 0 where
    changed : (i : Input) (w : MetricWindow) → ReadEvent s (run_read i w s)
    retried : ReadEvent s (retry s)
    data_answered :
        (r : Settled D)
        → s.running ≡ some Stage.of_data
        → ReadEvent s (settle_data type_of false s.input s.window r s)
    quantiles_answered :
        (r : Settled Q)
        → s.running ≡ some Stage.of_quantiles
        → ReadEvent s (settle_quantiles false s.input r s)
    data_late :
        (i : Input) (w : MetricWindow) (r : Settled D)
        → ReadEvent s (settle_data type_of true i w r s)
    quantiles_late : (i : Input) (r : Settled Q) → ReadEvent s (settle_quantiles true i r s)

  pub data ReadReached : MetricRead D Q → Type 0 where
    mounted : (i : Input) (w : MetricWindow) → ReadReached (first_read i w)
    went_on : (s t : MetricRead D Q) → ReadReached s → ReadEvent s t → ReadReached t

  abbrev pub IsAnswered : Option Stage → MetricRead D Q → Type 0
  IsAnswered none s =
      (is_some (shown_error s) ≡ true)
      ⊎ ((is_loaded s ≡ true) × (quantiles_loading type_of s ≡ false))
  IsAnswered (some Stage.of_data) s = shown_error s ≡ none
  IsAnswered (some Stage.of_quantiles) s =
      (shown_error s ≡ none) × ((is_loaded s ≡ true) × (wants_quantiles type_of s.input ≡ true))

  abbrev pub IsReading : MetricRead D Q → Type 0
  IsReading s = (s.pending ≡ is_some s.running) × IsAnswered s.running s

  run_read-IsReading :
      (i : Input) (w : MetricWindow) (s : MetricRead D Q) → IsReading (run_read i w s)
  unfolding run_read shown_error
  run_read-IsReading i w s = (refl, refl)

  IsAnswered-as :
      (s : MetricRead D Q) (o : Option Stage)
      → IsAnswered s.running s
      → s.running ≡ o
      → IsAnswered o s
  IsAnswered-as s o h e = rw (sym e) h

  settle_data-IsReading :
      (r : Settled D) (s : MetricRead D Q)
      → IsReading s
      → s.running ≡ some Stage.of_data
      → IsReading (settle_data type_of false s.input s.window r s)
  unfolding settle_data shown_error quantiles_loading
  settle_data-IsReading (fulfilled d) s (h, a) e =
      elim (Bool-cases (wants_quantiles type_of s.input)) [
        | inl b ↦ rw b (
          h ∙ ap is_some e,
          (IsAnswered-as s (some Stage.of_data) a e, (same_key_refl s.input, b)),
        )
        | inr b ↦ rw b (
          refl,
          inr (
            same_key_refl s.input,
            not_wanted (wants_quantiles type_of s.input)
                (same_key s.input s.input && (if is_distributed s then false else true)) b,
          ),
        )
      ]
  settle_data-IsReading (rejected x) s h e = (refl, inl (rw (same_key_refl s.input) refl))

  settle_quantiles-IsReading :
      (r : Settled Q) (s : MetricRead D Q)
      → IsReading s
      → s.running ≡ some Stage.of_quantiles
      → IsReading (settle_quantiles false s.input r s)
  unfolding settle_quantiles shown_error quantiles_loading
  settle_quantiles-IsReading (fulfilled q) s (h, a) e = (
    refl,
    inr (
      (IsAnswered-as s (some Stage.of_quantiles) a e).1.0,
      not_loading (wants_quantiles type_of s.input) (is_loaded s) (same_key s.input s.input)
          (same_key_refl s.input),
    ),
  )
  settle_quantiles-IsReading (rejected x) s (h, a) e = (
    refl,
    inr (
      (IsAnswered-as s (some Stage.of_quantiles) a e).1.0,
      not_loading (wants_quantiles type_of s.input) (is_loaded s) (same_key s.input s.input)
          (same_key_refl s.input),
    ),
  )

  event-IsReading : (s t : MetricRead D Q) → IsReading s → ReadEvent s t → IsReading t
  unfolding retry settle_data settle_quantiles
  event-IsReading s _ h (changed i w) = run_read-IsReading i w s
  event-IsReading s _ h retried =
      run_read-IsReading (record s.input { retry_key = suc s.input.retry_key }) s.window s
  event-IsReading s _ h (data_answered r e) = settle_data-IsReading r s h e
  event-IsReading s _ h (quantiles_answered r e) = settle_quantiles-IsReading r s h e
  event-IsReading s _ h (data_late i w r) = h
  event-IsReading s _ h (quantiles_late i r) = h

  -- Whatever is selected, and in whatever order the answers come, those of cancelled requests
  -- included: the reading is pending exactly while the request of the current selection runs. While
  -- its data are awaited no error is shown; while its quantiles are awaited no error is shown, its
  -- data are loaded and it is one that has quantiles. Once it has ended, an error of the current
  -- selection is shown, or its data are loaded and no quantiles are said to be loading.
  pub ReadReached-IsReading : (s : MetricRead D Q) → ReadReached s → IsReading s
  unfolding first_read
  ReadReached-IsReading _ (mounted i w) = run_read-IsReading i w (unread i w)
  ReadReached-IsReading t (went_on s _ g e) = event-IsReading s t (ReadReached-IsReading s g) e

  abbrev data_stage : Settled D → Option Stage → MetricRead D Q → MetricRead D Q
  data_stage d (some Stage.of_data) s = settle_data type_of false s.input s.window d s
  data_stage d _ s = s

  abbrev quantiles_stage : Settled Q → Option Stage → MetricRead D Q → MetricRead D Q
  quantiles_stage q (some Stage.of_quantiles) s = settle_quantiles false s.input q s
  quantiles_stage q _ s = s

  data_stage-IsReading :
      (d : Settled D) (o : Option Stage) (s : MetricRead D Q)
      → IsReading s
      → s.running ≡ o
      → IsReading (data_stage d o s) × (awaits_data (data_stage d o s).running ≡ false)
  unfolding settle_data
  data_stage-IsReading d none s h e = (h, rw e refl)
  data_stage-IsReading d (some Stage.of_quantiles) s h e = (h, rw e refl)
  data_stage-IsReading (fulfilled d) (some Stage.of_data) s h e = (
    settle_data-IsReading (fulfilled d) s h e,
    elim (Bool-cases (wants_quantiles type_of s.input)) [ inl b ↦ rw b refl | inr b ↦ rw b refl ],
  )
  data_stage-IsReading (rejected x) (some Stage.of_data) s h e =
      (settle_data-IsReading (rejected x) s h e, refl)

  -- A reading whose request has ended.
  abbrev pub IsEnded : MetricRead D Q → Type 0
  IsEnded s =
      (s.running ≡ none)
      × ((s.pending ≡ false)
          × ((is_some (shown_error s) ≡ true)
              ⊎ ((is_loaded s ≡ true) × (quantiles_loading type_of s ≡ false))))

  quantiles_stage-IsEnded :
      (q : Settled Q) (o : Option Stage) (s : MetricRead D Q)
      → IsReading s
      → s.running ≡ o
      → awaits_data o ≡ false
      → IsEnded (quantiles_stage q o s)
  unfolding settle_quantiles
  quantiles_stage-IsEnded q none s (h, a) e n = (e, (h ∙ ap is_some e, IsAnswered-as s none a e))
  quantiles_stage-IsEnded (fulfilled q) (some Stage.of_quantiles) s h e n =
      (refl, (refl, (settle_quantiles-IsReading (fulfilled q) s h e).1))
  quantiles_stage-IsEnded (rejected x) (some Stage.of_quantiles) s h e n =
      (refl, (refl, (settle_quantiles-IsReading (rejected x) s h e).1))
  quantiles_stage-IsEnded q (some Stage.of_data) s h e n = ground arith

  abbrev data_of : Settled D → MetricRead D Q → MetricRead D Q
  data_of d s = data_stage d s.running s

  abbrev quantiles_of : Settled Q → MetricRead D Q → MetricRead D Q
  quantiles_of q s = quantiles_stage q s.running s

  -- The answers to the request of the current effect, one for each stage that it still has.
  abbrev pub all_answered : Settled D → Settled Q → MetricRead D Q → MetricRead D Q
  all_answered d q s = quantiles_of q (data_of d s)

  -- However it is answered, a request that runs comes to its end after its data and, where they are
  -- wanted, its quantiles have been answered; then an error of the current selection is shown, or
  -- its data are loaded and no quantiles are said to be loading.
  pub reading_ends :
      (s : MetricRead D Q) (d : Settled D) (q : Settled Q)
      → ReadReached s
      → IsEnded (all_answered d q s)
  reading_ends s d q g =
      let (h, n) = data_stage-IsReading d s.running s (ReadReached-IsReading s g) refl in
      quantiles_stage-IsEnded q (data_of d s).running (data_of d s) h refl n
