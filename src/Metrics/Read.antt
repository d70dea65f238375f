-- ===== src/Metrics/Read.antt =====
-- The loading of a metric and, for a histogram, of its quantiles:
-- features/metrics/useMetricRead.ts.
use everyup.Common.{
  ℕ, suc, String, Bool, true, false, Option, some, none, ◌&&◌, ◌==◌, if◌then◌else◌, nat_eq,
}
use everyup.Client.Errors.{get_error_message}
use everyup.Uptime.Detail.{Settled, fulfilled, rejected}

pub data MetricSource : Type 0 where
  agent : String → String → MetricSource
  direct : String → MetricSource

pub record MetricWindow : Type 0 where
  pub range : String
  pub from : String
  pub to : String

-- What the key of a request is the text of. The selection is itself a text.
pub record Input : Type 0 where
  pub source : MetricSource
  pub selection : String
  pub from : String
  pub to : String
  pub expanded : Bool
  pub refresh_key : ℕ
  pub retry_key : ℕ

abbrev pub same_source : MetricSource → MetricSource → Bool
same_source (MetricSource.agent a k) (MetricSource.agent b l) = (a == b) && (k == l)
same_source (MetricSource.direct a) (MetricSource.direct b) = a == b
same_source _ _ = false

abbrev same_flag : Bool → Bool → Bool
same_flag true b = b
same_flag false b = if b then false else true

-- Equality of two keys.
unfoldable pub same_key : Input → Input → Bool
same_key a b =
    same_source a.source b.source
    && ((a.selection == b.selection)
        && ((a.from == b.from)
            && ((a.to == b.to)
                && (same_flag a.expanded b.expanded
                    && (nat_eq a.refresh_key b.refresh_key && nat_eq a.retry_key b.retry_key)))))

pub record Snapshot (D : Type 0) : Type 0 where
  pub key : Input
  pub window : MetricWindow
  pub payload : D

pub record ReadError : Type 0 where
  pub key : Input
  pub message : String

pub record Distribution (Q : Type 0) : Type 0 where
  pub key : Input
  pub payload : Option Q
  pub error : Option String

-- What the request of the current effect waits for.
pub data Stage : Type 0 where
  of_data of_quantiles : Stage

-- `running` is the request of the effect that ran last, until its code ends.
pub record MetricRead (D Q : Type 0) : Type 0 where
  pub input : Input
  pub window : MetricWindow
  pub snapshot : Option (Snapshot D)
  pub error : Option ReadError
  pub distribution : Option (Distribution Q)
  pub pending : Bool
  pub running : Option Stage

abbrev pub wants_quantiles : (String → String) → Input → Bool
wants_quantiles type_of i = i.expanded && (type_of i.selection == "histogram")

module _ {D Q : Type 0} where
  -- The effect, up to its request.
  unfoldable pub run_read : Input → MetricWindow → MetricRead D Q → MetricRead D Q
  run_read i w s = record s {
    input = i;
    window = w;
    error = none;
    pending = true;
    running = some Stage.of_data;
  }

  abbrev pub unread : Input → MetricWindow → MetricRead D Q
  unread i w = record {
    input = i;
    window = w;
    snapshot = none;
    error = none;
    distribution = none;
    pending = false;
    running = none;
  }

  -- The first run of the effect.
  unfoldable pub first_read : Input → MetricWindow → MetricRead D Q
  unfolding run_read
  first_read i w = run_read i w (unread i w)

  abbrev ended : MetricRead D Q → MetricRead D Q
  ended s = record s { pending = false; running = none }

  -- The answer with the data, for the effect of `i` and `w`; `type_of` reads the type of a metric in
  -- a selection.
  module _ (type_of : String → String) where
    unfoldable pub settle_data :
        Bool → Input → MetricWindow → Settled D → MetricRead D Q → MetricRead D Q
    settle_data true i w r s = s
    settle_data false i w (fulfilled d) s =
        let taken = record s { snapshot = some (record { key = i; window = w; payload = d }) } in
        if wants_quantiles type_of i
        then record taken { running = some Stage.of_quantiles }
        else ended taken
    settle_data false i w (rejected e) s =
        ended (record s { error = some (record { key = i; message = get_error_message e }) })

  unfoldable pub settle_quantiles : Bool → Input → Settled Q → MetricRead D Q → MetricRead D Q
  settle_quantiles true i r s = s
  settle_quantiles false i (fulfilled q) s =
      ended (record s { distribution = some (record { key = i; payload = some q; error = none }) })
  settle_quantiles false i (rejected e) s = ended (record s {
    distribution = some (record { key = i; payload = none; error = some (get_error_message e) });
  })

  -- `retry`, which changes the key.
  unfoldable pub retry : MetricRead D Q → MetricRead D Q
  unfolding run_read
  retry s = run_read (record s.input { retry_key = suc s.input.retry_key }) s.window s

  -- What the hook returns.
  abbrev agrees : MetricRead D Q → Snapshot D → Bool
  agrees s t = (t.key.selection == s.input.selection) && (t.window.range == s.window.range)

  unfoldable pub shown : MetricRead D Q → Option (Snapshot D)
  shown s = elim s.snapshot [ none ↦ none | some t ↦ if agrees s t then some t else none ]

  unfoldable pub shown_error : MetricRead D Q → Option String
  unfolding same_key
  shown_error s = elim s.error [
    | none ↦ none
    | some e ↦ if same_key e.key s.input then some e.message else none
  ]

  abbrev pub is_loaded : MetricRead D Q → Bool
  is_loaded s = elim s.snapshot [ none ↦ false | some t ↦ same_key t.key s.input ]

  abbrev pub is_distributed : MetricRead D Q → Bool
  is_distributed s = elim s.distribution [ none ↦ false | some t ↦ same_key t.key s.input ]

  unfoldable pub quantiles : MetricRead D Q → Option Q
  quantiles s = elim s.distribution [
    | none ↦ none
    | some t ↦ if same_key t.key s.input && is_loaded s then t.payload else none
  ]

  unfoldable pub quantiles_error : MetricRead D Q → Option String
  quantiles_error s = elim s.distribution [
    | none ↦ none
    | some t ↦ if same_key t.key s.input then t.error else none
  ]

  unfoldable pub quantiles_loading : (String → String) → MetricRead D Q → Bool
  quantiles_loading type_of s =
      wants_quantiles type_of s.input && (is_loaded s && (if is_distributed s then false else true))
