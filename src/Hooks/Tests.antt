-- ===== src/Hooks/Tests.antt =====
-- A run of an effect that loads data.
use everyup.Common.{String, ℕ, true, [], ◌∷◌, refl}
use everyup.Uptime.Detail.{fulfilled}
use everyup.Hooks.Load
use everyup.Hooks.Load.{
  Load, Request, Loading, LoadReached, mount, change_key, asked, settle_request,
}
use everyup.Hooks.Current.{IsCurrent, LoadReached-IsCurrent}

-- The trace changes before the first answer, which then comes and is dropped.
abbrev late : Loading String ℕ
late = record {
  state =
      settle_request (record { of = "t1"; cancelled = true }) (fulfilled 7)
        (change_key "t2" (mount "t1")).state;
  requests = asked "t2" ∷ [];
}

late-LoadReached : LoadReached late
unfolding mount change_key
late-LoadReached =
    Load.next (change_key "t2" (mount "t1")) _
      (Load.next (mount "t1") _ (Load.mounted "t1") (Load.key_changed "t2"))
      (Load.request_answered [] (asked "t2" ∷ []) (record { of = "t1"; cancelled = true })
        (fulfilled 7) refl)

LoadReached-IsCurrent_example : IsCurrent late
LoadReached-IsCurrent_example = LoadReached-IsCurrent late late-LoadReached
