-- ===== src/Hooks/Current.antt =====
-- What holds of a loading effect whatever the order of the answers: the effects of
-- features/traces/components/TracePanel.tsx and features/api-requests/useApiTargets.ts.
use everyup.Common.{
  true, false, some, none, List, [], ◌∷◌, ◌++◌, ◌≡◌, refl, sym, ap, ◌∙◌, map, arith, Bool-cases,
  inl, inr, ◌⊎◌, ◌≢◌,
}
use everyup.Uptime.Detail.{Settled, fulfilled, rejected}
use everyup.Hooks.Load.{
  Load, Request, Loading, LoadReached, cancel, asked, active, run_effect, mount, change_key,
  answer_shown, settle_request, key_changed, request_answered, mounted, next,
}

module _ {K : Type 0} where
  active-append : (xs ys : List (Request K)) → active (xs ++ ys) ≡ active xs ++ active ys
  active-append [] ys = refl
  active-append (x ∷ xs) ys = elim (Bool-cases x.cancelled) [
    | inl e ↦ ground (arith, active-append xs ys)
    | inr e ↦ ground (arith, active-append xs ys)
  ]

  active-cancel : (rs : List (Request K)) → active (map cancel rs) ≡ []
  active-cancel [] = refl
  active-cancel (r ∷ rs) = active-cancel rs

  active_first :
      (r : Request K) (rs : List (Request K))
      → ((r.cancelled ≡ true) × (active (r ∷ rs) ≡ active rs))
        ⊎ ((r.cancelled ≡ false) × (active (r ∷ rs) ≡ r ∷ active rs))
  active_first r rs = elim (Bool-cases r.cancelled) [
    | inl e ↦ inl (e, ground arith)
    | inr e ↦ inr (e, ground arith)
  ]

  -- An element that is alone leaves nothing.
  alone :
      (xs ys : List (Request K)) (r s : Request K)
      → xs ++ r ∷ ys ≡ s ∷ []
      → (r ≡ s) × (xs ++ ys ≡ [])
  alone [] [] r s h = (ground arith, refl)
  alone [] (y ∷ ys) r s h = absurd (ground arith)
  alone (x ∷ []) ys r s h = absurd (ground arith)
  alone (x ∷ z ∷ xs) ys r s h = absurd (ground arith)

  not_nil : (xs ys : List (Request K)) (r : Request K) → xs ++ r ∷ ys ≢ []
  not_nil [] ys r h = ground arith
  not_nil (x ∷ xs) ys r h = ground arith

  -- A cancelled request is not among the active ones.
  active_dropped :
      (xs ys : List (Request K)) (r : Request K)
      → r.cancelled ≡ true
      → active (xs ++ r ∷ ys) ≡ active (xs ++ ys)
  active_dropped xs ys r e = elim (active_first r ys) [
    | inl (c, h) ↦
        active-append xs (r ∷ ys) ∙ (ap (λ zs. active xs ++ zs) h ∙ sym (active-append xs ys))
    | inr (c, h) ↦ absurd (ground arith)
  ]

  active_met :
      (xs ys : List (Request K)) (r : Request K)
      → r.cancelled ≡ false
      → active (xs ++ r ∷ ys) ≡ active xs ++ r ∷ active ys
  active_met xs ys r e = elim (active_first r ys) [
    | inl (c, h) ↦ absurd (ground arith)
    | inr (c, h) ↦ active-append xs (r ∷ ys) ∙ ap (λ zs. active xs ++ zs) h
  ]

  -- If one request is active, it is the one that is met, and no other is left.
  active_alone :
      (xs ys : List (Request K)) (r s : Request K)
      → r.cancelled ≡ false
      → active (xs ++ r ∷ ys) ≡ s ∷ []
      → (r ≡ s) × (active (xs ++ ys) ≡ [])
  active_alone xs ys r s e h =
      let (same, rest) = alone (active xs) (active ys) r s (sym (active_met xs ys r e) ∙ h) in
      (same, active-append xs ys ∙ rest)

  active_ne_nil :
      (xs ys : List (Request K)) (r : Request K) → r.cancelled ≡ false → active (xs ++ r ∷ ys) ≢ []
  active_ne_nil xs ys r e h = not_nil (active xs) (active ys) r (sym (active_met xs ys r e) ∙ h)

module _ {K A : Type 0} where
  -- Where the spinner turns, exactly one request will still be read, that of the current key; where
  -- it does not, none will, and what is shown without an error was loaded for the current key.
  pub record IsCurrent (w : Loading K A) : Type 0 where
    pub busy : w.state.loading ≡ true → active w.requests ≡ asked w.state.key ∷ []
    pub idle : w.state.loading ≡ false → active w.requests ≡ []
    pub current :
        w.state.loading ≡ false
        → w.state.error ≡ none
        → (a : A) × (w.state.loaded ≡ some (w.state.key, a))

  opened-IsCurrent : (k : K) → IsCurrent (mount k)
  unfolding mount
  opened-IsCurrent k = record {
    busy = λ l. refl;
    idle = λ l. absurd (ground arith);
    current = λ l e. absurd (ground arith);
  }

  changed-IsCurrent : (k : K) (w : Loading K A) → IsCurrent (change_key k w)
  unfolding change_key run_effect
  changed-IsCurrent k w = record {
    busy = λ l.
        active-append (map cancel w.requests) (asked k ∷ [])
        ∙ ap (λ zs. zs ++ asked k ∷ []) (active-cancel w.requests);
    idle = λ l. absurd (ground arith);
    current = λ l e. absurd (ground arith);
  }

  dropped-IsCurrent :
      (w : Loading K A) (xs ys : List (Request K)) (r : Request K)
      → r.cancelled ≡ true
      → w.requests ≡ xs ++ r ∷ ys
      → IsCurrent w
      → IsCurrent (record { state = w.state; requests = xs ++ ys })
  dropped-IsCurrent w xs ys r e q c =
      let same = sym (ap active q ∙ active_dropped xs ys r e) in
      record { busy = λ l. same ∙ c.busy l; idle = λ l. same ∙ c.idle l; current = c.current }

  -- A request that is read is that of the current key, and the only one.
  read_alone :
      (w : Loading K A) (xs ys : List (Request K)) (r : Request K)
      → r.cancelled ≡ false
      → w.requests ≡ xs ++ r ∷ ys
      → IsCurrent w
      → (r ≡ asked w.state.key) × (active (xs ++ ys) ≡ [])
  read_alone w xs ys r e q c = elim (Bool-cases w.state.loading) [
    | inl l ↦ active_alone xs ys r (asked w.state.key) e (sym (ap active q) ∙ c.busy l)
    | inr l ↦ absurd (active_ne_nil xs ys r e (sym (ap active q) ∙ c.idle l))
  ]

  shown-IsCurrent :
      (s : Load K A) (rs : List (Request K)) (result : Settled A)
      → active rs ≡ []
      → IsCurrent (record { state = answer_shown s.key result s; requests = rs })
  shown-IsCurrent s rs (fulfilled a) h = record {
    busy = λ l. absurd (ground arith);
    idle = λ l. h;
    current = λ l e. (a, refl);
  }
  shown-IsCurrent s rs (rejected e) h = record {
    busy = λ l. absurd (ground arith);
    idle = λ l. h;
    current = λ l g. absurd (ground arith);
  }

  answered-IsCurrent :
      (w : Loading K A) (xs ys : List (Request K)) (r : Request K) (result : Settled A)
      → w.requests ≡ xs ++ r ∷ ys
      → IsCurrent w
      → IsCurrent (record { state = settle_request r result w.state; requests = xs ++ ys })
  unfolding settle_request
  answered-IsCurrent w xs ys r result q c = elim (Bool-cases r.cancelled) [
    | inl e ↦ rw e (dropped-IsCurrent w xs ys r e q c)
    | inr e ↦
        let (same, rest) = read_alone w xs ys r e q c in
        rw (e, ap (λ x. x.of) same) (shown-IsCurrent w.state (xs ++ ys) result rest)
  ]

  -- Whatever keys follow one another and however their answers are delayed: where the spinner
  -- turns, exactly one request will still be read, that of the current key; where it does not, none
  -- will, and unless there is an error the data shown was loaded for the current key.
  pub LoadReached-IsCurrent : (w : Loading K A) → LoadReached w → IsCurrent w
  LoadReached-IsCurrent _ (mounted k) = opened-IsCurrent k
  LoadReached-IsCurrent _ (next w _ h (key_changed k)) = changed-IsCurrent k w
  LoadReached-IsCurrent _ (next w _ h (request_answered xs ys r result q)) =
      answered-IsCurrent w xs ys r result q (LoadReached-IsCurrent w h)
