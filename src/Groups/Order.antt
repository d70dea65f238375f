-- ===== src/Groups/Order.antt =====
-- The list and the summary of a group agree: pages/projects/projectMembers.ts.
use everyup.Common.{
  ℕ, ◌<◌, String, true, false, List, [], ◌∷◌, ◌++◌, ap, ◌∙◌, ◌≡◌, ◌≢◌, refl, keep, All,
  if◌then◌else◌, IsSorted, sort_by-IsSorted, keep-sort_by, arith,
}
use everyup.Status.Metrics.{StatusTone}
use everyup.Groups.Members.{
  Member, ProjectSources, state_order, before, project_members, unsorted_members, is_tone,
  count_tone, summarize_members,
}

before_total : (a b : Member) → before a b ≡ false → before b a ≡ true
before_total a b h = ground arith

before_trans : (a b c : Member) → before a b ≡ true → before b c ≡ true → before a c ≡ true
before_trans a b c h k = ground arith

same_tone :
    (t : StatusTone) (a b : Member)
    → is_tone t a.state ≡ true
    → is_tone t b.state ≡ true
    → before a b ≡ true
same_tone t a b h k = ground arith

project_members_ordered :
    (encode : String → String) (show_time : ℕ → String) (now : ℕ) (s : ProjectSources)
    → IsSorted before (project_members encode show_time now s)
unfolding project_members
project_members_ordered encode show_time now s =
    sort_by-IsSorted before before_total before_trans (unsorted_members encode show_time now s)

abbrev only : StatusTone → List Member → List Member
only t = keep (λ m. is_tone t m.state)

-- In an order of the tones, the members of the worst tone come before all others.
abbrev pub by_tone : List Member → List Member
by_tone ms =
    only StatusTone.error ms
    ++ (only StatusTone.warn ms ++ (only StatusTone.idle ms ++ only StatusTone.healthy ms))

only_none :
    (t : StatusTone) (m : Member) (ms : List Member)
    → state_order t < state_order m.state
    → All (λ y. before m y ≡ true) ms
    → only t ms ≡ []
only_none t m [] h k = refl
only_none t m (y ∷ ys) h k = ground (arith, only_none t m ys h k.1)

-- A member with the tone `t`, and then the members of that tone.
abbrev led : StatusTone → Member → StatusTone → List Member → List Member
led t m u ms = if is_tone u t then m ∷ only u ms else only u ms

-- One more member in front of a list that is already by tone.
first_by_tone :
    (t : StatusTone) (m : Member) (ms : List Member)
    → ((u : StatusTone) → state_order u < state_order t → only u ms ≡ [])
    → ms ≡ by_tone ms
    → (m ∷ ms)
      ≡ led t m StatusTone.error ms
        ++ (led t m StatusTone.warn ms
            ++ (led t m StatusTone.idle ms ++ led t m StatusTone.healthy ms))
first_by_tone StatusTone.error m ms n h = ap (λ xs. m ∷ xs) h
first_by_tone StatusTone.warn m ms n h =
    let a = n StatusTone.error (omega arith) in
    rw a (
      ap (λ xs. m ∷ xs)
        (h
          ∙ ap
              (λ xs.
                xs
                ++ (only StatusTone.warn ms
                    ++ (only StatusTone.idle ms ++ only StatusTone.healthy ms)))
              a))
first_by_tone StatusTone.idle m ms n h =
    let a = n StatusTone.error (omega arith) in
    let b = n StatusTone.warn (omega arith) in
    rw (a, b)
      (ap (λ xs. m ∷ xs)
        (h
          ∙ (ap
                (λ xs.
                  xs
                  ++ (only StatusTone.warn ms
                      ++ (only StatusTone.idle ms ++ only StatusTone.healthy ms)))
                a
              ∙ ap (λ xs. xs ++ (only StatusTone.idle ms ++ only StatusTone.healthy ms)) b)))
first_by_tone StatusTone.healthy m ms n h =
    let a = n StatusTone.error (omega arith) in
    let b = n StatusTone.warn (omega arith) in
    let c = n StatusTone.idle (omega arith) in
    rw (a, b, c)
      (ap (λ xs. m ∷ xs)
        (h
          ∙ (ap
                (λ xs.
                  xs
                  ++ (only StatusTone.warn ms
                      ++ (only StatusTone.idle ms ++ only StatusTone.healthy ms)))
                a
              ∙ (ap (λ xs. xs ++ (only StatusTone.idle ms ++ only StatusTone.healthy ms)) b
                  ∙ ap (λ xs. xs ++ only StatusTone.healthy ms) c))))

sorted_by_tone : (ms : List Member) → IsSorted before ms → ms ≡ by_tone ms
sorted_by_tone [] h = refl
sorted_by_tone (m ∷ ms) (h, k) =
    first_by_tone m.state m ms (λ u l. only_none u m ms l h) (sorted_by_tone ms k)

only-project_members :
    (encode : String → String) (show_time : ℕ → String) (now : ℕ) (s : ProjectSources)
    (t : StatusTone)
    → only t (project_members encode show_time now s)
      ≡ only t (unsorted_members encode show_time now s)
unfolding project_members
only-project_members encode show_time now s t =
    keep-sort_by before (λ m. is_tone t m.state) (unsorted_members encode show_time now s)
      (same_tone t)

-- The members of a group are listed by their states: first all in error, then all that warn, then
-- all that are idle, and last all that are healthy; those in one state in the order of their kinds
-- and of their lists.
pub project_members-by_tone :
    (encode : String → String) (show_time : ℕ → String) (now : ℕ) (s : ProjectSources)
    → project_members encode show_time now s ≡ by_tone (unsorted_members encode show_time now s)
project_members-by_tone encode show_time now s =
    sorted_by_tone (project_members encode show_time now s)
      (project_members_ordered encode show_time now s)
    ∙ rw
        (
          only-project_members encode show_time now s StatusTone.error,
          only-project_members encode show_time now s StatusTone.warn,
          only-project_members encode show_time now s StatusTone.idle,
          only-project_members encode show_time now s StatusTone.healthy,
        )
        refl

count_tone-pos :
    (t : StatusTone) (ms : List Member)
    → 0 < count_tone t ms
    → keep (λ m. is_tone t m.state) ms ≢ []
unfolding count_tone
count_tone-pos t [] h e = absurd (omega arith)
count_tone-pos t (m ∷ ms) h e = ground (arith, count_tone-pos t ms)

count_tone_worse :
    (t : StatusTone) (m : Member) (ms : List Member)
    → state_order t < state_order m.state
    → All (λ y. before m y ≡ true) ms
    → count_tone t ms ≡ 0
unfolding count_tone
count_tone_worse t m [] h k = refl
count_tone_worse t m (y ∷ ys) h k = ground (arith, count_tone_worse t m ys h k.1)

-- For a list in that order, the colour of the summary is the state of its first member.
summarize_sorted :
    (m : Member) (ms : List Member)
    → All (λ y. before m y ≡ true) ms
    → (summarize_members (m ∷ ms)).tone ≡ m.state
unfolding summarize_members
summarize_sorted m ms h = ground (
  arith,
  count_tone_worse StatusTone.error m ms,
  count_tone_worse StatusTone.warn m ms,
  count_tone_worse StatusTone.idle m ms,
)

tone_of_sorted :
    (ms : List Member)
    → IsSorted before ms
    → (summarize_members ms).tone ≡ elim ms [ [] ↦ StatusTone.idle | m ∷ rest ↦ m.state ]
unfolding summarize_members
tone_of_sorted [] h = refl
tone_of_sorted (m ∷ ms) h = summarize_sorted m ms h.0

-- The colour of the group in the list of groups is the state of the first member on the group's
-- page, and idle for a group that has no member.
pub summarize-project_members :
    (encode : String → String) (show_time : ℕ → String) (now : ℕ) (s : ProjectSources)
    → (summarize_members (project_members encode show_time now s)).tone
      ≡ elim (project_members encode show_time now s) [ [] ↦ StatusTone.idle | m ∷ rest ↦ m.state ]
summarize-project_members encode show_time now s =
    tone_of_sorted (project_members encode show_time now s)
      (project_members_ordered encode show_time now s)
