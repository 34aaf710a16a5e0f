-- ===== src/Failure/Enforcer/Refinement.antt =====
-- The enforcers against the history of all failures: what `shouldHalt` answers, for every policy and
-- every sequence of calls, is what the policy says of the failures marked so far.
use lib_rabbit_job_queue.Common.{
  ℕ, ◌%◌, ◌≡◌, refl, List, [], ◌∷◌, ◌++◌, Bool, true, false, ◌||◌, arith, ap, length, length-append,
  ltb,
}
use mathlib.Core.Path.{ap₂}
use lib_rabbit_job_queue.Common.Int.{ℤ, pos, ◌≤ℤ◌, to_uint, uint_mod}
use lib_rabbit_job_queue.Common.Duration.{Duration, in_whole_milliseconds}
use lib_rabbit_job_queue.Failure.Counter.{ScrollingCounter}
use lib_rabbit_job_queue.Failure.Counter.Refinement.{
  IsMillis, recent, Tracks, Tracks-new, inc-Tracks, later-Tracks, exceeds-recent, exceeds-Tracks,
}
use lib_rabbit_job_queue.Failure.Enforcer.{
  Policy, Policies, max_failures_within, max_total_failures, of_any, end, more, Enforcer, Enforcers,
  max, windowed, any, nil, cons, new_enforcer, new_enforcers, mark_failure, mark_failures,
  should_halt, should_halt_any, any_halt,
}

-- A call of an enforcer: a failure is marked, or the pool asks whether to halt.
pub data Call : Type 0 where
  marks asks : Call

unfoldable pub run : Enforcer → List (ℤ × Call) → List Bool
run e [] = []
run e ((now, marks) ∷ calls) = run (mark_failure now e) calls
run e ((now, asks) ∷ calls) = let (b, e') = should_halt now e in b ∷ run e' calls

-- What a policy says at a time of the failures marked until then.
mutual
  pub halts : Policy → ℤ → List ℤ → Bool
  halts (max_failures_within m within) now failures =
      ltb (to_uint m) (recent (in_whole_milliseconds within) now failures)
  halts (max_total_failures m) now failures = ltb (to_uint m) (length failures % uint_mod)
  halts (of_any ps) now failures = halts_any ps now failures

  pub halts_any : Policies → ℤ → List ℤ → Bool
  halts_any end now failures = false
  halts_any (more p ps) now failures = halts p now failures || halts_any ps now failures

unfoldable pub expected : Policy → List ℤ → List (ℤ × Call) → List Bool
expected p failures [] = []
expected p failures ((now, marks) ∷ calls) = expected p (failures ++ now ∷ []) calls
expected p failures ((now, asks) ∷ calls) = halts p now failures ∷ expected p failures calls

-- The clock never goes back.
abbrev pub IsChronological : ℤ → List (ℤ × Call) → Type 0
IsChronological last [] = Unit
IsChronological last ((now, c) ∷ calls) = (last ≤ℤ now) × IsMillis now × IsChronological now calls

-- Every window of the policy is a number of milliseconds that is not negative.
abbrev mutual
  pub HasWindows : Policy → Type 0
  HasWindows (max_failures_within m within) = IsMillis (in_whole_milliseconds within)
  HasWindows (max_total_failures m) = Unit
  HasWindows (of_any ps) = AllHaveWindows ps

  pub AllHaveWindows : Policies → Type 0
  AllHaveWindows end = Unit
  AllHaveWindows (more p ps) = HasWindows p × AllHaveWindows ps

-- An enforcer of a policy that has seen the failures, its last call at `last`.
mutual
  pub data Follows (last : ℤ) (failures : List ℤ) : Policy → Enforcer → Type 0 where
    within :
        {m : ℤ} {d : Duration} {c : ScrollingCounter}
        → IsMillis (in_whole_milliseconds d)
        → Tracks (in_whole_milliseconds d) last failures c
        → Follows last failures (max_failures_within m d) (windowed (to_uint m) d c)
    total :
        {m : ℤ} {n : ℕ}
        → n ≡ length failures % uint_mod
        → Follows last failures (max_total_failures m) (max (to_uint m) n)
    some_of :
        {ps : Policies} {es : Enforcers}
        → FollowAll last failures ps es
        → Follows last failures (of_any ps) (any es)

  pub data FollowAll (last : ℤ) (failures : List ℤ) : Policies → Enforcers → Type 0 where
    done : FollowAll last failures end nil
    also :
        {p : Policy} {ps : Policies} {e : Enforcer} {es : Enforcers}
        → Follows last failures p e
        → FollowAll last failures ps es
        → FollowAll last failures (more p ps) (cons e es)

mutual
  unfolding new_enforcer new_enforcers

  pub new_enforcer-Follows : (p : Policy) → HasWindows p → Follows (pos 0) [] p (new_enforcer p)
  new_enforcer-Follows (max_failures_within m d) w = within w (Tracks-new w d refl)
  new_enforcer-Follows (max_total_failures m) w = total (omega arith)
  new_enforcer-Follows (of_any ps) w = some_of (new_enforcers-FollowAll ps w)

  new_enforcers-FollowAll :
      (ps : Policies) → AllHaveWindows ps → FollowAll (pos 0) [] ps (new_enforcers ps)
  new_enforcers-FollowAll end w = done
  new_enforcers-FollowAll (more p ps) w =
      also (new_enforcer-Follows p w.0) (new_enforcers-FollowAll ps w.1)

any_halts :
    {now : ℤ} {failures : List ℤ} {p : Policy} {ps : Policies} {r : Bool × Enforcer}
    {es : Enforcers} {rs : Bool × Enforcers}
    → (r.0 ≡ halts p now failures) × Follows now failures p r.1
    → FollowAll now failures ps es
    → (rs.0 ≡ halts_any ps now failures) × FollowAll now failures ps rs.1
    → ((any_halt r es rs).0 ≡ (halts p now failures || halts_any ps now failures))
      × FollowAll now failures (more p ps) (any_halt r es rs).1
any_halts {r = (true, e)} (b, f) g (c, fs) = (rw (← b), also f g)
any_halts {r = (false, e)} {rs = (b', es')} (b, f) g (c, fs) = (rw (← b) c, also f fs)

module _ {last : ℤ} {failures : List ℤ} (now : ℤ) (h : last ≤ℤ now) (k : IsMillis now) where
  mutual
    unfolding mark_failure mark_failures

    pub mark_failure-Follows :
        {p : Policy} {e : Enforcer}
        → Follows last failures p e
        → Follows now (failures ++ now ∷ []) p (mark_failure now e)
    mark_failure-Follows (within w t) = within w (inc-Tracks w now h k t)
    mark_failure-Follows (total n) = total (omega (arith, length-append failures (now ∷ [])))
    mark_failure-Follows (some_of fs) = some_of (mark_failures-FollowAll fs)

    mark_failures-FollowAll :
        {ps : Policies} {es : Enforcers}
        → FollowAll last failures ps es
        → FollowAll now (failures ++ now ∷ []) ps (mark_failures now es)
    mark_failures-FollowAll done = done
    mark_failures-FollowAll (also f fs) = also (mark_failure-Follows f) (mark_failures-FollowAll fs)

  -- One that is not asked is as good at the later time.
  mutual
    later-Follows :
        {p : Policy} {e : Enforcer} → Follows last failures p e → Follows now failures p e
    later-Follows (within w t) = within w (later-Tracks w now h k t)
    later-Follows (total n) = total n
    later-Follows (some_of fs) = some_of (later-FollowAll fs)

    later-FollowAll :
        {ps : Policies} {es : Enforcers}
        → FollowAll last failures ps es
        → FollowAll now failures ps es
    later-FollowAll done = done
    later-FollowAll (also f fs) = also (later-Follows f) (later-FollowAll fs)

  mutual
    unfolding should_halt should_halt_any halts halts_any

    pub should_halt-halts :
        {p : Policy} {e : Enforcer}
        → Follows last failures p e
        → ((should_halt now e).0 ≡ halts p now failures)
          × Follows now failures p (should_halt now e).1
    should_halt-halts (within {m} w t) =
        (exceeds-recent w now h k t (to_uint m), within w (exceeds-Tracks w now h k t (to_uint m)))
    should_halt-halts (total {m} n) = (ap (ltb (to_uint m)) n, total n)
    should_halt-halts (some_of fs) = let (b, f) = should_halt_any-halts fs in (b, some_of f)

    should_halt_any-halts :
        {ps : Policies} {es : Enforcers}
        → FollowAll last failures ps es
        → ((should_halt_any now es).0 ≡ halts_any ps now failures)
          × FollowAll now failures ps (should_halt_any now es).1
    should_halt_any-halts done = (refl, done)
    should_halt_any-halts (also f fs) =
        any_halts (should_halt-halts f) (later-FollowAll fs) (should_halt_any-halts fs)

module _ {p : Policy} where
  run-expected :
      (calls : List (ℤ × Call)) {last : ℤ} {failures : List ℤ} {e : Enforcer}
      → Follows last failures p e
      → IsChronological last calls
      → run e calls ≡ expected p failures calls
  unfolding run expected
  run-expected [] f h = refl
  run-expected ((now, marks) ∷ calls) f h =
      run-expected calls (mark_failure-Follows now h.0 h.1 f) h.2
  run-expected ((now, asks) ∷ calls) f h =
      let (b, f') = should_halt-halts now h.0 h.1 f in ap₂ ◌∷◌ b (run-expected calls f' h.2)

-- For every policy whose windows are not negative and every sequence of calls under a clock that
-- does not go back, a new enforcer answers each `shouldHalt` as the policy says of all the
-- failures marked before: some policy of an `ofAny` says so, more than `max` failures in total,
-- or more than `max` inside the window, where `max` and the numbers of failures are taken as a
-- `UInt`.
pub run-new_enforcer :
    (p : Policy) (calls : List (ℤ × Call))
    → HasWindows p
    → IsChronological (pos 0) calls
    → run (new_enforcer p) calls ≡ expected p [] calls
run-new_enforcer p calls w h = run-expected calls (new_enforcer-Follows p w) h
