-- ===== src/Failure/Enforcer/Reasons.antt =====
-- When `reason()` has a reason to tell: asked at the time at which `shouldHalt` said yes it has one,
-- asked later it may have none.
use lib_rabbit_job_queue.Common.{
  ℕ, zero, suc, ◌+◌, ◌≤◌, ◌≡◌, ◌≢◌, ◌↔◌, refl, ap, Bool, true, false, arith, Bool-cases, inl, inr,
}
use lib_rabbit_job_queue.Common.Int.{ℤ}
use lib_rabbit_job_queue.Failure.Counter.Window.{exceeds_idem}
use lib_rabbit_job_queue.Failure.Enforcer.{
  Enforcer, Enforcers, max, windowed, any, nil, cons, any_halt, should_halt, should_halt_any,
  Reason, Told, told, no_such_element, first_reason, reason_fuel, depth, depth_all, reason,
  windowed_halt,
}

module _ (now : ℤ) where
  any_halt_idem :
      (r : Bool × Enforcer) (es : Enforcers) (rs : Bool × Enforcers)
      → should_halt now r.1 ≡ r
      → rs ≡ should_halt_any now es
      → should_halt_any now rs.1 ≡ rs
      → should_halt_any now (any_halt r es rs).1 ≡ any_halt r es rs
  unfolding should_halt
  any_halt_idem (true, e) es rs h f g = rw (h, any_halt)
  any_halt_idem (false, e) es rs h f g = rw (h, any_halt, g)

  mutual
    unfolding should_halt

    should_halt_idem : (e : Enforcer) → should_halt now (should_halt now e).1 ≡ should_halt now e
    should_halt_idem (max m n) = refl
    should_halt_idem (windowed m within c) = ap (windowed_halt m within) (exceeds_idem now m c)
    should_halt_idem (any es) =
        ap (λ (r : Bool × Enforcers). (r.0, any r.1)) (should_halt_any_idem es)

    should_halt_any_idem :
        (es : Enforcers) → should_halt_any now (should_halt_any now es).1 ≡ should_halt_any now es
    should_halt_any_idem nil = refl
    should_halt_any_idem (cons e es) =
        any_halt_idem (should_halt now e) es (should_halt_any now es) (should_halt_idem e) refl
          (should_halt_any_idem es)

  depth-any_halt :
      {d : ℕ} (r : Bool × Enforcer) (es : Enforcers) (rs : Bool × Enforcers)
      → depth r.1 ≡ d
      → depth_all rs.1 ≡ depth_all es
      → depth_all (any_halt r es rs).1 ≡ d + depth_all es
  unfolding depth
  depth-any_halt (true, e) es rs h f = rw h
  depth-any_halt (false, e) es rs h f = rw (h, any_halt, f)

  mutual
    unfolding should_halt depth

    depth-should_halt : (e : Enforcer) → depth (should_halt now e).1 ≡ depth e
    depth-should_halt (max m n) = refl
    depth-should_halt (windowed m within c) = refl
    depth-should_halt (any es) = ap suc (depth-should_halt_any es)

    depth-should_halt_any : (es : Enforcers) → depth_all (should_halt_any now es).1 ≡ depth_all es
    depth-should_halt_any nil = refl
    depth-should_halt_any (cons e es) =
        depth-any_halt (should_halt now e) es (should_halt_any now es) (depth-should_halt e)
          (depth-should_halt_any es)

abbrev Tells : Told → Type 0
Tells t = (r : Reason) × (t ≡ told r)

module _ (now : ℤ) where
  first_told_here :
      (tell : Enforcer → Told × Enforcer) (r : Bool × Enforcer) (es : Enforcers)
      (rs : Bool × Enforcers)
      → should_halt now r.1 ≡ r
      → (r.0 ≡ true → Tells (tell r.1).0)
      → (rs.0 ≡ true → Tells (first_reason now tell rs.1).0)
      → (any_halt r es rs).0 ≡ true
      → Tells (first_reason now tell (any_halt r es rs).1).0
  unfolding first_reason
  first_told_here tell (true, e) es rs again here there h = rw (again, first_reason) (here refl)
  first_told_here tell (false, e) es rs again here there h = rw (again, first_reason) (there h)

  -- Over the list of an `ofAny`, given that the call of `reason` on a member that says yes tells one.
  first_told :
      (fuel : ℕ) (tell : Enforcer → Told × Enforcer) (es : Enforcers)
      → ((e : Enforcer)
          → depth e ≤ fuel
          → (should_halt now e).0 ≡ true
          → Tells (tell (should_halt now e).1).0)
      → depth_all es ≤ fuel
      → (should_halt_any now es).0 ≡ true
      → Tells (first_reason now tell (should_halt_any now es).1).0
  unfolding should_halt depth
  first_told fuel tell nil ih d h = cc
  first_told fuel tell (cons e es) ih d h =
      first_told_here tell (should_halt now e) es (should_halt_any now es) (should_halt_idem now e)
        (ih e (omega arith)) (first_told fuel tell es ih (omega arith)) h

  reason_fuel-told :
      (fuel : ℕ) (e : Enforcer)
      → depth e ≤ fuel
      → (should_halt now e).0 ≡ true
      → Tells (reason_fuel fuel now (should_halt now e).1).0
  unfolding should_halt reason_fuel depth
  reason_fuel-told fuel (max m n) d h = (_, refl)
  reason_fuel-told fuel (windowed m within c) d h = (_, refl)
  reason_fuel-told zero (any es) d h = absurd (omega arith)
  reason_fuel-told (suc fuel) (any es) d h =
      first_told fuel (reason_fuel fuel now) es (reason_fuel-told fuel) (omega arith) h

  -- Whenever `shouldHalt` has said yes, `reason()` asked at the same clock reading gives a reason: it
  -- neither throws nor runs out of fuel, whatever the policies and however deep they are nested.
  pub reason-told :
      (e : Enforcer)
      → (should_halt now e).0 ≡ true
      → (r : Reason) × ((reason now (should_halt now e).1).0 ≡ told r)
  unfolding reason
  reason-told e h =
      reason_fuel-told (depth (should_halt now e).1) e (omega (arith, depth-should_halt now e)) h

  first_reason-none :
      (tell : Enforcer → Told × Enforcer) (es : Enforcers)
      → (should_halt_any now es).0 ≡ false
      → first_reason now tell es ≡ (no_such_element, (should_halt_any now es).1)
  unfolding should_halt first_reason
  first_reason-none tell nil h = refl
  first_reason-none tell (cons e es) h = elim (Bool-cases (should_halt now e).0) [
    | inl y ↦ absurd (ground (arith, y, h))
    | inr n ↦ rw (n, first_reason, first_reason-none tell es (ground (arith, n, h)), any_halt)
  ]

  first_reason-some :
      (fuel : ℕ) (es : Enforcers)
      → depth_all es ≤ fuel
      → (should_halt_any now es).0 ≡ true
      → Tells (first_reason now (reason_fuel fuel now) es).0
  unfolding should_halt first_reason depth
  first_reason-some fuel nil d h = cc
  first_reason-some fuel (cons e es) d h = elim (Bool-cases (should_halt now e).0) [
    | inl y ↦ rw (y, first_reason) (reason_fuel-told fuel e (omega arith) y)
    | inr n ↦ rw (n, first_reason) (first_reason-some fuel es (omega arith) (ground arith))
  ]

  told≢no_such_element : {t : Told} → Tells t → t ≢ no_such_element
  told≢no_such_element (r, e) f = cc

  -- An enforcer of several policies throws from `reason()` exactly when none of its members says yes
  -- at the clock reading of that call, whatever `shouldHalt` said before.
  pub reason-no_such_element :
      (es : Enforcers)
      → ((reason now (any es)).0 ≡ no_such_element) ↔ ((should_halt now (any es)).0 ≡ false)
  unfolding reason should_halt reason_fuel depth
  reason-no_such_element es = (
    λ f. elim (Bool-cases (should_halt_any now es).0) [
      | inl y ↦
          absurd (told≢no_such_element (first_reason-some (depth_all es) es (omega arith) y) f)
      | inr n ↦ n
    ],
    λ n.
        ap (λ (r : Told × Enforcers). r.0)
          (first_reason-none (reason_fuel (depth_all es) now) es n),
  )

  -- Where it throws, it has asked each member, and left each as `shouldHalt` leaves it.
  pub reason-pruned :
      (es : Enforcers)
      → (should_halt now (any es)).0 ≡ false
      → reason now (any es) ≡ (no_such_element, (should_halt now (any es)).1)
  unfolding reason should_halt reason_fuel depth
  reason-pruned es n =
      ap (λ (r : Told × Enforcers). (r.0, any r.1))
        (first_reason-none (reason_fuel (depth_all es) now) es n)
