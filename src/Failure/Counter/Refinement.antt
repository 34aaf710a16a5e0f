-- ===== src/Failure/Counter/Refinement.antt =====
-- The scrolling counter against the history of all marks: under a clock that does not go back, what
-- `count` returns is the number of marks inside the window, however the calls are ordered.
use lib_rabbit_job_queue.Common.{
  ℕ, ◌%◌, ◌^◌, ◌<◌, ◌≡◌, refl, sym, ◌∙◌, List, [], ◌∷◌, ◌++◌, All, arith, length, not, ltb, ap,
}
use lib_rabbit_job_queue.Common.Int.{
  ℤ, pos, ◌≤ℤ◌, ltb_ℤ, ◌-ℤ◌, -ℤ_parts, -ℤ_bounds, wrap_long, wrap_long_of_IsLong, uint_mod,
  pos_part, neg_part,
}
use lib_rabbit_job_queue.Common.Duration.{Duration, in_whole_milliseconds}
use lib_rabbit_job_queue.Failure.Counter.{
  ScrollingCounter, new_counter, inc, prune, cutoff_at, count, exceeds,
}
use lib_rabbit_job_queue.Failure.Counter.Window.{
  since, IsOrdered, prune-since, since-since, since-IsOrdered, since-below, below_later, below_last,
  IsOrdered-last, keep-last,
}

-- A reading of the clock, or the length of a window: a `Long` that is not negative.
abbrev pub IsMillis : ℤ → Type 0
IsMillis t = (neg_part t ≡ 0) × (pos_part t < 2 ^ 63)

-- How many of the marks are at most `window` milliseconds old, as a `UInt`.
abbrev pub recent : ℤ → ℤ → List ℤ → ℕ
recent window now marks = length (since (now -ℤ window) marks) % uint_mod

-- What the counter still knows of the marks, when its last call was at `last`.
pub record Tracks (window last : ℤ) (marks : List ℤ) (c : ScrollingCounter) : Type 0 where
  pub delta : c.max_delta ≡ window
  pub same : (d : ℤ) → last -ℤ window ≤ℤ d → since d marks ≡ since d c.entries
  pub ordered : IsOrdered c.entries
  pub below : All (λ u. u ≤ℤ last) c.entries

cutoff_lem :
    (now window : ℤ) → IsMillis now → IsMillis window → wrap_long (now -ℤ window) ≡ now -ℤ window
cutoff_lem now window h k =
    wrap_long_of_IsLong (now -ℤ window)
      (omega (arith, -ℤ_bounds now window), omega (arith, -ℤ_bounds now window))

cutoff_mono : (last now window : ℤ) → last ≤ℤ now → last -ℤ window ≤ℤ now -ℤ window
cutoff_mono last now window h = omega (arith, -ℤ_parts last window, -ℤ_parts now window)

module _ {window : ℤ} (w : IsMillis window) where
  pub Tracks-new :
      (d : Duration) → in_whole_milliseconds d ≡ window → Tracks window (pos 0) [] (new_counter d)
  unfolding new_counter
  Tracks-new d e = record { delta = e; same = λ _ _. refl; ordered = tt; below = tt }

  module _ {last : ℤ} {marks : List ℤ} {c : ScrollingCounter} (now : ℤ) (h : last ≤ℤ now)
      (k : IsMillis now) (t : Tracks window last marks c) where
    pub inc-Tracks : Tracks window now (marks ++ now ∷ []) (inc now c)
    unfolding inc
    inc-Tracks = record {
      delta = t.delta;
      same = λ d q.
          keep-last (λ u. not (ltb_ℤ u d)) now marks c.entries
            (t.same d (omega (arith, cutoff_mono last now window h)));
      ordered = IsOrdered-last now c.entries t.ordered (below_later last now c.entries h t.below);
      below = below_last now c.entries (below_later last now c.entries h t.below);
    }

    left_lem : prune (cutoff_at now c) c.entries ≡ since (now -ℤ window) c.entries
    unfolding cutoff_at
    left_lem =
        rw (t.delta, cutoff_lem now window k w) (prune-since (now -ℤ window) c.entries t.ordered)

    pub count-recent : (count now c).0 ≡ recent window now marks
    unfolding count
    count-recent = rw (left_lem, t.same (now -ℤ window) (cutoff_mono last now window h))

    pub count-Tracks : Tracks window now marks (count now c).1
    unfolding count
    count-Tracks = record {
      delta = t.delta;
      same = λ d q. rw left_lem (
          t.same d (omega (arith, cutoff_mono last now window h))
          ∙ sym (since-since (now -ℤ window) d c.entries q));
      ordered = rw left_lem (since-IsOrdered (now -ℤ window) c.entries t.ordered);
      below =
          rw left_lem
            (since-below now (now -ℤ window) c.entries (below_later last now c.entries h t.below));
    }

    -- A counter that is not asked is as good at the later time.
    pub later-Tracks : Tracks window now marks c
    later-Tracks = record {
      delta = t.delta;
      same = λ d q. t.same d (omega (arith, cutoff_mono last now window h));
      ordered = t.ordered;
      below = below_later last now c.entries h t.below;
    }

    pub exceeds-recent : (v : ℕ) → (exceeds now v c).0 ≡ ltb v (recent window now marks)
    unfolding exceeds
    exceeds-recent v = ap (ltb v) count-recent

    pub exceeds-Tracks : (v : ℕ) → Tracks window now marks (exceeds now v c).1
    unfolding exceeds
    exceeds-Tracks v = count-Tracks
