-- ===== src/Supervisor/Grace.antt =====
-- When the supervisor ends on its own.
use amazon_echo_home_voice.Prelude.{
  Bool, Bool-cases, List, Option, [], all, arith, false, inl, inr, leb, ltb, none, not, refl, some,
  true, ℕ, ◌&&◌, ◌+◌, ◌++◌, ◌∷◌, ◌≡◌, ◌≤◌,
}
use amazon_echo_home_voice.Supervisor.{Pass, Watch, finished, step, unready, watch, watching}

-- A pass in which nothing stops or exits, read between `since` and the end of the grace period.
abbrev pub within_grace : (since failure_grace : ℕ) → Pass → Bool
within_grace since failure_grace p =
    not p.stopped
    && not p.exited
    && not p.stopped_in_probes
    && leb since p.first
    && ltb p.second (since + failure_grace)

abbrev pub all_healthy : Pass → Bool
all_healthy p = all (λ h. h) p.healthy

-- The children were ready once, and not unready since before `since`.
pub record IsPatient (since : ℕ) (w : Watch) : Type 0 where
  pub ready : w.ready_once ≡ true
  pub later : (s : ℕ) → w.unhealthy_since ≡ some s → since ≤ s

module _ (deadline failure_grace since : ℕ) (positive : 1 ≤ failure_grace) where
  step-IsPatient :
      (w : Watch) (p : Pass)
      → IsPatient since w
      → within_grace since failure_grace p ≡ true
      → (v : Watch) × (step deadline failure_grace w p ≡ watching v) × IsPatient since v
  unfolding step unready
  step-IsPatient w p i h = elim (Bool-cases (all_healthy p)) [
    | inl t ↦ (
      record { ready_once = true; unhealthy_since = none },
      ground (arith, t),
      record { ready = refl; later = λ s e. cc },
    )
    | inr t ↦ waits w.unhealthy_since refl t
  ]
    where
      waits :
          (o : Option ℕ)
          → w.unhealthy_since ≡ o
          → all_healthy p ≡ false
          → (v : Watch) × (step deadline failure_grace w p ≡ watching v) × IsPatient since v
      waits none e t = (
        record w { unhealthy_since = some p.first },
        ground (arith, e, t, i.ready, positive),
        record { ready = i.ready; later = λ s f. ground (arith, f) },
      )
      waits (some s) e t = (
        record w { unhealthy_since = some s },
        ground (arith, e, t, i.ready, i.later s e, positive),
        record { ready = i.ready; later = λ u f. ground (arith, f, i.later s e) },
      )

  -- Children that were ready once are not given up within the grace period: where no stop is asked
  -- for and no child exits, the loop goes on through every pass that is read from `since` on and
  -- before the period from `since` is over, whatever the probes say, if the children have not been
  -- unready since before `since` and the period is not zero.
  pub watch-IsPatient :
      (w : Watch) (ps : List Pass)
      → IsPatient since w
      → all (within_grace since failure_grace) ps ≡ true
      → (v : Watch) × (watch deadline failure_grace w ps ≡ watching v) × IsPatient since v
  unfolding watch
  watch-IsPatient w [] i h = (w, refl, i)
  watch-IsPatient w (p ∷ ps) i h =
      let (v, e, j) = step-IsPatient w p i (ground (arith, h)) in
      let (u, f, k) = watch-IsPatient v ps j (ground (arith, h)) in (u, rw (watch, e) f, k)

  -- A pass that is not ready.
  abbrev pub is_unready : Pass → Bool
  is_unready p = not p.stopped && not p.exited && not p.stopped_in_probes && not (all_healthy p)

  -- Children that were ready once and are unready from `since` on are given up, with the exit code 1,
  -- at the first pass that is read when the grace period is over, however many unready passes came
  -- before it, if the period is not zero.
  pub watch-gives_up :
      (ps : List Pass) (p : Pass)
      → all (λ q. is_unready q && ltb q.second (since + failure_grace)) ps ≡ true
      → is_unready p ≡ true
      → since + failure_grace ≤ p.second
      → watch deadline failure_grace
          (record { ready_once = true; unhealthy_since = some since })
          (ps ++ p ∷ [])
        ≡ finished 1
  unfolding watch step unready
  watch-gives_up [] p h u late = ground arith
  watch-gives_up (q ∷ ps) p h u late =
      let e : step deadline failure_grace
            (record { ready_once = true; unhealthy_since = some since }) q
          ≡ watching (record { ready_once = true; unhealthy_since = some since }) =
        ground arith in
      rw (watch, e) (watch-gives_up ps p (ground arith) u late)
