-- ===== src/Connectors/Health/Probes.antt =====
-- How the probe loop of connectors/health.py ends.
use rev_pilot_ai.Base.{
  ℕ, zero, suc, ◌+◌, ◌≤◌, ◌<◌, Bool, true, false, String, ◌≡◌, arith, ok, subst, sym, ◌∙◌,
}
use rev_pilot_ai.Base.Time.{UtcDateTime}
use rev_pilot_ai.Connectors.{Registry}
use rev_pilot_ai.Connectors.Health.{
  healthy, unhealthy, attempt, recover, probe_from, probe_health, probe_result,
}

module _ (canary : ℕ → Bool) (is_linked : Bool) (c : String) (now : UtcDateTime) where
  probe_from-last :
      (k : ℕ) (s : Registry)
      → canary k ≡ false
      → probe_from canary is_linked c now zero k s ≡ (probe_result unhealthy k c now, s)
  unfolding probe_from attempt
  probe_from-last k s down = cc

  probe_from-again :
      (left k : ℕ) (s : Registry)
      → canary k ≡ false
      → probe_from canary is_linked c now (suc left) k s
        ≡ probe_from canary is_linked c now left (k + 1) s
  unfolding probe_from attempt
  probe_from-again left k s down = cc

  probe_from-unhealthy :
      (left k : ℕ) (s : Registry)
      → ((j : ℕ) → k ≤ j → j ≤ k + left → canary j ≡ false)
      → probe_from canary is_linked c now left k s ≡ (probe_result unhealthy (k + left) c now, s)
  probe_from-unhealthy zero k s down =
      subst (λ n. probe_from canary is_linked c now zero k s ≡ (probe_result unhealthy n c now, s))
        (omega arith) (probe_from-last k s (down k (omega arith) (omega arith)))
  probe_from-unhealthy (suc left) k s down =
      let rest =
        probe_from-unhealthy left (k + 1) s (λ j lo hi. down j (omega arith) (omega arith)) in
      probe_from-again left k s (down k (omega arith) (omega arith))
      ∙ subst
          (λ n.
            probe_from canary is_linked c now left (k + 1) s ≡ (probe_result unhealthy n c now, s))
          (omega arith) rest

  -- Where no allowed attempt succeeds, the probe says UNHEALTHY with all retries spent, and changes
  -- nothing.
  pub probe_health-unhealthy :
      (max_retries : ℕ) (s : Registry)
      → ((j : ℕ) → j ≤ max_retries → canary j ≡ false)
      → probe_health canary is_linked max_retries c now s
        ≡ (probe_result unhealthy max_retries c now, s)
  unfolding probe_health
  probe_health-unhealthy max_retries s down =
      let e : 0 + max_retries ≡ max_retries = omega arith in
      subst
        (λ n.
          probe_from canary is_linked c now max_retries 0 s ≡ (probe_result unhealthy n c now, s))
        e (probe_from-unhealthy max_retries 0 s (λ j lo hi. down j (omega arith)))

  recovered :
      (s : Registry) (b : Bool)
      → b ≡ true
      → (recover is_linked c now s).0 ≡ ok tt
      → attempt b is_linked c now s ≡ (true, (recover is_linked c now s).1)
  unfolding attempt
  recovered s b up fine = cc

  probe_from-now :
      (left k : ℕ) (s : Registry)
      → attempt (canary k) is_linked c now s ≡ (true, (recover is_linked c now s).1)
      → probe_from canary is_linked c now left k s
        ≡ (probe_result healthy k c now, (recover is_linked c now s).1)
  unfolding probe_from
  probe_from-now zero k s done = cc
  probe_from-now (suc left) k s done = cc

  probe_from-healthy :
      (early left k : ℕ) (s : Registry)
      → ((j : ℕ) → k ≤ j → j < k + early → canary j ≡ false)
      → canary (k + early) ≡ true
      → (recover is_linked c now s).0 ≡ ok tt
      → probe_from canary is_linked c now (early + left) k s
        ≡ (probe_result healthy (k + early) c now, (recover is_linked c now s).1)
  probe_from-healthy zero left k s down up fine =
      let here : canary k ≡ true = subst (λ n. canary n ≡ true) (omega arith) up in
      let same : k ≡ k + zero = omega arith in
      let all : left ≡ zero + left = omega arith in
      subst
        (λ n.
          probe_from canary is_linked c now (zero + left) k s
          ≡ (probe_result healthy n c now, (recover is_linked c now s).1))
        same
        (subst
          (λ l.
            probe_from canary is_linked c now l k s
            ≡ (probe_result healthy k c now, (recover is_linked c now s).1))
          all (probe_from-now left k s (recovered s (canary k) here fine)))
  probe_from-healthy (suc early) left k s down up fine =
      let at : k + suc early ≡ k + 1 + early = omega arith in
      let rest =
        probe_from-healthy early left (k + 1) s (λ j lo hi. down j (omega arith) (omega arith))
          (subst (λ n. canary n ≡ true) at up) fine in
      let all : suc (early + left) ≡ suc early + left = omega arith in
      subst
        (λ l.
          probe_from canary is_linked c now l k s
          ≡ (probe_result healthy (k + suc early) c now, (recover is_linked c now s).1))
        all
        (probe_from-again (early + left) k s (down k (omega arith) (omega arith))
          ∙ subst
              (λ n.
                probe_from canary is_linked c now (early + left) (k + 1) s
                ≡ (probe_result healthy n c now, (recover is_linked c now s).1))
              (sym at) rest)

  -- Where attempt `early` is the first that succeeds, is allowed, and the lifecycle service takes the
  -- recovery, the probe says HEALTHY after that many retries and records one recovery.
  pub probe_health-healthy :
      (early left : ℕ) (s : Registry)
      → ((j : ℕ) → j < early → canary j ≡ false)
      → canary early ≡ true
      → (recover is_linked c now s).0 ≡ ok tt
      → probe_health canary is_linked (early + left) c now s
        ≡ (probe_result healthy early c now, (recover is_linked c now s).1)
  unfolding probe_health
  probe_health-healthy early left s down up fine =
      let at : early ≡ 0 + early = omega arith in
      subst
        (λ n.
          probe_from canary is_linked c now (early + left) 0 s
          ≡ (probe_result healthy n c now, (recover is_linked c now s).1))
        (sym at)
        (probe_from-healthy early left 0 s (λ j lo hi. down j (omega arith))
          (subst (λ n. canary n ≡ true) at up) fine)
