-- ===== src/Reconcile/Loop/Wakes/Served.antt =====
-- internal/reconcile/loop.go: no request for a run is lost in the channel.
use network_mesh_exporter.Base.{
  ℕ, ◌+◌, ◌≤◌, ◌<◌, ◌≡◌, ◌⊎◌, inl, inr, refl, ap, Option, none, some, arith, length, [], ◌∷◌,
  length-append, Bool-cases,
}
use network_mesh_exporter.Health.Tracker.{tick}
use network_mesh_exporter.Inventory.{Snapshot}
use network_mesh_exporter.Pairing
use network_mesh_exporter.Reconcile.{Env}
use network_mesh_exporter.Reconcile.Run.{Output}
use network_mesh_exporter.Reconcile.Loop.{Loop, Config, apply_output, conclude, run_once}
use network_mesh_exporter.Reconcile.Loop.Wakes.{
  Trigger, Reads, Waits, Requests, new_waits, offer, request, arm_deadline, run_now, begin, receive,
  ticked, expired, is_none, by_timer, Step, requests, receives, ticks, expires, runs_now, reports,
  Reachable, started, stepped,
}

conclude-last_at :
    (now : ℕ) (snap : Snapshot) (l : Loop) (r : Pairing.Result Output)
    → (conclude now snap l r).last_at ≡ now
unfolding conclude apply_output
conclude-last_at now snap l (Pairing.err e) = refl
conclude-last_at now snap l (Pairing.ok out) = ground arith

-- A run leaves its time, whether it fails or not.
run_once-last_at :
    (env : Env) (cfg : Config) (snap : Snapshot) (now : ℕ) (l : Loop)
    → (run_once env cfg snap now l).last_at ≡ now
unfolding run_once
run_once-last_at env cfg snap now l = conclude-last_at now snap _ _

abbrev pub waiting : Option Trigger → ℕ
waiting none = 0
waiting (some t) = 1

-- Each request that was taken was taken by a run, one more request may be in the channel, and where
-- none is there, the last run was not made before the latest request.
pub record IsServed (q : Requests) (w : Waits) : Type 0 where
  pub few : q.taken + waiting w.requested ≤ q.made
  pub ran : q.taken < length w.runs
  pub seen : w.loop.last_at ≤ q.clock
  pub past : q.latest ≤ q.clock
  pub none_lost : waiting w.requested ≡ 0 → q.latest ≤ w.loop.last_at

-- What a step that makes no request does to the loop: it runs at its time, or changes neither the
-- time of the last run nor the runs.
record IsRound (now : ℕ) (v w : Waits) : Type 0 where
  same : w.requested ≡ v.requested
  after : (w.loop.last_at ≡ now) ⊎ (w.loop.last_at ≡ v.loop.last_at)
  more : length v.runs ≤ length w.runs

round-IsServed :
    (q : Requests) (v w : Waits) (now : ℕ)
    → q.clock ≤ now
    → IsServed q v
    → IsRound now v w
    → IsServed (record q { clock = now }) w
round-IsServed q v w now l h r =
    let kept : waiting w.requested ≡ waiting v.requested = ap waiting r.same in
    record {
      few = omega (arith, h.few, kept);
      ran = omega (arith, h.ran, r.more);
      seen = ground (arith, h.seen, l, r.after);
      past = omega (arith, h.past, l);
      none_lost = λ e.
          let p = h.none_lost (omega (arith, e, kept)) in ground (arith, p, h.past, l, r.after);
    }

run_now-IsRound :
    (env : Env) (t : Trigger) (r : Reads) (w : Waits) → IsRound r.now w (run_now env t r w)
unfolding run_now
run_now-IsRound env t r w = record {
  same = refl;
  after = inl (run_once-last_at env r.cfg r.snap r.now w.loop);
  more = omega (arith, length-append w.runs (t ∷ []));
}

expired-IsRound : (env : Env) (r : Reads) (w : Waits) → IsRound r.now w (expired env r w)
unfolding expired arm_deadline run_now
expired-IsRound env r w = elim (Bool-cases (is_none (tick r.now w.loop.health).1)) [
  | inl e ↦ rw e (record { same = refl; after = inr refl; more = omega arith })
  | inr e ↦ rw e (record {
    same = refl;
    after = inl (run_once-last_at env r.cfg r.snap r.now _);
    more = omega (arith, length-append w.runs (by_timer ∷ []));
  })
]

offer-IsServed :
    (q : Requests) (t : Trigger) (now : ℕ) (w : Waits) (o : Option Trigger)
    → w.requested ≡ o
    → q.clock ≤ now
    → IsServed q w
    → IsServed
        (record q { made = q.made + 1; clock = now; latest = now })
        (record w { requested = offer t o })
offer-IsServed q t now w none e l h = record {
  few = ground (arith, h.few, e);
  ran = h.ran;
  seen = omega (arith, h.seen, l);
  past = omega arith;
  none_lost = λ z. ground (arith, z);
}
offer-IsServed q t now w (some u) e l h =
    let held : waiting w.requested ≡ 1 = ap waiting e in
    record {
      few = ground (arith, h.few, held);
      ran = h.ran;
      seen = omega (arith, h.seen, l);
      past = omega arith;
      none_lost = λ z. ground (arith, z);
    }

-- The run that takes the request out of the channel.
receive-IsServed :
    (env : Env) (q : Requests) (t : Trigger) (r : Reads) (w : Waits)
    → w.requested ≡ some t
    → q.clock ≤ r.now
    → IsServed q w
    → IsServed (record q { taken = q.taken + 1; clock = r.now }) (receive env t r w)
unfolding receive run_now arm_deadline
receive-IsServed env q t r w e l h =
    let at = run_once-last_at env r.cfg r.snap r.now w.loop in
    let held : waiting w.requested ≡ 1 = ap waiting e in
    record {
      few = ground (arith, h.few, held);
      ran = omega (arith, h.ran, length-append w.runs (t ∷ []));
      seen = omega (arith, at);
      past = omega (arith, h.past, l);
      none_lost = λ z. omega (arith, at, h.past, l);
    }

step-IsServed :
    {env : Env} {q p : Requests} {v w : Waits} → IsServed q v → Step env q v p w → IsServed p w
unfolding arm_deadline run_now ticked request
step-IsServed h (requests q w t now l) = offer-IsServed q t now w w.requested refl l h
step-IsServed {env = env} h (receives q w t r l e) = receive-IsServed env q t r w e l h
step-IsServed {env = env} h (ticks q w r l) =
    round-IsServed q w (ticked env r w) r.now l h (record {
      same = refl;
      after = inl (run_once-last_at env r.cfg r.snap r.now _);
      more = omega (arith, length-append w.runs _);
    })
step-IsServed {env = env} h (expires q w r d l e p) =
    round-IsServed q w (expired env r w) r.now l h (expired-IsRound env r w)
step-IsServed {env = env} h (runs_now q w t r l) =
    round-IsServed q w (run_now env t r w) r.now l h (run_now-IsRound env t r w)
step-IsServed h (reports q w k) = record {
  few = h.few;
  ran = h.ran;
  seen = h.seen;
  past = h.past;
  none_lost = h.none_lost;
}

-- After any steps of the loop, of the callers of `Trigger` and of `RunNow`: there were more runs than
-- requests that were taken from the channel, those and the one in the channel are no more than were
-- made, and where the channel is empty, the last run, which leaves its time also where it fails, was
-- not made before the latest request. So no request is lost.
pub Reachable-IsServed : {env : Env} {q : Requests} {w : Waits} → Reachable env q w → IsServed q w
unfolding begin new_waits run_now arm_deadline
Reachable-IsServed {env = env} (started l r) =
    let at = run_once-last_at env r.cfg r.snap r.now l in
    record {
      few = omega arith;
      ran = omega arith;
      seen = omega (arith, at);
      past = omega arith;
      none_lost = λ e. omega arith;
    }
Reachable-IsServed (stepped r s) = step-IsServed (Reachable-IsServed r) s
