-- ===== src/Probe/Icmp/Routed.antt =====
-- internal/probe/icmp/client.go: a probe gets one result, and its own.
use network_mesh_exporter.Base.{
  ℕ, ◌+◌, ◌≤◌, ◌<◌, ◌≡◌, ◌≢◌, refl, sym, ◌∙◌, ap, Bool, false, true, not, List, [], ◌∷◌, Option,
  none, some, arith, All, All-mono, if◌then◌else◌,
}
use network_mesh_exporter.Base.Map.{Map, lookup, erase, All-insert, All-erase, All-lookup}
use network_mesh_exporter.Base.Str.{Str, ◌==◌}
use network_mesh_exporter.PingProto.{err_internal}
use network_mesh_exporter.Probe.Icmp.{
  Result, Message, hello, result, error, other, Client, Goes, new, send_once, deliver,
  failed_result, route, read_one, fail_each, fail_all, connect, register, abandon, Reachable,
  created, connects, registers, reads, abandons, fails,
}

-- At most one result was sent to a waiter, and it has the ID of the waiter's request.
abbrev pub IsOwn : Str → List Result → Type 0
IsOwn id [] = Unit
IsOwn id (r ∷ []) = r.id ≡ id
IsOwn id (r ∷ s ∷ rs) = ⊥

-- What a request in the table has: its own ID, a number that was given out, and no result yet.
abbrev pub IsOpen : (ℕ → Str) → Client → Str × ℕ → Type 0
IsOpen decimal c (id, n) = (id ≡ decimal n) × (n ≤ c.seq) × (c.inbox n ≡ [])

pub record IsRouted (decimal : ℕ → Str) (c : Client) : Type 0 where
  pub unanswered : All (IsOpen decimal c) c.waiting
  pub own : (n : ℕ) → IsOwn (decimal n) (c.inbox n)
  pub unborn : (n : ℕ) → c.seq < n → c.inbox n ≡ []

send_once-IsOwn :
    (id : Str) (r : Result) (rs : List Result) → r.id ≡ id → IsOwn id rs → IsOwn id (send_once r rs)
send_once-IsOwn id r [] e h = e
send_once-IsOwn id r (s ∷ rs) e h = h

deliver-IsOwn :
    (decimal : ℕ → Str) (w : ℕ) (r : Result) (inbox : ℕ → List Result)
    → r.id ≡ decimal w
    → ((n : ℕ) → IsOwn (decimal n) (inbox n))
    → (n : ℕ) → IsOwn (decimal n) (deliver w r inbox n)
unfolding deliver
deliver-IsOwn decimal w r inbox e h n = ground (
  arith,
  λ (q : n ≡ w). send_once-IsOwn (decimal n) r (inbox n) (e ∙ sym (ap decimal q)) (h n),
  h n,
)

fail_each-IsOwn :
    (decimal : ℕ → Str) (text : Str) (m : Map ℕ) (inbox : ℕ → List Result)
    → All (λ e. e.0 ≡ decimal e.1) m
    → ((n : ℕ) → IsOwn (decimal n) (inbox n))
    → (n : ℕ) → IsOwn (decimal n) (fail_each text m inbox n)
unfolding fail_each
fail_each-IsOwn decimal text [] inbox a h = h
fail_each-IsOwn decimal text ((id, w) ∷ m) inbox a h =
    fail_each-IsOwn decimal text m _ a.1
      (deliver-IsOwn decimal w (failed_result id text err_internal) inbox a.0 h)

fail_each-kept :
    (text : Str) (m : Map ℕ) (inbox : ℕ → List Result) (k n : ℕ)
    → All (λ e. e.1 ≤ k) m
    → k < n
    → inbox n ≡ []
    → fail_each text m inbox n ≡ []
unfolding fail_each deliver
fail_each-kept text [] inbox k n a l e = e
fail_each-kept text ((id, w) ∷ m) inbox k n a l e =
    fail_each-kept text m _ k n a.1 l (ground (arith, a.0, l, e))

All-erased : (k : Str) (m : Map ℕ) → All (λ e. k ≢ e.0) (erase k m)
unfolding erase
All-erased k [] = tt
All-erased k ((j, w) ∷ m) = ground (arith, All-erased k m)

All-both : (P Q : Str × ℕ → Type 0) (m : Map ℕ) → All P m → All Q m → All (λ e. P e × Q e) m
All-both P Q [] p q = tt
All-both P Q (e ∷ m) p q = ((p.0, q.0), All-both P Q m p.1 q.1)

new-IsRouted : (decimal : ℕ → Str) → IsRouted decimal new
unfolding new
new-IsRouted decimal = record { unanswered = tt; own = λ n. tt; unborn = λ n l. refl }

-- The waiter that a result finds.
answer-IsRouted :
    (decimal : ℕ → Str) (r : Result) (c : Client) (o : Option ℕ)
    → lookup r.id c.waiting ≡ o
    → IsRouted decimal c
    → IsRouted decimal (record c {
      waiting = erase r.id c.waiting;
      inbox = elim o [ none ↦ c.inbox | some w ↦ deliver w r c.inbox ];
    })
unfolding deliver
answer-IsRouted decimal r c none e h = record {
  unanswered = All-erase (IsOpen decimal c) r.id c.waiting h.unanswered;
  own = h.own;
  unborn = h.unborn;
}
answer-IsRouted decimal r c (some w) e h =
    let found = All-lookup (IsOpen decimal c) r.id c.waiting h.unanswered e in
    record {
      unanswered =
          All-mono
            (λ (id, n) (p : IsOpen decimal c (id, n) × (r.id ≢ id)). (
              p.0.0,
              p.0.1,
              ground (
                arith,
                λ (q : n ≡ w). absurd {A = ⊥} (p.1 (found.0 ∙ sym (ap decimal q) ∙ sym p.0.0)),
                p.0.2,
              ),
            ))
            (erase r.id c.waiting)
            (All-both (IsOpen decimal c) (λ e. r.id ≢ e.0) (erase r.id c.waiting)
              (All-erase (IsOpen decimal c) r.id c.waiting h.unanswered)
              (All-erased r.id c.waiting));
      own = deliver-IsOwn decimal w r c.inbox found.0 h.own;
      unborn = λ n l. ground (arith, l, found.1, h.unborn n l);
    }

if-IsRouted :
    (decimal : ℕ → Str) (b : Bool) (x y : Client)
    → IsRouted decimal x
    → IsRouted decimal y
    → IsRouted decimal (if b then x else y)
if-IsRouted decimal true x y p q = p
if-IsRouted decimal false x y p q = q

round-IsRouted :
    (decimal : ℕ → Str) (b : Bool) (x y : Client × Goes)
    → IsRouted decimal x.0
    → IsRouted decimal y.0
    → IsRouted decimal (if b then x else y).0
round-IsRouted decimal true x y p q = p
round-IsRouted decimal false x y p q = q

-- A change of the flags, with a number given out or not.
flags-IsRouted :
    (decimal : ℕ → Str) (c : Client) (seq : ℕ) (connected available fatal : Bool)
    → c.seq ≤ seq
    → IsRouted decimal c
    → IsRouted decimal
        (record c { seq = seq; connected = connected; available = available; fatal = fatal })
flags-IsRouted decimal c seq connected available fatal l h = record {
  unanswered = All-mono (λ e p. (p.0, omega (arith, p.1, l), p.2)) c.waiting h.unanswered;
  own = h.own;
  unborn = λ n k. h.unborn n (omega (arith, l, k));
}

register-IsRouted :
    (decimal : ℕ → Str) (c : Client) → IsRouted decimal c → IsRouted decimal (register decimal c)
unfolding register
register-IsRouted decimal c h =
    let next = c.seq + 1 in
    let given = flags-IsRouted decimal c next c.connected c.available c.fatal (omega arith) h in
    if-IsRouted decimal (not c.available) c _ h (
      if-IsRouted decimal (not c.connected) _ _ given (record {
        unanswered =
            All-insert (IsOpen decimal (record c { seq = next })) (decimal next) next c.waiting
              (refl, omega arith, h.unborn next (omega arith)) given.unanswered;
        own = h.own;
        unborn = given.unborn;
      }))

route-IsRouted :
    (decimal : ℕ → Str) (r : Result) (c : Client)
    → IsRouted decimal c
    → IsRouted decimal (route r c)
unfolding route
route-IsRouted decimal r c h = answer-IsRouted decimal r c (lookup r.id c.waiting) refl h

read_one-IsRouted :
    (decimal : ℕ → Str) (version : Str) (m : Message) (c : Client)
    → IsRouted decimal c
    → IsRouted decimal (read_one version m c).0
unfolding read_one
read_one-IsRouted decimal version (hello none) c h = h
read_one-IsRouted decimal version (hello (some p)) c h =
    let fails = flags-IsRouted decimal c c.seq c.connected c.available true (omega arith) h in
    let serves = flags-IsRouted decimal c c.seq c.connected true c.fatal (omega arith) h in
    round-IsRouted decimal (not p.permitted) _ _ fails
      (round-IsRouted decimal (not (p.version == version)) _ _ fails serves)
read_one-IsRouted decimal version (result none) c h = h
read_one-IsRouted decimal version (result (some r)) c h = route-IsRouted decimal r c h
read_one-IsRouted decimal version (error none) c h = h
read_one-IsRouted decimal version (error (some (id, text, class))) c h =
    route-IsRouted decimal (failed_result id text class) c h
read_one-IsRouted decimal version other c h = h

fail_all-IsRouted :
    (decimal : ℕ → Str) (text : Str) (c : Client)
    → IsRouted decimal c
    → IsRouted decimal (fail_all text c)
unfolding fail_all
fail_all-IsRouted decimal text c h = record {
  unanswered = tt;
  own =
      fail_each-IsOwn decimal text c.waiting c.inbox (All-mono (λ e p. p.0) c.waiting h.unanswered)
        h.own;
  unborn = λ n l.
      fail_each-kept text c.waiting c.inbox c.seq n (All-mono (λ e p. p.1) c.waiting h.unanswered) l
        (h.unborn n l);
}

cons_not_empty : (r : Result) (rs : List Result) → send_once r rs ≢ []
cons_not_empty r [] e = cc
cons_not_empty r (s ∷ rs) e = cc

deliver-stays :
    (w : ℕ) (r : Result) (inbox : ℕ → List Result) (n : ℕ) → inbox n ≢ [] → deliver w r inbox n ≢ []
unfolding deliver
deliver-stays w r inbox n h = ground (arith, h, cons_not_empty r (inbox n))

fail_each-stays :
    (text : Str) (m : Map ℕ) (inbox : ℕ → List Result) (n : ℕ)
    → inbox n ≢ []
    → fail_each text m inbox n ≢ []
unfolding fail_each
fail_each-stays text [] inbox n h = h
fail_each-stays text ((id, w) ∷ m) inbox n h =
    fail_each-stays text m _ n (deliver-stays w (failed_result id text err_internal) inbox n h)

fail_each-reaches :
    (text : Str) (m : Map ℕ) (inbox : ℕ → List Result)
    → All (λ e. fail_each text m inbox e.1 ≢ []) m
unfolding fail_each deliver
fail_each-reaches text [] inbox = tt
fail_each-reaches text ((id, w) ∷ m) inbox =
    let r = failed_result id text err_internal in
    (
      fail_each-stays text m _ w (ground (arith, cons_not_empty r (inbox w))),
      fail_each-reaches text m (deliver w r inbox),
    )

Reachable-IsRouted : (decimal : ℕ → Str) {c : Client} → Reachable decimal c → IsRouted decimal c
unfolding connect abandon
Reachable-IsRouted decimal created = new-IsRouted decimal
Reachable-IsRouted decimal (connects {c = c} r) =
    let h = Reachable-IsRouted decimal r in
    record { unanswered = h.unanswered; own = h.own; unborn = h.unborn }
Reachable-IsRouted decimal (registers {c = c} r) =
    register-IsRouted decimal c (Reachable-IsRouted decimal r)
Reachable-IsRouted decimal (reads {c = c} version m r) =
    read_one-IsRouted decimal version m c (Reachable-IsRouted decimal r)
Reachable-IsRouted decimal (abandons {c = c} id r) =
    let h = Reachable-IsRouted decimal r in
    record {
      unanswered = All-erase (IsOpen decimal c) id c.waiting h.unanswered;
      own = h.own;
      unborn = h.unborn;
    }
Reachable-IsRouted decimal (fails {c = c} text r) =
    fail_all-IsRouted decimal text c (Reachable-IsRouted decimal r)

-- After any steps of the callers, the reader and the sessions: at most one result was sent to each
-- probe, with the ID of its own request, and none to a probe whose request is in the table or is
-- not made yet; and once the helper exits, each probe whose request was in the table has a result.
pub Reachable-released :
    (decimal : ℕ → Str) {c : Client} (text : Str)
    → Reachable decimal c
    → IsRouted decimal c × All (λ e. (fail_all text c).inbox e.1 ≢ []) c.waiting
unfolding fail_all
Reachable-released decimal {c = c} text r =
    (Reachable-IsRouted decimal r, fail_each-reaches text c.waiting c.inbox)
