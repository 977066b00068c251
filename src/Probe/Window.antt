-- ===== src/Probe/Window.antt =====
-- internal/probe/probe.go: the rolling window. Durations and sums of them stay below 2 ^ 63, and a map
-- of counts or of percentiles is a function.
pub mod Bounds
pub mod Fresh
use network_mesh_exporter.Base.{
  ℕ, suc, zero, ◌+◌, ◌-◌, ◌/◌, ◌<◌, Bool, false, true, not, ◌&&◌, List, [], ◌∷◌, ◌++◌, map, Option,
  none, some, length, get_elem?, if◌then◌else◌, ltb, leb, eqb,
}
use network_mesh_exporter.Base.Int.{ℤ, pos, negsuc}
use network_mesh_exporter.Base.Sort.{sort}
use network_mesh_exporter.PingProto.{
  ErrClass, err_none, err_timeout, err_resolve, err_unreachable, err_refused, err_permission,
  err_internal,
}
use network_mesh_exporter.Probe.{Cycle}

-- `entry`; `connect` with `hasConn` is an option.
pub record Entry : Type 0 where
  pub at : ℕ
  pub rtt : ℕ
  pub connect : Option ℕ

pub record CounterEntry : Type 0 where
  pub at : ℕ
  pub sent : ℕ
  pub received : ℕ
  pub lost : ℕ
  pub reordered : ℕ
  pub class : ErrClass

pub record Window : Type 0 where
  pub dur : ℕ
  pub samples : List Entry
  pub counters : List CounterEntry
  pub last_ok : ℕ

abbrev pub minute : ℕ
minute = 60000000000

-- `NewWindow`; a duration that is not positive stands for 0.
unfoldable pub new_window : ℕ → Window
new_window d = record {
  dur = if eqb d 0 then minute else d;
  samples = [];
  counters = [];
  last_ok = 0;
}

-- The loop over the samples of a cycle, beside the connection times.
unfoldable pub entries : ℕ → List ℕ → List ℕ → List Entry
entries at [] conns = []
entries at (rtt ∷ rtts) [] = record { at = at; rtt = rtt; connect = none } ∷ entries at rtts []
entries at (rtt ∷ rtts) (c ∷ conns) =
    record { at = at; rtt = rtt; connect = some c } ∷ entries at rtts conns

-- `at.Before(now.Add(-dur))`.
abbrev pub is_old : ℕ → ℕ → ℕ → Bool
is_old dur now at = ltb (at + dur) now

-- The two loops of `expire`, which drop a prefix.
unfoldable pub drop_old {ℓ} : {A : Type ℓ} → (A → Bool) → List A → List A
drop_old old [] = []
drop_old old (x ∷ xs) = let rest = drop_old old xs in if old x then rest else x ∷ xs

unfoldable pub expire : ℕ → Window → Window
expire now w = record w {
  samples = drop_old (λ e. is_old w.dur now e.at) w.samples;
  counters = drop_old (λ c. is_old w.dur now c.at) w.counters;
}

-- `Add`, at the time `now`.
unfoldable pub add : ℕ → Cycle → Window → Window
add now c w =
    let at = if eqb c.started_at 0 then now else c.started_at in
    expire now (record w {
      samples = w.samples ++ entries at c.rtt c.connect_rtt;
      counters =
          w.counters
          ++ record {
            at = at;
            sent = c.sent;
            received = c.received;
            lost = c.lost;
            reordered = c.reordered;
            class = c.err_class;
          }
            ∷ [];
      last_ok = if ltb 0 c.received then at else w.last_ok;
    })

unfoldable pub reset : Window → Window
reset w = record w { samples = []; counters = []; last_ok = 0 }

-- `==` on error classes.
abbrev pub class_eqb : ErrClass → ErrClass → Bool
class_eqb err_none err_none = true
class_eqb err_timeout err_timeout = true
class_eqb err_resolve err_resolve = true
class_eqb err_unreachable err_unreachable = true
class_eqb err_refused err_refused = true
class_eqb err_permission err_permission = true
class_eqb err_internal err_internal = true
class_eqb _ _ = false

-- The float64 operations that are used: `float64(a) / float64(b)`, and
-- `int(q*float64(n) + 0.5)`. A float64 is a bit pattern.
pub record Float64 : Type 0 where
  pub ratio : ℕ → ℕ → ℕ
  pub rank : ℕ → ℕ → ℤ

pub record Stats : Type 0 where
  pub samples : ℕ
  pub sent : ℕ
  pub received : ℕ
  pub lost : ℕ
  pub reordered : ℕ
  pub loss_ratio : ℕ
  pub min : ℕ
  pub max : ℕ
  pub mean : ℕ
  pub jitter : ℕ
  pub percentiles : ℕ → Option ℕ
  pub connect_mean : ℕ
  pub last_success : ℕ
  pub errors : ErrClass → ℕ

-- The loop over the counters.
unfoldable pub count : Stats → List CounterEntry → Stats
count st [] = st
count st (c ∷ cs) =
    count
      (record st {
        sent = st.sent + c.sent;
        received = st.received + c.received;
        lost = st.lost + c.lost;
        reordered = st.reordered + c.reordered;
        errors = λ x.
            if not (class_eqb c.class err_none) && class_eqb x c.class
            then st.errors x + 1
            else st.errors x;
      })
      cs

-- The variables of the loop over the samples.
pub record Totals : Type 0 where
  pub total : ℕ
  pub jitter_sum : ℕ
  pub conn_total : ℕ
  pub conn_count : ℕ
  pub min : ℕ
  pub max : ℕ

-- `d`, or `-d` where it is negative.
abbrev pub distance : ℕ → ℕ → ℕ
distance a b = if ltb a b then b - a else a - b

-- One round of the loop, after a sample of `prev` where there is one.
unfoldable pub total_one : Option ℕ → Entry → Totals → Totals
total_one prev s t = record {
  total = t.total + s.rtt;
  jitter_sum = elim prev [ none ↦ t.jitter_sum | some p ↦ t.jitter_sum + distance s.rtt p ];
  conn_total = elim s.connect [ none ↦ t.conn_total | some c ↦ t.conn_total + c ];
  conn_count = elim s.connect [ none ↦ t.conn_count | some c ↦ t.conn_count + 1 ];
  min = if ltb s.rtt t.min then s.rtt else t.min;
  max = if ltb t.max s.rtt then s.rtt else t.max;
}

unfoldable pub total_all : Option ℕ → List Entry → Totals → Totals
total_all prev [] t = t
total_all prev (s ∷ ss) t = total_all (some s.rtt) ss (total_one prev s t)

-- `quantile`, where an index is in range once it is clamped.
unfoldable pub quantile : Float64 → List ℕ → ℕ → ℕ
quantile fl sorted q =
    let i : ℕ = elim (fl.rank q (length sorted - 1)) [ pos i ↦ i | negsuc _ ↦ 0 ] in
    let j = if leb (length sorted) i then length sorted - 1 else i in
    if eqb (length sorted) 0 then 0 else elim (get_elem? sorted j) [ none ↦ 0 | some d ↦ d ]

-- The loop over the percentiles.
unfoldable pub quantiles : Float64 → List ℕ → List ℕ → ℕ → Option ℕ
quantiles fl sorted [] x = none
quantiles fl sorted (q ∷ qs) x =
    let rest = quantiles fl sorted qs x in if eqb x q then some (quantile fl sorted q) else rest

-- The part of `Stats` before the samples are read.
unfoldable pub counted : Float64 → Window → Stats
counted fl w =
    let st =
      count
        (record {
          samples = length w.samples;
          sent = 0;
          received = 0;
          lost = 0;
          reordered = 0;
          loss_ratio = 0;
          min = 0;
          max = 0;
          mean = 0;
          jitter = 0;
          percentiles = λ x. none;
          connect_mean = 0;
          last_success = w.last_ok;
          errors = λ x. 0;
        })
        w.counters in
    if ltb 0 st.sent then record st { loss_ratio = fl.ratio st.lost st.sent } else st

-- The part of `Stats` that reads the samples, of which there is one at least.
unfoldable pub measured : Float64 → List ℕ → Entry → List Entry → Stats → Stats
measured fl qs s ss st =
    let t = total_all none (s ∷ ss) (record {
      total = 0;
      jitter_sum = 0;
      conn_total = 0;
      conn_count = 0;
      min = s.rtt;
      max = s.rtt;
    }) in
    let n = length (s ∷ ss) in
    let sorted = sort ltb (map (λ e. e.rtt) (s ∷ ss)) in
    record st {
      min = t.min;
      max = t.max;
      mean = t.total / n;
      jitter = if ltb 1 n then t.jitter_sum / (n - 1) else 0;
      connect_mean = if ltb 0 t.conn_count then t.conn_total / t.conn_count else 0;
      percentiles = quantiles fl sorted qs;
    }

-- `Stats`, at the time `now`: the statistics, and the window that is left.
unfoldable pub stats : Float64 → ℕ → List ℕ → Window → Stats × Window
stats fl now qs w =
    let left = expire now w in
    let st = counted fl left in
    (elim left.samples [ [] ↦ st | s ∷ ss ↦ measured fl qs s ss st ], left)
