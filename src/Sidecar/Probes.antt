-- ===== src/Sidecar/Probes.antt =====
-- What the sidecar finds out: probeHTTP and probeKafka of server/sidecar/handlers/health.go, Status
-- of kafka.go, and the processor's share in GetStats of containers.go. The share is the exact
-- fraction that the floating point number stands for. Latencies and the time of the check are left
-- out.
use lattice_hub.Base.{
  ℕ, ◌+◌, ◌-◌, ◌*◌, ◌%◌, ◌<◌, ◌≡◌, refl, ap, inl, inr, false, ◌&&◌, Option, none, some, List, [],
  ◌∷◌, arith, ltb, ◌==◌, if◌then◌else◌, Text, codes, length, text_eq, text_eq_iff, Bool-cases,
  or_else, Result, ok, err,
}
use lattice_hub.Base.Maps.{Map, lookup, insert, lookup-nil, lookup-insert}

-- A connection to the broker: an error, or what ReadPartitions answers, with a topic for each
-- partition.
abbrev pub Broker : Type 0
Broker = Result Text (Result Text (List Text))

unfoldable topic_count : List Text → Map ℕ
topic_count [] = []
topic_count (t ∷ ts) = let rest = topic_count ts in insert t (or_else (lookup t rest) 0 + 1) rest

pub data KafkaDetail : Type 0 where
  unreachable : Text → KafkaDetail
  no_partitions : Text → KafkaDetail
  partitions : ℕ → Map ℕ → KafkaDetail

unfoldable probe_kafka : Broker → KafkaDetail
unfolding topic_count
probe_kafka (err e) = unreachable e
probe_kafka (ok (err e)) = no_partitions e
probe_kafka (ok (ok ts)) = partitions (length ts) (topic_count ts)

pub data KafkaStatus : Type 0 where
  not_reached : Text → KafkaStatus
  unread : KafkaStatus
  reached : ℕ → KafkaStatus

-- Status asks for the partitions of one topic.
unfoldable pub kafka_status : Broker → KafkaStatus
kafka_status (err e) = not_reached e
kafka_status (ok (err e)) = unread
kafka_status (ok (ok ts)) = reached (length ts)

-- A response: its status, its content type, and its body, where that is JSON.
pub record HttpAnswer : Type 0 where
  pub status : ℕ
  pub content_type : Text
  pub json : Option Text

pub data HttpDetail : Type 0 where
  http_error : Text → HttpDetail
  body : Text → HttpDetail
  no_detail : HttpDetail

abbrev detail_of : Option Text → HttpDetail
detail_of none = no_detail
detail_of (some t) = body t

unfoldable probe_http : Result Text HttpAnswer → ℕ × HttpDetail
probe_http (err e) = (0, http_error e)
probe_http (ok a) = (
  a.status,
  if text_eq a.content_type (codes "application/json") then detail_of a.json else no_detail,
)

-- `int64(a) - int64(b)` of two uint64s, or 0 where that is negative.
unfoldable delta : ℕ → ℕ → ℕ
delta a b =
    let d = (a + 18446744073709551616 - b) % 18446744073709551616 in
    if ltb d 9223372036854775808 then d else 0

pub record CpuSample : Type 0 where
  pub total_usage : ℕ
  pub system_usage : ℕ
  pub online_cpus : ℕ
  pub percpu : ℕ

pub record Fraction : Type 0 where
  pub numerator : ℕ
  pub denominator : ℕ

unfoldable pub cpu_percent : CpuSample → ℕ → ℕ → Fraction
unfolding delta
cpu_percent s pre_total pre_system =
    let cpu = delta s.total_usage pre_total in
    let sys = delta s.system_usage pre_system in
    let cpus = if s.online_cpus == 0 then s.percpu else s.online_cpus in
    if ltb 0 sys && ltb 0 cpus
    then record { numerator = cpu * cpus * 100; denominator = sys }
    else record { numerator = 0; denominator = 1 }

abbrev sum_counts : Map ℕ → ℕ
sum_counts [] = 0
sum_counts ((t, n) ∷ m) = n + sum_counts m

sum_counts-insert :
    (t : Text) (n : ℕ) (m : Map ℕ)
    → sum_counts (insert t n m) + or_else (lookup t m) 0 ≡ sum_counts m + n
unfolding insert lookup
sum_counts-insert t n [] = omega arith
sum_counts-insert t n ((j, k) ∷ m) = elim (Bool-cases (text_eq j t)) [
  | inl e ↦ rw (e, insert, lookup) (omega arith)
  | inr e ↦ rw (e, insert, lookup) (omega (arith, sum_counts-insert t n m))
]

abbrev pub count : Text → List Text → ℕ
count t [] = 0
count t (u ∷ us) = (if text_eq u t then 1 else 0) + count t us

added :
    (u : Text) (us : List Text) (t : Text)
    → or_else (lookup t (topic_count us)) 0 ≡ count t us
    → or_else (lookup u (topic_count us)) 0 ≡ count u us
    → or_else (lookup t (insert u (or_else (lookup u (topic_count us)) 0 + 1) (topic_count us))) 0
      ≡ (if text_eq u t then 1 else 0) + count t us
added u us t at_t at_u = elim (Bool-cases (text_eq u t)) [
  | inl e ↦
      let same = (text_eq_iff u t).0 e in
      rw (lookup-insert u t (or_else (lookup u (topic_count us)) 0 + 1) (topic_count us), e)
        (omega (arith, at_u, ap (λ (x : Text). count x us) same))
  | inr e ↦
      rw (lookup-insert u t (or_else (lookup u (topic_count us)) 0 + 1) (topic_count us), e)
        (omega (arith, at_t))
]

-- Each topic is counted as often as it has partitions, and together the counts are the number of
-- partitions.
topic_count_lem :
    (ts : List Text)
    → (sum_counts (topic_count ts) ≡ length ts)
      × ((t : Text) → or_else (lookup t (topic_count ts)) 0 ≡ count t ts)
unfolding topic_count
topic_count_lem [] = (refl, λ t. rw lookup-nil refl)
topic_count_lem (u ∷ us) =
    let (all, each) = topic_count_lem us in
    let rest = topic_count us in
    (
      omega (arith, all, sum_counts-insert u (or_else (lookup u rest) 0 + 1) rest),
      λ t. added u us t (each t) (each u),
    )

-- The share of the processor is that of the two samples where both counters went up by less than 2
-- ^ 63, and 0 where a counter went down.
delta_lem :
    (a b : ℕ)
    → a < 18446744073709551616
    → b < 18446744073709551616
    → ((d : ℕ) → a ≡ b + d → d < 9223372036854775808 → delta a b ≡ d)
      × ((d : ℕ) → b ≡ a + d → 0 < d → d < 9223372036854775809 → delta a b ≡ 0)
unfolding delta
delta_lem a b ha hb = (
  λ d e lt.
      let r : (a + 18446744073709551616 - b) % 18446744073709551616 ≡ d = omega arith in
      rw r (ground (arith, lt)),
  λ d e pos lt.
      let r : (a + 18446744073709551616 - b) % 18446744073709551616 ≡ 18446744073709551616 - d =
        omega arith in
      let large : ltb (18446744073709551616 - d) 9223372036854775808 ≡ false = ground arith in
      rw (r, large) refl,
)
