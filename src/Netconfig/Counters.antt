-- ===== src/Netconfig/Counters.antt =====
-- cmd/netconfigd/netconfigd.go: the counters that `init` exports.
use rout.Base.{ℕ, ◌+◌, ◌%◌, ◌≡◌, List, [], ◌∷◌, Option, some, arith}

-- `metric.packets` and `metric.bytes`, of type uint64.
pub record Metric : Type 0 where
  pub packets : ℕ
  pub bytes : ℕ

-- What `GetObjReset` returns one of: a counter, with its packets and bytes, or another object.
pub data Obj : Type 0 where
  counter : ℕ → ℕ → Obj
  other : Obj

abbrev pub add_uint64 : ℕ → ℕ → ℕ
add_uint64 a b = (a + b) % 18446744073709551616

-- `updateCounter`; `none` is an error of `GetObjReset`.
unfoldable pub update_counter : Metric → Option (List Obj) → Metric
update_counter m (some (counter packets bytes ∷ [])) = record {
  packets = add_uint64 m.packets packets;
  bytes = add_uint64 m.bytes bytes;
}
update_counter m _ = m

-- The function of a `CounterFunc`: it reads the counter and returns one of the metric's two numbers, as
-- the conversion to float64 gives it.
unfoldable pub collect {ℓ} :
    {F : Type ℓ} → (ℕ → F) → (Metric → ℕ) → Metric → Option (List Obj) → Metric × F
collect float64 number m r = let m' = update_counter m r in (m', float64 (number m'))

-- One scrape of the page collects both counters, here the packets first.
unfoldable pub scrape {ℓ} :
    {F : Type ℓ} → (ℕ → F) → Metric → Option (List Obj) → Option (List Obj) → Metric × F × F
scrape float64 m r r' =
    let (m1, packets) = collect float64 (λ (x : Metric). x.packets) m r in
    let (m2, bytes) = collect float64 (λ (x : Metric). x.bytes) m1 r' in (m2, packets, bytes)

-- The metric behind some scrapes, each with its two readings.
unfoldable pub scrapes {ℓ} :
    {F : Type ℓ} → (ℕ → F) → Metric → List (Option (List Obj) × Option (List Obj)) → Metric
scrapes float64 m [] = m
scrapes float64 m ((r, r') ∷ rest) = scrapes float64 (scrape float64 m r r').0 rest

-- The packets that the readings of exactly one counter have returned.
abbrev pub read_packets : Option (List Obj) → ℕ
read_packets (some (counter packets bytes ∷ [])) = packets
read_packets _ = 0

abbrev pub total_packets : List (Option (List Obj) × Option (List Obj)) → ℕ
total_packets [] = 0
total_packets ((r, r') ∷ rest) = read_packets r + (read_packets r' + total_packets rest)

add_uint64_assoc : (a b c : ℕ) → add_uint64 (add_uint64 a b) c ≡ add_uint64 a (b + c)
add_uint64_assoc a b c = omega arith
