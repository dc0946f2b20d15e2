-- ===== src/Executor/Slots.antt =====
-- executor/cli.go: the channel of query tokens, and the queries that hold one.
use qmdsr.Prelude.{
  ℕ, zero, suc, ◌+◌, ◌-◌, ◌≤◌, ◌≡◌, true, Option, none, some, List, [], ◌∷◌, arith, ltb,
  if◌then◌else◌,
}
use qmdsr.Prelude.Int.{ℤ, pos_part, is_pos}

-- The capacity of `queryTokens`; `none` where there is no channel.
unfoldable pub query_tokens : ℤ → Option ℕ
query_tokens max_concurrency =
    if is_pos max_concurrency then some (pos_part max_concurrency) else none

-- A send that does not wait: the tokens in the channel after it, if it has room.
unfoldable pub acquire_query_slot : Option ℕ → ℕ → Option ℕ
acquire_query_slot none used = some used
acquire_query_slot (some capacity) used = if ltb used capacity then some (used + 1) else none

unfoldable pub release_query_slot : Option ℕ → ℕ → ℕ
release_query_slot none used = used
release_query_slot (some capacity) used = used - 1

-- The tokens in the channel, and the queries past `acquireQuerySlot` that have not yet returned.
pub record Slots : Type 0 where
  pub used : ℕ
  pub running : ℕ

-- A query that finds room, or none yet; or a running query that returns.
pub data SlotEvent : Type 0 where
  enter leave : SlotEvent

unfoldable pub slot_step : Option ℕ → SlotEvent → Slots → Slots
slot_step capacity enter s = elim (acquire_query_slot capacity s.used) [
  | none ↦ s
  | some used ↦ record { used = used; running = s.running + 1 }
]
slot_step capacity leave s = elim s.running [
  | zero ↦ s
  | suc n ↦ record { used = release_query_slot capacity s.used; running = n }
]

unfoldable pub run_slots : Option ℕ → List SlotEvent → Slots → Slots
run_slots capacity [] s = s
run_slots capacity (e ∷ es) s = run_slots capacity es (slot_step capacity e s)

unfoldable pub no_slots : Slots
no_slots = record { used = 0; running = 0 }

-- With a channel, each running query has its token, and the channel has room for them.
pub record IsCounted (capacity : ℕ) (s : Slots) : Type 0 where
  pub each : s.used ≡ s.running
  pub within : s.running ≤ capacity

leave-IsCounted :
    (capacity used running : ℕ)
    → IsCounted capacity (record { used = used; running = running })
    → IsCounted capacity
        (slot_step (some capacity) leave (record { used = used; running = running }))
unfolding slot_step release_query_slot
leave-IsCounted capacity used zero k = k
leave-IsCounted capacity used (suc n) k = record {
  each = omega (arith, k.each);
  within = omega (arith, k.within);
}

slot_step-IsCounted :
    (capacity : ℕ) (e : SlotEvent) (s : Slots)
    → IsCounted capacity s
    → IsCounted capacity (slot_step (some capacity) e s)
unfolding slot_step acquire_query_slot release_query_slot
slot_step-IsCounted capacity enter s k = record {
  each = ground (arith, k.each);
  within = ground (arith, k.each, k.within);
}
slot_step-IsCounted capacity leave s k = leave-IsCounted capacity s.used s.running k

run_slots-IsCounted :
    (capacity : ℕ) (es : List SlotEvent) (s : Slots)
    → IsCounted capacity s
    → IsCounted capacity (run_slots (some capacity) es s)
unfolding run_slots
run_slots-IsCounted capacity [] s k = k
run_slots-IsCounted capacity (e ∷ es) s k =
    run_slots-IsCounted capacity es _ (slot_step-IsCounted capacity e s k)

no_slots-IsCounted : (capacity : ℕ) → IsCounted capacity no_slots
unfolding no_slots
no_slots-IsCounted capacity = record { each = omega arith; within = omega arith }

entered :
    (capacity : ℕ) (s : Slots)
    → IsCounted capacity s
    → (slot_step (some capacity) enter s).running
      ≡ (if ltb s.running capacity then s.running + 1 else s.running)
unfolding slot_step acquire_query_slot
entered capacity s k = ground (arith, k.each)

-- With a positive bound on the queries, after any sequence of queries that enter and return from
-- none, no more than the bound are running, and one that comes is let in exactly if fewer are.
pub slots_lem :
    (max_concurrency : ℤ) (es : List SlotEvent)
    → is_pos max_concurrency ≡ true
    → let capacity = query_tokens max_concurrency in
      let s = run_slots capacity es no_slots in
      (s.running ≤ pos_part max_concurrency)
      × ((slot_step capacity enter s).running
          ≡ (if ltb s.running (pos_part max_concurrency) then s.running + 1 else s.running))
unfolding query_tokens
slots_lem max_concurrency es h =
    let capacity = pos_part max_concurrency in
    let k = run_slots-IsCounted capacity es no_slots (no_slots-IsCounted capacity) in
    rw h (k.within, entered capacity (run_slots (some capacity) es no_slots) k)
