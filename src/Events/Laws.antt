-- ===== src/Events/Laws.antt =====
-- Wrapping, ordering and identity of the runtime events of models/events.py.
use runtime_contracts.Prelude.{
  Bool-cases, inl, inr, ltb_ℤ, pos, String, List, ◌≡◌, refl, arith, ok, string_order, int_order,
  pair_order,
}
use mathlib.Core.List.{Perm}
use runtime_contracts.Prelude.Sort.{IsSorted, sort-IsSorted, sort-perm}
use runtime_contracts.Canonical.Value.{Platform}
use runtime_contracts.Investigation.{InvestigationTransitionEvent, event_post_init}
use runtime_contracts.Events.{
  RuntimeEvent, wrapped, stream_key, replay, as_runtime_event, runtime_event_hash,
}

-- `replay` returns the events in the order of stream and sequence, and returns all of them.
pub replay_lem :
    (events : List RuntimeEvent) → IsSorted stream_key (replay events) × Perm (replay events) events
unfolding replay
replay_lem events = (sort-IsSorted stream_key events, sort-perm stream_key events)

-- A transition event that was constructed is wrapped, at its own sequence number, and its hash in
-- the stream does not depend on the id that the emitter chooses.
pub as_runtime_event_lem :
    (env : Platform) (e : InvestigationTransitionEvent) (i j stream by : String)
    → event_post_init env e ≡ ok tt
    → (w v : RuntimeEvent) × (as_runtime_event e i stream by ≡ ok w)
      × (as_runtime_event e j stream by ≡ ok v)
      × (stream_key w ≡ (stream, e.sequence))
      × (runtime_event_hash env w ≡ runtime_event_hash env v)
unfolding event_post_init as_runtime_event runtime_event_hash
as_runtime_event_lem env e i j stream by h = elim (Bool-cases (ltb_ℤ e.sequence (pos 0))) [
  | inl negative ↦ absurd (ground arith)
  | inr good ↦
      (wrapped e i stream by, wrapped e j stream by, rw good refl, rw good refl, refl, refl)
]
