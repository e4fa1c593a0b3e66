-- ===== src/Pacing.antt =====
-- scheduler/throttle.py: `StoreGuard`, which spaces the requests to a host and stops calling a host
-- that keeps failing. Its lock makes each step below one event; seconds are microseconds here.
pub mod Spacing
pub mod Circuit
pub mod Guard
pub mod Shared
use mathlib.Core.Option
use product_updates.Decimal.Written.{digits}
use product_updates.Dict.{Dict, get, put}
use product_updates.Domain.Contexts.{Time, second}
use product_updates.Prelude.{
  ◌+◌, if◌then◌else◌, ltb, leb, suc, some, none, ◌++◌, codes, List, Text, ℕ, ◌≡◌, ◌-◌, ◌∷◌, max,
  Option, Bool, ◌/◌, false, [], true,
}
use product_updates.Tracking.Checking.{GuardDecision}

-- `_StoreState`
pub record StoreState : Type 0 where
  pub last_request_at : Option Time
  pub consecutive_failures : ℕ
  pub open_until : Option Time

abbrev pub fresh_state : StoreState
fresh_state = record { last_request_at = none; consecutive_failures = 0; open_until = none }

-- the arguments of the guard that its steps read; the jitter of a call is an argument of the call
pub record Limits : Type 0 where
  pub min_interval : ℕ
  pub failure_threshold : ℕ
  pub reset_seconds : ℕ

abbrev pub States : Type 0
States = Dict StoreState

-- `self._states.setdefault(host, _StoreState())`
unfoldable pub state_of : States → Text → StoreState
state_of states host = elim (get states host) [ none ↦ fresh_state | some state ↦ state ]

-- the circuit is open at this time
unfoldable pub is_open : StoreState → Time → Bool
is_open state now = elim state.open_until [ none ↦ false | some until ↦ ltb now until ]

-- the reason that a refusal gives
abbrev pub refusal : Text → StoreState → Time → Time → Text
refusal host state until now =
    host
    ++ (codes " has failed "
        ++ (digits state.consecutive_failures
            ++ (codes " times in a row; backing off for another "
                ++ (digits ((until - now) / second) ++ codes "s before trying again"))))

-- the first moment at which the interval since the last request is over
unfoldable pub free_at : Limits → StoreState → Time → Time
free_at limits state now = elim state.last_request_at [
  | none ↦ now
  | some last ↦ max now (last + limits.min_interval)
]

-- The slot of a request that is let through: `now + wait`.
unfoldable pub slot_of : Limits → ℕ → Time → StoreState → Time
unfolding free_at
slot_of limits jitter now state = free_at limits state now + jitter

-- `before`: the decision, and the time of the request if there is one. The caller sleeps until then.
unfoldable pub before : Limits → ℕ → Time → Text → States → (GuardDecision × Option Time) × States
unfolding is_open slot_of state_of
before limits jitter now host states =
    let state = state_of states host in
    let slot = slot_of limits jitter now state in
    if is_open state now
    then (
      (
        record {
          proceed = false;
          reason =
              some (
                refusal host state (elim state.open_until [ none ↦ now | some until ↦ until ]) now);
        },
        none,
      ),
      put states host state,
    )
    else (
      (record { proceed = true; reason = none }, some slot),
      put states host (record state { last_request_at = some slot; open_until = none }),
    )

-- one more failure
unfoldable pub failed_once : Limits → Time → StoreState → StoreState
failed_once limits now state =
    let failures = suc state.consecutive_failures in
    record state {
      consecutive_failures = failures;
      open_until =
          if leb limits.failure_threshold failures
          then some (now + limits.reset_seconds)
          else state.open_until;
    }

-- `after`
unfoldable pub after : Limits → Time → Text → Bool → States → States
unfolding failed_once state_of
after limits now host succeeded states =
    let state = state_of states host in
    put states host (
      if succeeded
      then record state { consecutive_failures = 0; open_until = none }
      else failed_once limits now state)

-- A call by some thread, with the time that its clock shows and the jitter that it draws.
pub data Call : Type 0 where
  before_call : Text → Time → ℕ → Call
  after_call : Text → Time → Bool → Call

-- the slot that a call is given, and the state after it
unfoldable pub step : Limits → Call → States → Option (Text × Time) × States
unfolding before after
step limits (before_call host now jitter) states =
    let done = before limits jitter now host states in
    (Option.map (λ slot. (host, slot)) done.0.1, done.1)
step limits (after_call host now succeeded) states = (none, after limits now host succeeded states)

-- the slots that the calls are given, in order
unfoldable pub run : Limits → List Call → States → List (Text × Time) × States
unfolding step
run limits [] states = ([], states)
run limits (call ∷ calls) states =
    let done = step limits call states in
    let rest = run limits calls done.1 in
    (elim done.0 [ none ↦ rest.0 | some slot ↦ slot ∷ rest.0 ], rest.1)
