-- ===== src/Pacing/Circuit.antt =====
-- The circuit breaker of a host: when it opens, when it lets calls through, and whom it concerns.
use product_updates.Domain.Contexts.{Time}
use product_updates.Pacing.{
  Limits, StoreState, States, Call, state_of, before, after, step, run, before_call, after_call,
  is_open, failed_once, put,
}
use product_updates.Pacing.Spacing.{state_of-put}
use product_updates.Prelude.{
  ◌+◌, ◌≤◌, ◌<◌, if◌then◌else◌, List, [], ◌∷◌, text_eq, none, Text, ℕ, suc, ◌≡◌, arith, refl, true,
  false, inl, inr, text_eq_refl, Bool-cases, length, All, ◌∙◌, ap, not, Bool,
}

-- failures at these times, one after the other
abbrev pub fail_all : Limits → Text → List Time → States → States
fail_all limits host [] states = states
fail_all limits host (t ∷ ts) states = fail_all limits host ts (after limits t host false states)

abbrev pub failures_of : States → Text → ℕ
failures_of states host = (state_of states host).consecutive_failures

pub state_of-put_self :
    (states : States) (host : Text) (state : StoreState)
    → state_of (put states host state) host ≡ state
state_of-put_self states host state =
    state_of-put states host host state ∙ rw (text_eq_refl host) refl

failures_of-fail_all :
    (limits : Limits) (host : Text) (ts : List Time) (states : States)
    → failures_of (fail_all limits host ts states) host ≡ failures_of states host + length ts
unfolding after failed_once
failures_of-fail_all limits host [] states = omega arith
failures_of-fail_all limits host (t ∷ ts) states =
    failures_of-fail_all limits host ts (after limits t host false states)
    ∙ ap (λ (s : StoreState). s.consecutive_failures + length ts)
        (state_of-put_self states host (failed_once limits t (state_of states host)))
    ∙ omega arith

pub proceed-before :
    (limits : Limits) (jitter : ℕ) (now : Time) (host : Text) (states : States)
    → (before limits jitter now host states).0.0.proceed ≡ not (is_open (state_of states host) now)
unfolding before
proceed-before limits jitter now host states =
    elim (Bool-cases (is_open (state_of states host) now)) [ inl e ↦ rw e refl | inr e ↦ rw e refl ]

state_of-after :
    (limits : Limits) (t : Time) (host : Text) (ok : Bool) (states : States)
    → state_of (after limits t host ok states) host ≡ (
        if ok
        then record (state_of states host) { consecutive_failures = 0; open_until = none }
        else failed_once limits t (state_of states host))
unfolding after
state_of-after limits t host ok states = state_of-put_self states host _

state_of-before :
    (limits : Limits) (jitter : ℕ) (now : Time) (host : Text) (states : States)
    → is_open (state_of states host) now ≡ false
    → (state_of (before limits jitter now host states).1 host).open_until ≡ none
unfolding before
state_of-before limits jitter now host states closed =
    rw closed (ap (λ (s : StoreState). s.open_until) (state_of-put_self states host _))

is_open-failed :
    (limits : Limits) (t now : Time) (state : StoreState)
    → limits.failure_threshold ≤ suc state.consecutive_failures
    → now < t + limits.reset_seconds
    → is_open (failed_once limits t state) now ≡ true
unfolding is_open failed_once
is_open-failed limits t now state enough early = ground arith

is_open-none :
    (state : StoreState) (now : Time) → state.open_until ≡ none → is_open state now ≡ false
unfolding is_open
is_open-none state now e = ground arith

-- Once a host has failed as often in a row as the threshold says, it is not called until the reset
-- time after its last failure has passed, whatever was known of it before.
failing_host-refused :
    (limits : Limits) (host : Text) (ts : List Time) (t now : Time) (jitter : ℕ) (states : States)
    → limits.failure_threshold ≤ suc (length ts)
    → now < t + limits.reset_seconds
    → (before limits jitter now host
        (after limits t host false (fail_all limits host ts states))).0.0.proceed
      ≡ false
failing_host-refused limits host ts t now jitter states enough early =
    let before_last = fail_all limits host ts states in
    proceed-before limits jitter now host _
    ∙ ap (λ s. not (is_open s now)) (state_of-after limits t host false before_last)
    ∙ ap not (
        is_open-failed limits t now (state_of before_last host)
          (omega (arith, failures_of-fail_all limits host ts states)) early)

-- A success closes the circuit: the next call goes through, whenever it comes.
pub success-admitted :
    (limits : Limits) (host : Text) (t now : Time) (jitter : ℕ) (states : States)
    → (before limits jitter now host (after limits t host true states)).0.0.proceed ≡ true
success-admitted limits host t now jitter states =
    proceed-before limits jitter now host _
    ∙ ap not (
        is_open-none _ now
          (ap (λ (s : StoreState). s.open_until) (state_of-after limits t host true states)))

-- The first call after the reset time goes through, and so does every further one, at whatever time,
-- until an outcome is reported.
pub half_open-admits_all :
    (limits : Limits) (host : Text) (now now' : Time) (jitter jitter' : ℕ) (states : States)
    → is_open (state_of states host) now ≡ false
    → let probe = before limits jitter now host states in
      (probe.0.0.proceed ≡ true) × ((before limits jitter' now' host probe.1).0.0.proceed ≡ true)
half_open-admits_all limits host now now' jitter jitter' states closed = (
  proceed-before limits jitter now host states ∙ ap not closed,
  proceed-before limits jitter' now' host _
      ∙ ap not (is_open-none _ now' (state_of-before limits jitter now host states closed)),
)

abbrev pub host_of_call : Call → Text
host_of_call (before_call host now jitter) = host
host_of_call (after_call host now succeeded) = host

step-other :
    (limits : Limits) (call : Call) (states : States) (host : Text)
    → text_eq (host_of_call call) host ≡ false
    → state_of (step limits call states).1 host ≡ state_of states host
unfolding step before after
step-other limits (before_call h now jitter) states host other =
    elim (Bool-cases (is_open (state_of states h) now)) [
      | inl shut ↦ rw shut (state_of-put states h host _ ∙ rw other refl)
      | inr free ↦ rw free (state_of-put states h host _ ∙ rw other refl)
    ]
step-other limits (after_call h now ok) states host other =
    state_of-put states h host _ ∙ rw other refl

-- Calls on other hosts do not change what is known of a host.
pub other_hosts-unmoved :
    (limits : Limits) (calls : List Call) (states : States) (host : Text)
    → All (λ c. text_eq (host_of_call c) host ≡ false) calls
    → state_of (run limits calls states).1 host ≡ state_of states host
unfolding run
other_hosts-unmoved limits [] states host h = refl
other_hosts-unmoved limits (call ∷ calls) states host (other, h) =
    other_hosts-unmoved limits calls (step limits call states).1 host h
    ∙ step-other limits call states host other
