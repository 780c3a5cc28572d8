-- ===== src/Concurrency.antt =====
-- `IpConcurrencyLimiter` of src/middleware/rate_limit.rs: at most so many requests of one address run
-- at a time. The semaphore is that of the crate `tokio`. A request is looked up under the mutex, then
-- tries to take a permit, then ends; the three happen in any order between requests. The reference
-- count of a semaphore is the number of requests that hold it.
mod Rows
pub mod Invariant
pub mod Preserved
pub mod Bound
pub mod Limits
mod Tests
use kraken_ui.Common.{
  ℕ, suc, ◌+◌, ◌≡◌, Bool, true, false, not, ◌&&◌, Option, none, some, List, [], ◌∷◌, ◌==◌, ltb, leb,
  if◌then◌else◌, Text, text_eq, Map, empty_map, insert, retain, select_one, count_where,
  update_where, delete_where,
}

-- `tokio::sync::Semaphore` with its permits, as documented.
pub record SemaphoreApi (S : Type 0) : Type 0 where
  pub new : ℕ → S
  pub try_acquire : S → Option S
  pub release : S → S
  pub available : S → ℕ
  pub available-new : (n : ℕ) → available (new n) ≡ n
  pub available-acquired : (s s' : S) → try_acquire s ≡ some s' → available s ≡ suc (available s')
  pub available-refused : (s : S) → try_acquire s ≡ none → available s ≡ 0
  pub available-release : (s : S) → available (release s) ≡ suc (available s)

-- A request that holds a semaphore, and maybe a permit of it.
pub record InFlight : Type 0 where
  pub request : ℕ
  pub client_ip : Text
  pub semaphore : ℕ
  pub permit : Bool

pub record IpConcurrencyLimiter (S : Type 0) : Type 0 where
  pub max_per_ip : ℕ
  pub semaphores : Map ℕ
  pub calls_since_sweep : ℕ
  pub poisoned : Bool
  pub heap : ℕ → S
  pub next_semaphore : ℕ
  pub in_flight : List InFlight
  pub next_request : ℕ

abbrev sweep_interval : ℕ
sweep_interval = 1024

abbrev pub holds : ℕ → InFlight → Bool
holds k r = r.semaphore == k

abbrev pub holds_permit : ℕ → InFlight → Bool
holds_permit k r = r.permit && r.semaphore == k

abbrev pub is_request : ℕ → InFlight → Bool
is_request i r = r.request == i

abbrev pub strong_count : List InFlight → ℕ → ℕ
strong_count requests k = count_where (holds k) requests

-- `Weak::upgrade` on an entry.
abbrev pub upgraded : List InFlight → Option ℕ → Option ℕ
upgraded requests none = none
upgraded requests (some k) = if ltb 0 (strong_count requests k) then some k else none

abbrev pub put_at : {S : Type 0} → (ℕ → S) → ℕ → S → ℕ → S
put_at heap k s j = if j == k then s else heap j

abbrev pub with_permit : InFlight → InFlight
with_permit r = record r { permit = true }

pub data Event : Type 0 where
  arrives : Text → Event
  acquires : ℕ → Event
  finishes : ℕ → Event

module _ {S : Type 0} (api : SemaphoreApi S) where
  unfoldable pub new : ℕ → IpConcurrencyLimiter S
  new max_per_ip = record {
    max_per_ip = max_per_ip;
    semaphores = empty_map;
    calls_since_sweep = 0;
    poisoned = false;
    heap = λ k. api.new 0;
    next_semaphore = 0;
    in_flight = [];
    next_request = 0;
  }

  abbrev pub arrived : IpConcurrencyLimiter S → Text → ℕ → List InFlight
  arrived l ip k =
      record { request = l.next_request; client_ip = ip; semaphore = k; permit = false }
      ∷ l.in_flight

  -- The sweep comes first.
  unfoldable pub swept : IpConcurrencyLimiter S → IpConcurrencyLimiter S
  swept l =
      if leb sweep_interval (l.calls_since_sweep + 1)
      then record l {
        calls_since_sweep = 0;
        semaphores = retain (λ k. ltb 0 (strong_count l.in_flight k)) l.semaphores;
      }
      else record l { calls_since_sweep = l.calls_since_sweep + 1 }

  unfoldable pub joined : Text → IpConcurrencyLimiter S → Option ℕ → IpConcurrencyLimiter S
  joined ip l (some k) = record l { in_flight = arrived l ip k; next_request = l.next_request + 1 }
  joined ip l none = record l {
    semaphores = insert ip l.next_semaphore l.semaphores;
    heap = put_at l.heap l.next_semaphore (api.new l.max_per_ip);
    next_semaphore = l.next_semaphore + 1;
    in_flight = arrived l ip l.next_semaphore;
    next_request = l.next_request + 1;
  }

  -- The lookup by a request, whose number is answered; a poisoned mutex refuses it.
  unfoldable pub semaphore : IpConcurrencyLimiter S → Text → IpConcurrencyLimiter S × Option ℕ
  unfolding swept joined
  semaphore l ip =
      if l.poisoned
      then (l, none)
      else let after = swept l in
        (joined ip after (upgraded after.in_flight (after.semaphores ip)), some l.next_request)

  -- The Arc of a request that gets no permit is dropped.
  unfoldable pub acquired :
      IpConcurrencyLimiter S → InFlight → Option S → IpConcurrencyLimiter S × Bool
  acquired l r (some s) = (
    record l {
      heap = put_at l.heap r.semaphore s;
      in_flight = update_where (is_request r.request) with_permit l.in_flight;
    },
    true,
  )
  acquired l r none =
      (record l { in_flight = delete_where (is_request r.request) l.in_flight }, false)

  unfoldable pub acquire_by :
      IpConcurrencyLimiter S → Option InFlight → IpConcurrencyLimiter S × Bool
  unfolding acquired
  acquire_by l none = (l, false)
  acquire_by l (some r) =
      if r.permit then (l, true) else acquired l r (api.try_acquire (l.heap r.semaphore))

  -- `try_acquire_owned` by the request of this number.
  unfoldable pub try_acquire : IpConcurrencyLimiter S → ℕ → IpConcurrencyLimiter S × Bool
  unfolding acquire_by
  try_acquire l i = acquire_by l (select_one (is_request i) l.in_flight)

  unfoldable pub finish_by : IpConcurrencyLimiter S → Option InFlight → IpConcurrencyLimiter S
  finish_by l none = l
  finish_by l (some r) =
      let left = delete_where (is_request r.request) l.in_flight in
      if r.permit
      then record l {
        heap = put_at l.heap r.semaphore (api.release (l.heap r.semaphore));
        in_flight = left;
      }
      else record l { in_flight = left }

  -- The request ends, which drops its permit and its Arc.
  unfoldable pub finish : IpConcurrencyLimiter S → ℕ → IpConcurrencyLimiter S
  unfolding finish_by
  finish l i = finish_by l (select_one (is_request i) l.in_flight)

  unfoldable pub step : IpConcurrencyLimiter S → Event → IpConcurrencyLimiter S
  unfolding semaphore try_acquire finish
  step l (arrives ip) = (semaphore l ip).0
  step l (acquires i) = (try_acquire l i).0
  step l (finishes i) = finish l i

  unfoldable pub run : IpConcurrencyLimiter S → List Event → IpConcurrencyLimiter S
  unfolding step
  run l [] = l
  run l (e ∷ events) = run (step l e) events
