-- ===== src/Client/Retrieve.antt =====
-- RetrieveResponses of liblhcluster/src/client.cxx: the two loops over the poller.
use lhcluster.Common.{ℕ, ◌+◌, ◌/◌, Bool, true, false, ◌&&◌, List, [], ◌∷◌, ◌++◌, if◌then◌else◌}
use lhcluster.Common.Int.{ℤ, pos, negsuc, sub_ℕ, ltb_ℤ, ◌-ℤ◌}
use lhcluster.Wire.{Wire, Message}
use lhcluster.Broker.Parse.{Parsed, parsed, malformed, unparsable}
use lhcluster.Client.Response.{RequestResponse, fill_from_message}

-- What one pass of the outer loop meets: the messages that the poller finds, one poll after the other,
-- and what the clock, which counts nanoseconds, shows at its end.
pub record Wake (F : Type 0) : Type 0 where
  pub arrived : List (Message F)
  pub current_time : ℤ

-- `duration_cast< milliseconds >`, towards 0
abbrev pub whole_ms : ℤ → ℤ
whole_ms (pos n) = pos (n / 1000000)
whole_ms (negsuc n) = sub_ℕ 0 ((n + 1) / 1000000)

-- Where a loop is: `requestResponses`, and whether a response has thrown.
pub record Progress (F : Type 0) : Type 0 where
  pub responses : List (RequestResponse F)
  pub received : ℕ
  pub failed : Bool

-- `numReceived < responseLimit`
abbrev pub below_limit : ℤ → ℕ → Bool
below_limit limit received = ltb_ℤ (pos received) limit

module _ {F : Type 0} where
  -- `requestResponses.emplace_back( &responseMessage ); ++numReceived;`
  unfoldable pub emplace_response : Parsed (RequestResponse F) → Progress F → Progress F
  emplace_response (parsed r) p = record {
    responses = p.responses ++ r ∷ [];
    received = p.received + 1;
    failed = false;
  }
  emplace_response (malformed code) p = record p { failed = true }
  emplace_response unparsable p = record p { failed = true }

module _ {F : Type 0} ⦃w : Wire F⦄ where
  -- the inner loop, entered when the poller has found a message
  unfoldable pub drain : ℤ → List (Message F) → Progress F → Progress F
  unfolding emplace_response fill_from_message
  drain limit [] p = p
  drain limit (m ∷ ms) p =
      let q = emplace_response (fill_from_message m) p in
      let rest = drain limit ms q in
      if q.failed then q else if below_limit limit q.received then rest else q

-- How the call ends: with a number, with an exception, or it waits still when the wakes run out.
pub data Ending : Type 0 where
  retrieved : ℕ → Ending
  bad_response still_waiting : Ending

module _ {F : Type 0} ⦃w : Wire F⦄ where
  -- the outer loop
  unfoldable pub retrieve : ℤ → ℤ → ℤ → List (Wake F) → Progress F → Ending × Progress F
  unfolding drain ◌-ℤ◌
  retrieve limit previous remaining [] p = (still_waiting, p)
  retrieve limit previous remaining (k ∷ ks) p =
      let q = drain limit k.arrived p in
      let left = remaining -ℤ whole_ms (k.current_time -ℤ previous) in
      let rest = retrieve limit k.current_time left ks q in
      if q.failed
      then (bad_response, q)
      else if below_limit limit q.received && ltb_ℤ (pos 0) left
      then rest
      else (retrieved q.received, q)

  -- `RetrieveResponses`, called when the clock shows `now`
  unfoldable pub retrieve_responses :
      ℤ → ℤ → ℤ → List (Wake F) → List (RequestResponse F) → Ending × Progress F
  unfolding retrieve
  retrieve_responses now limit timeout ks responses =
      retrieve limit now timeout ks (record { responses = responses; received = 0; failed = false })

  -- `RetrieveResponses`, without a timeout
  unfoldable pub retrieve_available :
      ℤ → ℤ → List (Wake F) → List (RequestResponse F) → Ending × Progress F
  unfolding retrieve_responses
  retrieve_available now limit ks responses = retrieve_responses now limit (pos 0) ks responses
