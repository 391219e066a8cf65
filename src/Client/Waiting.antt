-- ===== src/Client/Waiting.antt =====
-- How RetrieveResponses of liblhcluster/src/client.cxx counts, and when it ends.
use lhcluster.Common.{
  ℕ, ◌+◌, ◌≤◌, ◌<◌, ◌≡◌, true, false, Bool-cases, inl, inr, List, [], ◌∷◌, length, length-append,
  arith, if◌then◌else◌,
}
use lhcluster.Common.Int.{ℤ, pos, pos_part, ltb_ℤ, ◌-ℤ◌, ◌≤ℤ◌, -ℤ_parts}
use lhcluster.Wire.{Wire, Message}
use lhcluster.Broker.Parse.{Parsed, parsed, malformed, unparsable}
use lhcluster.Client.Response.{RequestResponse, fill_from_message}
use lhcluster.Client.Retrieve.{
  Wake, Progress, Ending, retrieved, still_waiting, whole_ms, below_limit, emplace_response, drain,
  retrieve, retrieve_responses,
}

-- What the call can add at most: its limit, and one response even if the limit is below 1.
abbrev pub most : ℤ → ℕ
most limit = if ltb_ℤ (pos 1) limit then pos_part limit else 1

below_lem : (limit : ℤ) (n : ℕ) → below_limit limit n ≡ true → n < most limit
below_lem limit n e = ground arith

most_pos : (limit : ℤ) → 0 < most limit
most_pos limit = ground arith

module _ {F : Type 0} where
  emplaced :
      (r : Parsed (RequestResponse F)) (p : Progress F)
      → p.received ≤ (emplace_response r p).received
  unfolding emplace_response
  emplaced (parsed r) p = omega arith
  emplaced (malformed code) p = omega arith
  emplaced unparsable p = omega arith

  emplaced_new :
      (r : Parsed (RequestResponse F)) (p : Progress F)
      → (emplace_response r p).failed ≡ false
      → p.received < (emplace_response r p).received
  unfolding emplace_response
  emplaced_new (parsed r) p e = omega arith
  emplaced_new (malformed code) p e = ground (arith, e)
  emplaced_new unparsable p e = ground (arith, e)

  -- The count is that of the responses added, and is within the limit.
  abbrev pub IsWithin : ℤ → ℕ → Progress F → Type 0
  IsWithin limit start p = (length p.responses ≡ start + p.received) × (p.received ≤ most limit)

  emplace_response-IsWithin :
      (limit : ℤ) (start : ℕ) (r : Parsed (RequestResponse F)) (p : Progress F)
      → IsWithin limit start p
      → p.received < most limit
      → IsWithin limit start (emplace_response r p)
  unfolding emplace_response
  emplace_response-IsWithin limit start (parsed r) p h e =
      (omega (arith, length-append p.responses (r ∷ []), h.0), omega (arith, e))
  emplace_response-IsWithin limit start (malformed code) p h e = h
  emplace_response-IsWithin limit start unparsable p h e = h

module _ {F : Type 0} ⦃w : Wire F⦄ where
  drain-IsWithin :
      (limit : ℤ) (start : ℕ) (ms : List (Message F)) (p : Progress F)
      → IsWithin limit start p
      → p.received < most limit
      → IsWithin limit start (drain limit ms p)
  unfolding drain
  drain-IsWithin limit start [] p h e = h
  drain-IsWithin limit start (m ∷ ms) p h e =
      let q : Progress F = emplace_response (fill_from_message m) p in
      let hq : IsWithin limit start q =
        emplace_response-IsWithin limit start (fill_from_message m) p h e in
      elim (Bool-cases q.failed) [
        | inl bad ↦ rw (bad) hq
        | inr good ↦ elim (Bool-cases (below_limit limit q.received)) [
          | inl more ↦ rw (good, more) (drain-IsWithin limit start ms q hq (below_lem _ _ more))
          | inr full ↦ rw (good, full) hq
        ]
      ]

  -- What the call promises of its ending and its progress.
  abbrev pub IsCounted : ℤ → ℕ → Ending × Progress F → Type 0
  IsCounted limit start r =
      IsWithin limit start r.1 × ((n : ℕ) → r.0 ≡ retrieved n → n ≡ r.1.received)

  retrieve-IsCounted :
      (limit previous remaining : ℤ) (start : ℕ) (ks : List (Wake F)) (p : Progress F)
      → IsWithin limit start p
      → p.received < most limit
      → IsCounted limit start (retrieve limit previous remaining ks p)
  unfolding retrieve
  retrieve-IsCounted limit previous remaining start [] p h e = (h, λ n x. ground (arith, x))
  retrieve-IsCounted limit previous remaining start (k ∷ ks) p h e =
      let q : Progress F = drain limit k.arrived p in
      let left : ℤ = remaining -ℤ whole_ms (k.current_time -ℤ previous) in
      let hq : IsWithin limit start q = drain-IsWithin limit start k.arrived p h e in
      elim (Bool-cases q.failed) [
        | inl bad ↦ rw (bad) (hq, λ n x. ground (arith, x))
        | inr good ↦ elim (Bool-cases (below_limit limit q.received)) [
          | inl more ↦ elim (Bool-cases (ltb_ℤ (pos 0) left)) [
            | inl goes_on ↦
                rw (good, more, goes_on)
                  (retrieve-IsCounted limit k.current_time left start ks q hq (below_lem _ _ more))
            | inr late ↦ rw (good, more, late) (hq, λ n x. ground (arith, x))
          ]
          | inr full ↦ rw (good, full) (hq, λ n x. ground (arith, x))
        ]
      ]

  -- `requestResponses` grows by exactly the number that the call counts, whether the call returns, throws
  -- or still waits; the count is within the limit, or 1 if the limit is below 1; and a number that the
  -- call returns is this count.
  pub retrieve_responses-IsCounted :
      (now limit timeout : ℤ) (ks : List (Wake F)) (responses : List (RequestResponse F))
      → IsCounted limit (length responses) (retrieve_responses now limit timeout ks responses)
  unfolding retrieve_responses
  retrieve_responses-IsCounted now limit timeout ks responses =
      retrieve-IsCounted limit now timeout (length responses) ks
        (record { responses = responses; received = 0; failed = false }) (omega arith, omega arith)
        (most_pos limit)

  drain_grows :
      (limit : ℤ) (ms : List (Message F)) (p : Progress F)
      → p.received ≤ (drain limit ms p).received
  unfolding drain emplace_response
  drain_grows limit [] p = omega arith
  drain_grows limit (m ∷ ms) p =
      let q : Progress F = emplace_response (fill_from_message m) p in
      let grown : p.received ≤ q.received = emplaced (fill_from_message m) p in
      elim (Bool-cases q.failed) [
        | inl bad ↦ rw (bad) grown
        | inr good ↦ elim (Bool-cases (below_limit limit q.received)) [
          | inl more ↦ rw (good, more) (omega (arith, grown, drain_grows limit ms q))
          | inr full ↦ rw (good, full) grown
        ]
      ]

  drain_takes :
      (limit : ℤ) (m : Message F) (ms : List (Message F)) (p : Progress F)
      → (drain limit (m ∷ ms) p).failed ≡ false
      → p.received < (drain limit (m ∷ ms) p).received
  unfolding drain
  drain_takes limit m ms p =
      let q : Progress F = emplace_response (fill_from_message m) p in
      elim (Bool-cases q.failed) [
        | inl bad ↦ rw (bad) (λ x. ground (arith, x, bad))
        | inr good ↦
            let more = emplaced_new (fill_from_message m) p good in
            elim (Bool-cases (below_limit limit q.received)) [
              | inl below ↦ rw (good, below) (λ x. omega (arith, more, drain_grows limit ms q))
              | inr full ↦ rw (good, full) (λ x. more)
            ]
      ]

  took :
      (limit : ℤ) (ms : List (Message F)) (p : Progress F) (remaining spent : ℤ)
      → (ms ≡ [] → remaining ≤ℤ spent)
      → ltb_ℤ (pos 0) (remaining -ℤ spent) ≡ true
      → (drain limit ms p).failed ≡ false
      → p.received < (drain limit ms p).received
  took limit [] p remaining spent waits goes_on good =
      ground (arith, waits (λ i. []), goes_on, -ℤ_parts remaining spent)
  took limit (m ∷ ms) p remaining spent waits goes_on good = drain_takes limit m ms p good

  -- What `zpoller_wait` documents: a pass in which no message arrives lasts at least as long as the time
  -- that is left when it begins.
  abbrev pub WaitOut : ℤ → ℤ → List (Wake F) → Type 0
  WaitOut previous remaining [] = Unit {0}
  WaitOut previous remaining (k ∷ ks) =
      let spent = whole_ms (k.current_time -ℤ previous) in
      (k.arrived ≡ [] → remaining ≤ℤ spent) × WaitOut k.current_time (remaining -ℤ spent) ks

  retrieve-ends :
      (limit previous remaining : ℤ) (ks : List (Wake F)) (p : Progress F)
      → WaitOut previous remaining ks
      → p.received < most limit
      → most limit ≤ p.received + length ks
      → ¬ ((retrieve limit previous remaining ks p).0 ≡ still_waiting)
  unfolding retrieve
  retrieve-ends limit previous remaining [] p waits below enough =
      λ _. ground (arith, below, enough)
  retrieve-ends limit previous remaining (k ∷ ks) p waits below enough =
      let q : Progress F = drain limit k.arrived p in
      let left : ℤ = remaining -ℤ whole_ms (k.current_time -ℤ previous) in
      elim (Bool-cases q.failed) [
        | inl bad ↦ rw (bad) (λ x. ground (arith, x))
        | inr good ↦ elim (Bool-cases (below_limit limit q.received)) [
          | inl more ↦ elim (Bool-cases (ltb_ℤ (pos 0) left)) [
            | inl goes_on ↦
                let taken : p.received < q.received =
                  took limit k.arrived p remaining (whole_ms (k.current_time -ℤ previous)) waits.0
                    goes_on good in
                rw (good, more, goes_on)
                  (retrieve-ends limit k.current_time left ks q waits.1 (below_lem _ _ more)
                    (omega (arith, enough, taken)))
            | inr late ↦ rw (good, more, late) (λ x. ground (arith, x))
          ]
          | inr full ↦ rw (good, full) (λ x. ground (arith, x))
        ]
      ]

  -- The call ends after at most as many passes as its limit, and after one if the limit is below 1: it
  -- returns a number or throws. It is assumed that a pass in which nothing arrives lasts as long as the
  -- time that is left, in whole milliseconds; a pass with a message may be shorter than a millisecond, and
  -- then leaves the time as it was.
  pub retrieve_responses-ends :
      (now limit timeout : ℤ) (ks : List (Wake F)) (responses : List (RequestResponse F))
      → WaitOut now timeout ks
      → most limit ≤ length ks
      → ¬ ((retrieve_responses now limit timeout ks responses).0 ≡ still_waiting)
  unfolding retrieve_responses
  retrieve_responses-ends now limit timeout ks responses waits enough =
      retrieve-ends limit now timeout ks
        (record { responses = responses; received = 0; failed = false }) waits (most_pos limit)
        (omega (arith, enough))
