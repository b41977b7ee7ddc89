-- ===== src/Service/Rounds.antt =====
-- The rounds in which a client waits for a reply: `ZUTH_receiveUAClientServiceResponse` of
-- src/open62541.c.
use ua_rate_throttling.Common.{
  ℕ, zero, suc, ◌+◌, ◌*◌, ◌-◌, ◌/◌, ◌%◌, ◌^◌, ◌≤◌, ◌<◌, ◌≡◌, ◌≢◌, ◌⊎◌, inl, inr, refl, true, false,
  some, Bytes, [], ltb, ◌==◌, Bool-cases, arith, Bool,
}
use ua_rate_throttling.Queue.Libraries.{Host}
use ua_rate_throttling.Chunk.{good}
use ua_rate_throttling.Chunk.Libraries.{Stack}
use ua_rate_throttling.Service.{
  Receiving, good_non_critical_timeout, receive, process_reply, receive_loop, msec_to_date_time,
}
use ua_rate_throttling.Service.Libraries.{UaClient, Response, Network}

module _ (host : Host) (stack : Stack host) (network : Network host stack) (late work : ℕ) where
  open network use {NodeId, Body, null_node_id, now_monotonic}

  -- What is documented of the clock: it does not go back, and each call that blocks for a chunk and
  -- gets one takes some time; such a call returns within its timeout of milliseconds, or so much
  -- late, and processing a reply and freeing it take so much work at most. Renewing a channel leaves
  -- the client's timeout as it was.
  pub record IsTicking : Type 0 where
    pub receives :
        (client : UaClient NodeId) (timeout : ℕ) (w : host.World)
        → (network.receive_chunks client timeout w).0 ≡ good
        → now_monotonic w < now_monotonic (network.receive_chunks client timeout w).1.1
    pub processes :
        (client : UaClient NodeId) (request_id : ℕ) (reply : Bytes) (s : Response Body × host.World)
        → now_monotonic s.1 ≤ now_monotonic (network.process_replies client request_id reply s).1.1
    pub releases :
        (client : UaClient NodeId) (reply : Bytes) (w : host.World)
        → now_monotonic w ≤ now_monotonic (network.release_recv_buffer client reply w)
    pub deletes :
        (reply : Bytes) (w : host.World)
        → now_monotonic w ≤ now_monotonic (network.delete_reply reply w)
    pub receives_by :
        (client : UaClient NodeId) (timeout : ℕ) (w : host.World)
        → now_monotonic (network.receive_chunks client timeout w).1.1
          ≤ now_monotonic w + timeout * msec_to_date_time + late
    pub processes_in :
        (client : UaClient NodeId) (request_id : ℕ) (reply : Bytes) (s : Response Body × host.World)
        → now_monotonic (network.process_replies client request_id reply s).1.1
          ≤ now_monotonic s.1 + work
    pub releases_in :
        (client : UaClient NodeId) (reply : Bytes) (w : host.World)
        → now_monotonic (network.release_recv_buffer client reply w) ≤ now_monotonic w + work
    pub deletes_in :
        (reply : Bytes) (w : host.World)
        → now_monotonic (network.delete_reply reply w) ≤ now_monotonic w + work
    pub keeps_timeout :
        (client : UaClient NodeId) (w : host.World)
        → (network.renew_secure_channel client w).1.0.timeout ≡ client.timeout

  -- The stack has processed a reply to the request, and this is what it left.
  pub record IsAnswered (request_id : ℕ) (after : Receiving host stack network) : Type 0 where
    pub reply : Bytes × Bool
    pub before : Receiving host stack network
    pub answer : process_reply host stack network request_id reply before ≡ (true, after)

  -- The time was over, and the service result says so.
  abbrev pub IsLate : ℕ → Receiving host stack network → Type 0
  IsLate max_date after =
      (after.0.0.service_result ≡ good_non_critical_timeout) × (max_date ≤ now_monotonic after.1)

  -- In time a chunk was to be received and could not, and the service result is the status of that.
  pub record IsRefused (max_date : ℕ) (after : Receiving host stack network) : Type 0 where
    pub before : Receiving host stack network
    pub in_time : now_monotonic before.1 < max_date
    pub refusal : (receive host stack network max_date before.0.1 before.1).0 ≢ good
    pub result :
        after.0.0.service_result ≡ (receive host stack network max_date before.0.1 before.1).0

  -- The call was answered, or its time was over, or the connection refused to receive; and all that
  -- by the end of its time and what that may be exceeded by.
  abbrev pub IsOver : ℕ → ℕ → Receiving host stack network → Type 0
  IsOver max_date request_id after =
      (IsAnswered request_id after ⊎ (IsLate max_date after ⊎ IsRefused max_date after))
      × (now_monotonic after.1 ≤ max_date + late + 2 * work)

  module _ (ticking : IsTicking) where
    receive-later :
        (max_date : ℕ) (client : UaClient NodeId) (w : host.World)
        → (receive host stack network max_date client w).0 ≡ good
        → (now_monotonic w < max_date)
          × (now_monotonic w < now_monotonic (receive host stack network max_date client w).1.1)
    unfolding receive
    receive-later max_date client w h = ground (
      arith,
      ticking.receives client ((max_date - now_monotonic w) / msec_to_date_time % 2 ^ 32) w,
    )

    process_reply-later :
        (request_id : ℕ) (reply : Bytes × Bool) (s : Receiving host stack network)
        → now_monotonic s.1
          ≤ now_monotonic (process_reply host stack network request_id reply s).1.1
    unfolding process_reply
    process_reply-later request_id (reply, true) ((response, client), w) = omega (
      arith,
      ticking.processes client request_id reply (response, w),
      ticking.deletes reply (network.process_replies client request_id reply (response, w)).1.1,
    )
    process_reply-later request_id (reply, false) ((response, client), w) = omega (
      arith,
      ticking.processes client request_id reply (response, w),
      ticking.releases (network.process_replies client request_id reply (response, w)).1.0.1 reply
          (network.process_replies client request_id reply (response, w)).1.1,
    )

    receive-by :
        (max_date : ℕ) (client : UaClient NodeId) (w : host.World)
        → now_monotonic w < max_date
        → now_monotonic (receive host stack network max_date client w).1.1 ≤ max_date + late
    unfolding receive
    receive-by max_date client w h = ground (
      arith,
      h,
      ticking.receives_by client ((max_date - now_monotonic w) / msec_to_date_time % 2 ^ 32) w,
    )

    receive-late :
        (max_date : ℕ) (client : UaClient NodeId) (w : host.World)
        → max_date ≤ now_monotonic w
        → receive host stack network max_date client w
          ≡ (good_non_critical_timeout, (([], false), w))
    unfolding receive
    receive-late max_date client w h =
        let over : ltb (now_monotonic w) max_date ≡ false = ground (arith, h) in rw over refl

    process_reply-by :
        (request_id : ℕ) (reply : Bytes × Bool) (s : Receiving host stack network)
        → now_monotonic (process_reply host stack network request_id reply s).1.1
          ≤ now_monotonic s.1 + 2 * work
    unfolding process_reply
    process_reply-by request_id (reply, true) ((response, client), w) = omega (
      arith,
      ticking.processes_in client request_id reply (response, w),
      ticking.deletes_in reply (network.process_replies client request_id reply (response, w)).1.1,
    )
    process_reply-by request_id (reply, false) ((response, client), w) = omega (
      arith,
      ticking.processes_in client request_id reply (response, w),
      ticking.releases_in (network.process_replies client request_id reply (response, w)).1.0.1
          reply (network.process_replies client request_id reply (response, w)).1.1,
    )

    abbrev got : ℕ → Receiving host stack network → ℕ × ((Bytes × Bool) × host.World)
    got max_date ((response, client), w) = receive host stack network max_date client w

    abbrev round : ℕ → ℕ → Receiving host stack network → Bool × Receiving host stack network
    round max_date request_id (s, w) =
        process_reply host stack network request_id (got max_date (s, w)).1.0
          (s, (got max_date (s, w)).1.1)

    -- The loop ends with some fuel, in time.
    unfoldable pub LoopEnds : ℕ → ℕ → ℕ → Receiving host stack network → Type 0
    LoopEnds fuel max_date request_id state =
        (after : Receiving host stack network) × (receive_loop host stack network fuel max_date
            request_id state
          ≡ some after)
        × IsOver max_date request_id after

    -- A round behind the time is the last one.
    late-LoopEnds :
        (fuel max_date request_id : ℕ) (state : Receiving host stack network)
        → max_date ≤ now_monotonic state.1
        → now_monotonic state.1 ≤ max_date + late + 2 * work
        → LoopEnds (suc fuel) max_date request_id state
    unfolding receive_loop LoopEnds
    late-LoopEnds fuel max_date request_id ((response, client), w) over by = (
      ((record response { service_result = good_non_critical_timeout }, client), w),
      rw (receive-late max_date client w over) refl,
      (inr (inl (refl, over)), by),
    )

    round-LoopEnds :
        (fuel max_date request_id : ℕ) (state : Receiving host stack network)
        → now_monotonic state.1 < max_date
        → ((got max_date state).0 ≡ good
            → LoopEnds fuel max_date request_id (round max_date request_id state).1)
        → LoopEnds (suc fuel) max_date request_id state
    unfolding receive_loop LoopEnds
    round-LoopEnds fuel max_date request_id ((response, client), w) in_time rest =
        let state : Receiving host stack network = ((response, client), w) in
        let by = receive-by max_date client w in_time in
        elim (Bool-cases ((got max_date state).0 == good)) [
          | inr failed ↦ (
            (
              (record response { service_result = (got max_date state).0 }, client),
              (got max_date state).1.1,
            ),
            rw failed refl,
            (
              inr (
                  inr (record {
                    before = state;
                    in_time = in_time;
                    refusal = ground arith;
                    result = refl;
                  })),
              omega (arith, by),
            ),
          )
          | inl fine ↦ elim (Bool-cases (round max_date request_id state).0) [
            | inl processed ↦ (
              (round max_date request_id state).1,
              rw (fine, processed) refl,
              (
                inl (record {
                  reply = (got max_date state).1.0;
                  before = (state.0, (got max_date state).1.1);
                  answer = λ i. (processed i, (round max_date request_id state).1);
                }),
                omega (
                  arith,
                  by,
                  process_reply-by request_id (got max_date state).1.0
                      (state.0, (got max_date state).1.1),
                ),
              ),
            )
            | inr unprocessed ↦
                let (after, looped, over) = rest (ground arith) in
                (after, rw (fine, unprocessed) looped, over)
          ]
        ]

    -- Of enough rounds, one is the last.
    pub receive_loop-Ends :
        (n max_date request_id : ℕ) (state : Receiving host stack network)
        → max_date ≤ n + now_monotonic state.1
        → now_monotonic state.1 ≤ max_date + late + 2 * work
        → LoopEnds (suc n) max_date request_id state
    receive_loop-Ends zero max_date request_id state h by =
        late-LoopEnds zero max_date request_id state (omega (arith, h)) by
    receive_loop-Ends (suc n) max_date request_id ((response, client), w) h by =
        let state : Receiving host stack network = ((response, client), w) in
        elim (Bool-cases (ltb (now_monotonic w) max_date)) [
          | inr over ↦ late-LoopEnds (suc n) max_date request_id state (ground (arith, over)) by
          | inl early ↦
              let in_time : now_monotonic w < max_date = ground (arith, early) in
              round-LoopEnds (suc n) max_date request_id state in_time (λ fine.
                let got_reply = (got max_date state).1.0 in
                let behind : Receiving host stack network = (state.0, (got max_date state).1.1) in
                receive_loop-Ends n max_date request_id (round max_date request_id state).1
                  (omega (
                    arith,
                    h,
                    (receive-later max_date client w fine).1,
                    process_reply-later request_id got_reply behind,
                  ))
                  (omega (
                    arith,
                    receive-by max_date client w in_time,
                    process_reply-by request_id got_reply behind,
                  )))
        ]
