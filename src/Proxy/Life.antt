-- ===== src/Proxy/Life.antt =====
-- What the actions of the client proxy of liblhcluster/src/clientproxy.cxx keep of a buffered request.
use lhcluster.Common.{
  ◌≡◌, refl, sym, ap, ◌∙◌, subst, false, inl, inr, Option, some, none, [], ◌∷◌, nat_eq, pair_eq,
  eq_iff, ◌==◌, arith, Option-cases, Bool-cases, if◌then◌else◌,
}
use lhcluster.Common.Int.{ℤ}
use lhcluster.Common.Assoc
use lhcluster.Common.Assoc.{lookup-update, lookup-emplace}
use lhcluster.Wire.{Message}
use lhcluster.Broker.Parse.{RequestKey}
use lhcluster.Action.{pure, gets, modify, continue, ◌>>=◌}
use lhcluster.Action.Keeps.{
  Keeps, Keeps-pure, Keeps-value, Keeps-modify, Keeps-bind, Keeps-if, Keeps-with_fields,
  Keeps-caught, keeping,
}
use lhcluster.Proxy.Buffer.{Buffer, BufferKey, BufferValue, add_request}
use lhcluster.Proxy.State.{
  ClientProxy, ClientProxyExitState, Socket, set_exit_state, update_current_time,
  update_client_last_active, send, allocate, on_buffer,
}
use lhcluster.Proxy.Handlers.{forward_request}
use lhcluster.Proxy.Reactor.{refreshed}
use lhcluster.Proxy.Pending.{lookup-add_request}
use lhcluster.Proxy.Kept.{IsFresh, fresh-IsAway}

module _ {F : Type 0} where
  abbrev pub message_in : Option (BufferValue F) → Option (Message F)
  message_in none = none
  message_in (some v) = some v.message

  -- The request under the key is buffered, with this message, and every entry is under the address of a
  -- frame that has been allocated.
  pub record IsBuffered (k : BufferKey) (m : Message F) (s : ClientProxy F) : Type 0 where
    pub fresh : IsFresh s
    pub there : message_in (Assoc.lookup k s.requests_buffer) ≡ some m

module _ {F : Type 0} where
  lookup-refreshed :
      (b : Buffer F) (i : BufferKey)
      → Assoc.lookup i (refreshed b) ≡ elim (Assoc.lookup i b) [
        | none ↦ none
        | some v ↦ some (record v { current_flags = v.vfs.flags })
      ]
  unfolding refreshed Assoc.lookup
  lookup-refreshed [] i = refl
  lookup-refreshed ((j, v) ∷ b) i = ground (arith, lookup-refreshed b i)

module _ {F : Type 0} {k : BufferKey} {m : Message F} where
  pub set_exit_state-Keeps : (e : ClientProxyExitState) → Keeps (IsBuffered k m) (set_exit_state e)
  unfolding set_exit_state
  set_exit_state-Keeps e =
      Keeps-modify _ (λ s h. record { fresh = record { below = h.fresh.below }; there = h.there })

  pub update_current_time-Keeps : (now : ℤ) → Keeps (IsBuffered k m) (update_current_time now)
  unfolding update_current_time
  update_current_time-Keeps now =
      Keeps-modify _ (λ s h. record { fresh = record { below = h.fresh.below }; there = h.there })

  pub update_client_last_active-Keeps : Keeps (IsBuffered k m) update_client_last_active
  unfolding update_client_last_active
  update_client_last_active-Keeps =
      Keeps-modify _ (λ s h. record { fresh = record { below = h.fresh.below }; there = h.there })

  pub send-Keeps : (socket : Socket) (n : Message F) → Keeps (IsBuffered k m) (send socket n)
  unfolding send ◌>>=◌ gets modify continue pure
  send-Keeps socket n = record {
    at = λ s h. record { fresh = record { below = h.fresh.below }; there = h.there };
  }

  pub allocate-Keeps : Keeps (IsBuffered k m) allocate
  unfolding allocate ◌>>=◌ gets modify continue pure
  allocate-Keeps = record {
    at = λ s h. record {
      fresh = record { below = λ j v e. omega (arith, h.fresh.below j v e) };
      there = h.there;
    };
  }

  -- A copy of a request is kept under the address of its own first frame, which is a new one.
  kept_copy :
      (x : RequestKey) (n : Message F)
      → Keeps (IsBuffered k m) (
          allocate >>= λ address.
          on_buffer (add_request x.request_type x.request_id address x.vfs n))
  unfolding allocate on_buffer ◌>>=◌ gets modify continue pure
  kept_copy x n = record {
    at = λ s h.
        let j : BufferKey = (x.request_type, (x.request_id, s.next_address)) in
        let b : Buffer F = s.requests_buffer in
        let v : BufferValue F = record { vfs = x.vfs; current_flags = x.vfs.flags; message = n } in
        let after = λ (i : BufferKey).
          lookup-add_request x.request_type x.request_id s.next_address x.vfs n b i in
        let other : (i : BufferKey)
            → (j == i) ≡ false
            → Assoc.lookup i (add_request x.request_type x.request_id s.next_address x.vfs n b)
              ≡ Assoc.lookup i b =
          λ i differ. after i ∙ ap (λ t. if t then some v else Assoc.lookup i b) differ in
        record {
          fresh = record {
            below = λ i u e. elim (Bool-cases (j == i)) [
              | inl equal ↦ omega (arith, ap (λ p. p.1.1) ((eq_iff j i).0 equal))
              | inr differ ↦ omega (arith, h.fresh.below i u (sym (other i differ) ∙ e))
            ];
          };
          there = elim (Bool-cases (j == k)) [
            | inl equal ↦
                let gone : Assoc.lookup k b ≡ none =
                  subst (λ p. Assoc.lookup p b ≡ none) ((eq_iff j k).0 equal)
                    (fresh-IsAway s h.fresh x.request_type x.request_id) in
                absurd (ground (arith, ap message_in gone, h.there))
            | inr differ ↦ ap message_in (other k differ) ∙ h.there
          ];
        };
  }

  pub forward_request-Keeps :
      (x : RequestKey) (n : Message F) → Keeps (IsBuffered k m) (forward_request x n)
  unfolding forward_request
  forward_request-Keeps x n = search (keeping, kept_copy, send-Keeps) depth 8

  pub ruleset proxy_keeping = (
    keeping, set_exit_state-Keeps, update_current_time-Keeps, update_client_last_active-Keeps,
    send-Keeps, allocate-Keeps, forward_request-Keeps,
  )

  pub refreshed-Keeps : Keeps (IsBuffered k m) (on_buffer refreshed)
  unfolding on_buffer
  refreshed-Keeps = Keeps-modify _ (λ s h. record {
    fresh = record {
      below = λ i u e. elim (Option-cases (Assoc.lookup i s.requests_buffer)) [
        | inl missing ↦ absurd (ground (arith, missing, lookup-refreshed s.requests_buffer i, e))
        | inr (v, found) ↦ h.fresh.below i v found
      ];
    };
    there = ground (arith, lookup-refreshed s.requests_buffer k, h.there);
  })
