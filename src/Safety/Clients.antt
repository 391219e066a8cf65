-- ===== src/Safety/Clients.antt =====
-- The rules for `forwardParsedClientRequest` of broker.cxx on a type that has a context.
use lhcluster.Common.{
  ℕ, ◌≡◌, refl, true, Option, some, none, List, [], ◌∷◌, contains, arith, head?, eq_refl,
}
use lhcluster.Common.Int.{ℤ}
use lhcluster.Cluster.{VersionFlags, rejected}
use lhcluster.Wire.{Wire, Message, identity_eq}
use lhcluster.RequestState.{RequestState}
use lhcluster.Context
use lhcluster.Context.{Context}
use lhcluster.Broker.State.{Broker}
use lhcluster.Broker.Client.{
  keep_copy, redirect_in_progress, redirect_pending, forward_known, forward_unknown,
}
use lhcluster.Safety.Rules.{is_some, has_context, types_of, Stays, Stays-pure, Stays-bind, Stays-if}
use lhcluster.Safety.Handlers.{
  basic, handle_copy-Stays, reject_request-Stays, notify_on_redirect-Stays, add_pending-Stays,
  forward_new-Stays, remove_if_full-Stays,
}

module _ {F : Type 0} ⦃w : Wire F⦄ where
  head_contains : (vs : List F) (v : F) → head? vs ≡ some v → contains vs v ≡ true
  unfolding contains
  head_contains [] v e = ground arith
  head_contains (u ∷ us) v e = ground (arith, eq_refl v)

  pub picked_available :
      (c : Context F) (v : F)
      → Context.get_next_available_worker c ≡ some v
      → contains c.available_workers v ≡ true
  unfolding Context.get_next_available_worker
  picked_available c v e = head_contains c.available_workers v e

module _ {F : Type 0} ⦃w : Wire F⦄ {b₀ : Broker F} {Bound : ℕ → F → Type 0} where
  keep_copy-Stays :
      (type id : ℕ) (vfs : VersionFlags) (copied : Option (Message F)) (ret : ℤ)
      → has_context type b₀ ≡ true
      → Stays b₀ Bound (keep_copy type id vfs copied ret)
  unfolding keep_copy
  keep_copy-Stays type id vfs none ret there = search basic depth 8
  keep_copy-Stays type id vfs (some copied) ret there =
      handle_copy-Stays type id vfs type (some copied) ret there

  redirect_in_progress-Stays :
      (r : RequestState F) (vfs : VersionFlags) (type id : ℕ) (m : Message F)
      → has_context type b₀ ≡ true
      → Stays b₀ Bound (redirect_in_progress r vfs type id m)
  unfolding redirect_in_progress
  redirect_in_progress-Stays r vfs type id m there =
      search (basic, notify_on_redirect-Stays, keep_copy-Stays) depth 20

  redirect_pending-Stays :
      (r : RequestState F) (vfs : VersionFlags) (type id : ℕ) (m : Message F)
      → has_context type b₀ ≡ true
      → Stays b₀ Bound (redirect_pending r vfs type id m)
  unfolding redirect_pending
  redirect_pending-Stays r vfs type id m there = search (basic, notify_on_redirect-Stays) depth 12

  pub forward_known-Stays :
      (r : RequestState F) (vfs : VersionFlags) (type id : ℕ) (m : Message F)
      → has_context type b₀ ≡ true
      → Stays b₀ Bound (forward_known r vfs type id m)
  unfolding forward_known
  forward_known-Stays r vfs type id m there =
      Stays-if _ _ _
        (Stays-if _ _ _ (redirect_in_progress-Stays r vfs type id m there)
          (redirect_pending-Stays r vfs type id m there))
        (reject_request-Stays (some m) rejected)

  -- The worker, if one is picked, is known.
  pub forward_unknown-Stays :
      (picked : Option F) (vfs : VersionFlags) (type id : ℕ) (m : Message F)
      → has_context type b₀ ≡ true
      → ((v : F) → picked ≡ some v → is_some (types_of v b₀) ≡ true)
      → Stays b₀ Bound (forward_unknown picked vfs type id m)
  unfolding forward_unknown
  forward_unknown-Stays none vfs type id m there known =
      Stays-bind _ _ (add_pending-Stays type id vfs (some m) there) (λ _. Stays-pure _)
  forward_unknown-Stays (some v) vfs type id m there known =
      Stays-bind _ _
        (forward_new-Stays v id vfs (some m) _ type (known v refl) there (λ _. Stays-pure tt))
        λ x.
          Stays-if _ _ _
            (Stays-bind _ _ (remove_if_full-Stays v (known v refl)) (λ _. Stays-pure _))
            (Stays-bind _ _ (add_pending-Stays type id vfs x.1 there) (λ _. Stays-pure _))
