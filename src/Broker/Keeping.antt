-- ===== src/Broker/Keeping.antt =====
-- Rules for the actions of broker.cxx's handlers and a worker's room, one for each action.
use lhcluster.Common.{
  ℕ, ◌≡◌, refl, ap, ◌∙◌, Bool, true, false, Option, some, none, arith, nat_eq, if◌then◌else◌,
}
use lhcluster.Common.Assoc
use lhcluster.Common.Assoc.{lookup-update}
use lhcluster.Wire.{Wire, Message, identity_eq}
use lhcluster.RequestState.{RequestState}
use lhcluster.Context
use lhcluster.Context.{Context}
use lhcluster.Broker.State.{
  Broker, Socket, Fault, missing_context, dangling_worker, dangling_request, bad_iterator,
  null_message, Op, ◌>>=◌, pure, gets, deref, modify, find_context, the_context, set_context,
  on_context, the_request, on_request, lookup_worker_info, the_worker, send,
}
use lhcluster.Broker.Room.{
  capacity_in, capacity_of, InTime, OtherFault, Keeps, Takes-weaken, Takes-bind, Takes-pure,
}

module _ {F : Type 0} ⦃w : Wire F⦄ {v : F} where
  pub same_workers :
      {A : Type 0} (m : Op F A)
      → ((b : Broker F) → InTime (m b).0)
      → ((b : Broker F) → (m b).1.worker_info_lookup ≡ b.worker_info_lookup)
      → Keeps v m
  unfolding capacity_of
  same_workers m t h = record {
    at = λ b c e small. (
      t b,
      λ a q. (
        0,
        refl,
        ap (λ l. capacity_in (Assoc.lookup v l)) (h b) ∙ e ∙ ap some (omega (arith, small)),
      ),
    );
  }

  pub Keeps-pure : {A : Type 0} (a : A) → Keeps v (pure a)
  Keeps-pure a = Takes-pure a refl

  pub Keeps-gets : {A : Type 0} (f : Broker F → A) → Keeps v (gets f)
  unfolding gets
  Keeps-gets f = same_workers _ (λ b. tt) (λ b. refl)

  pub Keeps-deref : {A : Type 0} (e : Fault) (o : Option A) → OtherFault e → Keeps v (deref e o)
  unfolding deref
  Keeps-deref e none k = same_workers _ (λ b. k) (λ b. refl)
  Keeps-deref e (some a) k = same_workers _ (λ b. tt) (λ b. refl)

  pub Keeps-send : (s : Socket) (m : Message F) → Keeps v (send s m)
  unfolding send
  Keeps-send s m = same_workers _ (λ b. tt) (λ b. refl)

  pub Keeps-bind :
      {A B : Type 0} (m : Op F A) (k : A → Op F B)
      → Keeps v m
      → ((a : A) → Keeps v (k a))
      → Keeps v (m >>= k)
  Keeps-bind m k km kk =
      Takes-bind m k km (λ a n e. Takes-weaken (k a) (λ x i j. omega (arith, e, j)) (kk a))

  pub Keeps-if :
      {A : Type 0} (test : Bool) (m n : Op F A)
      → Keeps v m
      → Keeps v n
      → Keeps v (if test then m else n)
  Keeps-if true m n km kn = km
  Keeps-if false m n km kn = kn

  pub Keeps-option :
      {A B : Type 0} (o : Option A) (m : Op F B) (k : A → Op F B)
      → Keeps v m
      → ((a : A) → Keeps v (k a))
      → Keeps v (elim o [ none ↦ m | some a ↦ k a ])
  Keeps-option none m k h hk = h
  Keeps-option (some a) m k h hk = hk a

  pub Keeps-the_context : (t : ℕ) → Keeps v (the_context {F = F} t)
  unfolding the_context find_context
  Keeps-the_context t = Keeps-bind _ _ (Keeps-gets _) (λ o. Keeps-deref missing_context o tt)

  pub Keeps-set_context : (t : ℕ) (c : Context F) → Keeps v (set_context t c)
  unfolding set_context modify
  Keeps-set_context t c = same_workers _ (λ b. tt) (λ b. refl)

  pub Keeps-on_context : (t : ℕ) (f : Context F → Context F) → Keeps v (on_context t f)
  unfolding on_context
  Keeps-on_context t f = Keeps-bind _ _ (Keeps-the_context t) (λ c. Keeps-set_context t (f c))

  pub Keeps-the_request : (t id : ℕ) → Keeps v (the_request {F = F} t id)
  unfolding the_request find_context
  Keeps-the_request t id = Keeps-bind _ _ (Keeps-gets _) λ o.
      Keeps-option o _ _ (Keeps-deref dangling_request none tt)
        (λ c. Keeps-deref dangling_request (Context.get_request_state id c) tt)

  pub Keeps-on_request :
      (t id : ℕ) (f : RequestState F → RequestState F) → Keeps v (on_request t id f)
  unfolding on_request
  Keeps-on_request t id f =
      Keeps-bind _ _ (Keeps-the_request t id)
        (λ r. Keeps-on_context t (Context.put_request id (f r)))

  pub Keeps-the_worker : (u : F) → Keeps v (the_worker u)
  unfolding the_worker lookup_worker_info
  Keeps-the_worker u = Keeps-bind _ _ (Keeps-gets _) (λ o. Keeps-deref dangling_worker o tt)

  pub Keeps-null : {A : Type 0} (o : Option A) → Keeps v (deref {F = F} null_message o)
  Keeps-null o = Keeps-deref null_message o tt

  pub Keeps-iterator : {A : Type 0} (o : Option A) → Keeps v (deref {F = F} bad_iterator o)
  Keeps-iterator o = Keeps-deref bad_iterator o tt

pub ruleset keeping = (
  Keeps-pure, Keeps-gets, Keeps-send, Keeps-bind, Keeps-if, Keeps-option, Keeps-the_context,
  Keeps-set_context, Keeps-on_context, Keeps-the_request, Keeps-on_request, Keeps-the_worker,
  Keeps-null, Keeps-iterator,
)
