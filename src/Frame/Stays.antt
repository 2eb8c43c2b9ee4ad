-- ===== src/Frame/Stays.antt =====
-- What a body may do to the host while it runs in its frame: it leaves the contexts below as they
-- are and records events after those that are there.
use rs_stellar_contract_env.Prelude.{
  Option, none, some, List, [], ◌∷◌, ◌++◌, ◌≡◌, refl, ◌∙◌, sym, ap, length, drop, append-nil,
  append_assoc,
}
use rs_stellar_contract_env.Error.{Result}
use rs_stellar_contract_env.Exec.{Exec, pure, lift, ◌>>=◌}
use rs_stellar_contract_env.Exec.Leads.{
  Keeps, IsPreorder, Keeps-bind, Keeps-pure, Keeps-lift, Keeps-if,
}
use rs_stellar_contract_env.Budget.Charge.{BudgetImpl}
use rs_stellar_contract_env.Metered.{Metered, charged, asks}
use rs_stellar_contract_env.Events.{InternalEvent, EventError}
use rs_stellar_contract_env.Storage.Access.{Storage}
use rs_stellar_contract_env.Frame.Types.{World, Services, Host, OnHost, Context}
use rs_stellar_contract_env.Frame.Stack.{
  on_storage, on_top, with_current_context_mut, with_current_frame_opt, cloned_id,
  get_current_contract_id_opt_internal, get_current_contract_id_internal,
}
use rs_stellar_contract_env.Frame.Instance.{
  contract_instance_ledger_key, store_contract_instance, update_instance, create_instance,
  write_back, persist_instance_storage,
}

-- More events at the end, perhaps none.
abbrev pub Extends : {W : World} → Host W → Host W → Type 0
Extends {W = W} h h' =
    (new : List (InternalEvent W.ContractEvent W.DiagnosticEvent × EventError)) × (h'.events.vec
      ≡ h.events.vec ++ new)

pub record StaysWithin {W : World} (h h' : Host W) : Type 0 where
  pub below : drop 1 h'.context_stack ≡ drop 1 h.context_stack
  pub depth : length h'.context_stack ≡ length h.context_stack
  pub extends : Extends h h'

module _ {W : World} where
  pub Extends-refl : (h h' : Host W) → h'.events ≡ h.events → Extends h h'
  Extends-refl h h' e = ([], ap (λ v. v.vec) e ∙ sym (append-nil h.events.vec))

  pub Extends-trans : (a b c : Host W) → Extends a b → Extends b c → Extends a c
  Extends-trans a b c (m, e) (n, f) =
      (m ++ n, f ∙ ap (λ v. v ++ n) e ∙ append_assoc a.events.vec m n)

  -- The relation on the host beside its budget.
  abbrev pub Within : Metered (Host W) → Metered (Host W) → Type 0
  Within s s' = StaysWithin s.own s'.own

  pub Within-IsPreorder : IsPreorder Within
  Within-IsPreorder = record {
    same = λ s. record { below = refl; depth = refl; extends = Extends-refl s.own s.own refl };
    chain = λ a b c h k. record {
      below = k.below ∙ h.below;
      depth = k.depth ∙ h.depth;
      extends = Extends-trans a.own b.own c.own h.extends k.extends;
    };
  }

  abbrev pub Stays : {A : Type 0} → OnHost W A → Type 0
  Stays m = Keeps Within m

  pub Stays-bind :
      {A B : Type 0} (m : OnHost W A) (f : A → OnHost W B)
      → Stays m
      → ((a : A) → Stays (f a))
      → Stays (m >>= f)
  Stays-bind m f = Keeps-bind Within Within-IsPreorder m f

  Stays-charged : {A : Type 0} (m : Exec BudgetImpl A) → Stays (charged m)
  unfolding charged
  Stays-charged m s = Within-IsPreorder.same s

  Stays-asks : {A : Type 0} (f : Host W → A) → Stays (asks f)
  unfolding asks
  Stays-asks f s = Within-IsPreorder.same s

  pub Stays-lift : {A : Type 0} (r : Result A) → Stays (lift r)
  Stays-lift r = Keeps-lift Within Within-IsPreorder r

  pub Stays-pure : {A : Type 0} (a : A) → Stays (pure a)
  Stays-pure a = Keeps-pure Within Within-IsPreorder a

  pub Stays-on_storage :
      {A : Type 0} (m : Exec (Metered (Storage W.Payload)) A) → Stays (on_storage m)
  unfolding on_storage
  Stays-on_storage m s = record {
    below = refl;
    depth = refl;
    extends = Extends-refl s.own (on_storage m s).1.own refl;
  }

  on_top-below :
      {A : Type 0} (f : Exec (Metered (Context W)) A) (stack : List (Context W)) (b : BudgetImpl)
      → (drop 1 (on_top f stack b).1 ≡ drop 1 stack) × (length (on_top f stack b).1 ≡ length stack)
  on_top-below f [] b = (refl, refl)
  on_top-below f (ctx ∷ rest) b = (refl, refl)

  pub Stays-context_mut :
      {A : Type 0} (f : Exec (Metered (Context W)) A) → Stays (with_current_context_mut f)
  unfolding with_current_context_mut
  Stays-context_mut f s =
      let (b, d) = on_top-below f s.own.context_stack s.funds in
      record {
        below = b;
        depth = d;
        extends = Extends-refl s.own (with_current_context_mut f s).1.own refl;
      }

  module _ (svc : Services W) where
    Stays-cloned_id : (id : Option W.Hash) → Stays (cloned_id svc id)
    Stays-cloned_id none = Stays-pure none
    Stays-cloned_id (some id) = Stays-bind _ _ (Stays-charged _) (λ new. Stays-pure (some new))

    Stays-contract_id_opt : Stays (get_current_contract_id_opt_internal svc)
    unfolding get_current_contract_id_opt_internal with_current_frame_opt
    Stays-contract_id_opt s = Stays-cloned_id _ s

    Stays-contract_id : Stays (get_current_contract_id_internal svc)
    unfolding get_current_contract_id_internal
    Stays-contract_id = Stays-bind _ _ Stays-contract_id_opt (λ id. Stays-lift _)

    Stays-update :
        (executable : _) (entries : _) (key : _)
        → Stays (update_instance svc executable entries key)
    unfolding update_instance
    Stays-update executable entries key = Stays-bind _ _ (Stays-on_storage _) λ held.
        Stays-bind _ _ (Stays-charged _) λ current.
          Stays-bind _ _ (Stays-lift _)
            λ replaced. Stays-bind _ _ (Stays-charged _) λ new. Stays-on_storage _

    Stays-create :
        (executable : _) (entries : _) (id : _) (key : _)
        → Stays (create_instance svc executable entries id key)
    unfolding create_instance
    Stays-create executable entries id key = Stays-bind _ _ (Stays-charged _) λ contract.
        Stays-bind _ _ (Stays-lift _) λ given. Stays-bind _ _ (Stays-charged _) λ new.
          Stays-bind _ _ (Stays-asks _)
            λ ledger. Stays-bind _ _ (Stays-lift _) λ live_until. Stays-on_storage _

    Stays-store :
        (executable : _) (entries : _) (id : _) (key : _)
        → Stays (store_contract_instance svc executable entries id key)
    unfolding store_contract_instance
    Stays-store executable entries id key = Stays-bind _ _ (Stays-on_storage _) λ exists.
        Keeps-if Within Within-IsPreorder exists _ _ (Stays-update executable entries key)
          (Stays-create executable entries id key)

    Stays-key : (id : W.Hash) → Stays (contract_instance_ledger_key svc id)
    unfolding contract_instance_ledger_key
    Stays-key id = Stays-bind _ _ (Stays-charged _) λ contract_id. Stays-charged _

    Stays-write_back : (updated : Option W.ScMap) → Stays (write_back svc updated)
    unfolding write_back
    Stays-write_back none = Stays-pure tt
    Stays-write_back (some updated) =
        Stays-bind _ _ Stays-contract_id
          λ id. Stays-bind _ _ (Stays-key id) λ key. Stays-store none (some updated) id key

    pub Stays-persist : Stays (persist_instance_storage svc)
    unfolding persist_instance_storage
    Stays-persist = Stays-bind _ _ (Stays-context_mut _) Stays-write_back
