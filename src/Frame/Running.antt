-- ===== src/Frame/Running.antt =====
-- Which contracts the frames of a stack run, against what `callers` and `position` find.
use rs_stellar_contract_env.Prelude.{
  ap, sym, ◌∙◌, arith, Bool, true, false, none, some, List, [], ◌∷◌, ◌≡◌, refl, ◌⊎◌, ◌↔◌, inl, inr,
}
use rs_stellar_contract_env.Frame.Types.{
  World, Context, Frame, contract_vm, host_function, stellar_asset_contract,
}
use rs_stellar_contract_env.Frame.Stack.{contract_id}
use rs_stellar_contract_env.Frame.Call.{callers, position_of}

-- No hash of a list is the same as the given one.
abbrev pub Absent : {A : Type 0} → (A → Bool) → List A → Type 0
Absent f [] = Unit
Absent f (x ∷ xs) = (f x ≡ false) × Absent f xs

-- The first of a list is.
abbrev pub Nearest : {A : Type 0} → (A → Bool) → List A → Type 0
Nearest f [] = ⊥
Nearest f (x ∷ xs) = f x ≡ true

module _ {A : Type 0} (f : A → Bool) where
  pub position_none : (xs : List A) → position_of f xs ≡ none → Absent f xs
  position_none [] e = tt
  position_none (x ∷ xs) e = ground (arith, position_none xs)

  pub none_position : (xs : List A) → Absent f xs → position_of f xs ≡ none
  none_position [] h = refl
  none_position (x ∷ xs) h = rw (h.0, none_position xs h.1)

  pub position_zero : (xs : List A) → position_of f xs ≡ some 0 → Nearest f xs
  position_zero [] e = cc e
  position_zero (x ∷ xs) e = ground (arith, position_zero xs)

  pub zero_position : (xs : List A) → Nearest f xs → position_of f xs ≡ some 0
  zero_position [] h = absurd h
  zero_position (x ∷ xs) h = rw h

-- The frame runs the code of the contract with this hash.
abbrev pub RunsContract : {W : World} → Frame W → W.Hash → Type 0
RunsContract (contract_vm vm _ _ _ _) id = vm.contract_id ≡ id
RunsContract (host_function _) id = ⊥
RunsContract (stellar_asset_contract held _ _ _) id = held ≡ id

module _ {W : World} (same : W.Hash → Bool) where
  -- No frame of a stack runs a contract whose hash is the same as the given one.
  abbrev pub NotRunning : List (Context W) → Type 0
  NotRunning [] = Unit
  NotRunning (ctx ∷ stack) =
      ((id : W.Hash) → RunsContract ctx.frame id → same id ≡ false) × NotRunning stack

  -- Of the frames of a stack that run a contract, the one nearest to the top runs one whose hash is.
  abbrev pub NearestRunning : List (Context W) → Type 0
  NearestRunning [] = ⊥
  NearestRunning (ctx ∷ stack) =
      ((id : W.Hash) × RunsContract ctx.frame id × (same id ≡ true))
      ⊎ (((id : W.Hash) → ¬ RunsContract ctx.frame id) × NearestRunning stack)

  -- What the code finds out of a frame.
  frame_cases :
      (f : Frame W)
      → ((id : W.Hash) × (contract_id f ≡ some id)
          × RunsContract f id
          × ((j : W.Hash) → RunsContract f j → id ≡ j))
        ⊎ ((contract_id f ≡ none) × ((j : W.Hash) → ¬ RunsContract f j))
  unfolding contract_id
  frame_cases (contract_vm vm _ _ _ _) = inl (vm.contract_id, refl, refl, λ j e. e)
  frame_cases (host_function _) = inr (refl, λ j e. e)
  frame_cases (stellar_asset_contract held _ _ _) = inl (held, refl, refl, λ j e. e)

  callers-some :
      (ctx : Context W) (stack : List (Context W)) (id : W.Hash)
      → contract_id ctx.frame ≡ some id
      → callers (ctx ∷ stack) ≡ id ∷ callers stack
  unfolding callers
  callers-some ctx stack id e = rw (e, callers)

  callers-none :
      (ctx : Context W) (stack : List (Context W))
      → contract_id ctx.frame ≡ none
      → callers (ctx ∷ stack) ≡ callers stack
  unfolding callers
  callers-none ctx stack e = rw (e, callers)

  pub Absent-callers_iff :
      (stack : List (Context W)) → Absent same (callers stack) ↔ NotRunning stack
  unfolding callers
  Absent-callers_iff [] = (λ h. tt, λ h. tt)
  Absent-callers_iff (ctx ∷ stack) =
      let rest = Absent-callers_iff stack in
      elim (frame_cases ctx.frame) [
        | inl (id, e, runs, only) ↦ rw (callers-some ctx stack id e) (
          λ h. ((λ j q. ap same (sym (only j q)) ∙ h.0), rest.0 h.1),
          λ h. (h.0 id runs, rest.1 h.1),
        )
        | inr (e, idle) ↦
            rw (callers-none ctx stack e)
              (λ h. ((λ j q. absurd (idle j q)), rest.0 h), λ h. rest.1 h.1)
      ]

  pub Nearest-callers_iff :
      (stack : List (Context W)) → Nearest same (callers stack) ↔ NearestRunning stack
  unfolding callers
  Nearest-callers_iff [] = (λ h. h, λ h. h)
  Nearest-callers_iff (ctx ∷ stack) =
      let rest = Nearest-callers_iff stack in
      elim (frame_cases ctx.frame) [
        | inl (id, e, runs, only) ↦ rw (callers-some ctx stack id e) (
          λ h. inl (id, runs, h),
          λ h. elim h [
            | inl (j, q, s) ↦ ap same (only j q) ∙ s
            | inr (idle, below) ↦ absurd (idle id runs)
          ],
        )
        | inr (e, idle) ↦ rw (callers-none ctx stack e) (
          λ h. inr (idle, rest.0 h),
          λ h. elim h [ inl (j, q, s) ↦ absurd (idle j q) | inr (skip, below) ↦ rest.1 below ],
        )
      ]
