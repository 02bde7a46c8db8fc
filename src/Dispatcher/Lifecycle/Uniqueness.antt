-- ===== src/Dispatcher/Lifecycle/Uniqueness.antt =====
-- Creating an account of the dispatcher a second time.
use solana_yield_adapter_sta.Prelude.{
  ◌≡◌, ◌≢◌, ◌∙◌, ap, subst, refl, List, ◌∷◌, Option, some, none, ==-refl,
}
use solana_yield_adapter_sta.Types.Dispatcher.{DispatcherAccount, adapter, registry}
use solana_yield_adapter_sta.Solana.Accounts.{AccountInfo, Pubkey}
use solana_yield_adapter_sta.Solana.Result.{ok}
use solana_yield_adapter_sta.Solana.World.{World, update}
use mathlib.Core.Path.{ap₂}
use solana_yield_adapter_sta.Dispatcher.State.{id, adapter_seeds, registry_seeds}
use solana_yield_adapter_sta.Dispatcher.RegistryInit
use solana_yield_adapter_sta.Dispatcher.AdapterInit
use solana_yield_adapter_sta.Dispatcher.AdapterInit.{AdapterInitArgs}
use solana_yield_adapter_sta.Dispatcher.Lifecycle.Founding.{registry_init-IsFounded}
use solana_yield_adapter_sta.Dispatcher.Lifecycle.Registering.{adapter_init-IsRegistered}
use solana_yield_adapter_sta.Dispatcher.Lifecycle.Steps.{Setting, KeepsAccounts, Reach}
use solana_yield_adapter_sta.Dispatcher.Lifecycle.Safety.{Evolves, Reach-Evolves}

Evolves-ne-none :
    (x : DispatcherAccount) (o p : Option DispatcherAccount) → o ≡ some x → Evolves o p → p ≢ none
Evolves-ne-none x none p e h k = cc (e)
Evolves-ne-none x (some (registry r)) p e h k = cc (h, k)
Evolves-ne-none x (some (adapter a)) p e (s, h, _) k = cc (h, k)

module _ (s : Setting) (keeps : KeepsAccounts s.invoke) (w w₁ w₂ w₃ : World)
    (reach : Reach s w₁ w₂) where
  -- What was written before the steps is still there after them.
  written-stays :
      (v : World) (k : Pubkey) (x : DispatcherAccount)
      → w₁ ≡ record v { accounts = update v.accounts k x }
      → w₂.accounts k ≢ none
  written-stays v k x e =
      Evolves-ne-none x (w₁.accounts k) (w₂.accounts k)
        (ap (λ (u : World). u.accounts k) e ∙ rw (==-refl k) refl)
        (Reach-Evolves s keeps w₁ w₂ reach k)

  -- Where invoked programs keep the dispatcher's accounts: once
  -- an adapter is registered for a program and an authority, no later registration for the
  -- same two succeeds, whoever asks, with whatever mint and status, after any instructions.
  adapter_init-once :
      (initializer info registry_info system : AccountInfo) (rest : List AccountInfo)
      (args : AdapterInitArgs) (initializer' info' registry_info' system' : AccountInfo)
      (rest' : List AccountInfo) (args' : AdapterInitArgs)
      → args'.program_id ≡ args.program_id
      → args'.authority ≡ args.authority
      → AdapterInit.process s.chain (initializer ∷ info ∷ registry_info ∷ system ∷ rest) args w
        ≡ ok (tt, w₁)
      → AdapterInit.process s.chain
          (initializer' ∷ info' ∷ registry_info' ∷ system' ∷ rest')
          args'
          w₂
        ≢ ok (tt, w₃)
  adapter_init-once initializer info registry_info system rest args initializer' info'
        registry_info' system' rest' args' same_program same_authority first second =
      let (_, _, _, _, _, _, _, written) =
        (adapter_init-IsRegistered s.chain initializer info registry_info system rest args w w₁).0
          first in
      let (request, _, _, _, _, _, _, _) =
        (adapter_init-IsRegistered s.chain initializer' info' registry_info' system' rest' args' w₂
            w₃).0
          second in
      let (_, _, _, _, _, free, _, _, _, _, _) = request in
      let address = λ (p q : Pubkey). (s.chain.find_program_address (adapter_seeds p q) id).0 in
      let k = address args.program_id args.authority in
      let moved : address args'.program_id args'.authority ≡ k =
        ap₂ address same_program same_authority in
      written-stays w k _ written (subst (λ i. w₂.accounts i ≡ none) moved free)

  -- Where invoked programs keep the dispatcher's accounts: once
  -- the registry is created, whatever instructions ran, no later creation succeeds.
  registry_init-once :
      (initializer info system : AccountInfo) (rest : List AccountInfo)
      (initializer' info' system' : AccountInfo) (rest' : List AccountInfo)
      → RegistryInit.process s.chain (initializer ∷ info ∷ system ∷ rest) w ≡ ok (tt, w₁)
      → RegistryInit.process s.chain (initializer' ∷ info' ∷ system' ∷ rest') w₂ ≢ ok (tt, w₃)
  registry_init-once initializer info system rest initializer' info' system' rest' first second =
      let (_, _, _, _, _, _, _, _, written) =
        (registry_init-IsFounded s.chain initializer info system rest w w₁).0 first in
      let (_, _, _, _, _, _, free, _, _) =
        (registry_init-IsFounded s.chain initializer' info' system' rest' w₂ w₃).0 second in
      written-stays w (s.chain.find_program_address registry_seeds id).0 _ written free
