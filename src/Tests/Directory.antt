-- ===== src/Tests/Directory.antt =====
-- A chain whose addresses are the seeds themselves, written as a number, and an adapter on it.
use solana_yield_adapter_sta.Prelude.{
  ℕ, suc, ◌≡◌, ◌+◌, ◌*◌, ◌==◌, ap, refl, inl, inr, arith, List, [], ◌∷◌, ◌++◌, All, some, ==-refl,
  ==→eq, Bool-cases, subst, sym,
}
use mathlib.Core.Path.{ap₂}
use solana_yield_adapter_sta.Prelude.Int.{pos}
use solana_yield_adapter_sta.Prelude.Bytes.{IsByte}
use solana_yield_adapter_sta.Types.Dispatcher.{Adapter, adapter}
use solana_yield_adapter_sta.Solana.Accounts.{AccountInfo, Pubkey}
use solana_yield_adapter_sta.Solana.Anchor.{Chain, FindsByBump}
use solana_yield_adapter_sta.Solana.Result.{ok}
use solana_yield_adapter_sta.Solana.World.{World, update}
use solana_yield_adapter_sta.Dispatcher.ToggleAdapter
use solana_yield_adapter_sta.Dispatcher.Outcomes.Toggles.{toggled}
use solana_yield_adapter_sta.Dispatcher.Lifecycle.Steps.{
  Setting, Step, toggle_adapter, Reach, here, next,
}
use solana_yield_adapter_sta.Dispatcher.Lifecycle.Safety.{IsSafe, IsSound}
use solana_yield_adapter_sta.Dispatcher.Lifecycle.Liveness.{authority_can_toggle, bootstrap}
use solana_yield_adapter_sta.Dispatcher.Directory.Addresses.{
  concat, CollisionFree, address, address-injective,
}
use solana_yield_adapter_sta.Dispatcher.Directory.Views.{view}
use solana_yield_adapter_sta.Dispatcher.Directory.Moves.{Move, step-Move}
use solana_yield_adapter_sta.Dispatcher.Directory.Runs.{Moves, Reach-Moves, Reach-view}
use solana_yield_adapter_sta.Tests.Fixtures.{
  account, accepting-KeepsAccounts, setting, caller, init_args, active_entry, empty_world,
}

-- Different byte sequences have different numbers.
abbrev code : List ℕ → ℕ
code [] = 0
code (b ∷ bs) = suc (b + 256 * code bs)

code-injective : (xs ys : List ℕ) → All IsByte xs → All IsByte ys → code xs ≡ code ys → xs ≡ ys
code-injective [] [] h k e = refl
code-injective [] (y ∷ ys) h k e = absurd (omega arith)
code-injective (x ∷ xs) [] h k e = absurd (omega arith)
code-injective (x ∷ xs) (y ∷ ys) h k e =
    let heads : x ≡ y = omega (arith, h.0, k.0) in
    let tails : code xs ≡ code ys = omega (arith, h.0, k.0) in
    ap₂ (λ b bs. b ∷ bs) heads (code-injective xs ys h.1 k.1 tails)

-- All seeds but the last.
abbrev front : List (List ℕ) → List (List ℕ)
front [] = []
front (seed ∷ []) = []
front (first ∷ second ∷ seeds) = first ∷ front (second ∷ seeds)

front-append : (seeds : List (List ℕ)) (seed : List ℕ) → front (seeds ++ (seed ∷ [])) ≡ seeds
front-append [] seed = refl
front-append (x ∷ []) seed = refl
front-append (x ∷ y ∷ seeds) seed = ap (λ xs. x ∷ xs) (front-append (y ∷ seeds) seed)

abbrev pub spelling : Chain
spelling = record {
  find_program_address = λ seeds program. (code (concat seeds), 255);
  create_program_address = λ seeds program. some (code (concat (front seeds)));
  unix_timestamp = ok (pos 5);
  create_account = λ payer info space. ok tt;
}

pub spelling-FindsByBump : FindsByBump spelling
spelling-FindsByBump seeds program =
    ap (λ xs. some (code (concat xs))) (front-append seeds (255 ∷ []))

pub spelling-CollisionFree : CollisionFree spelling
spelling-CollisionFree seeds seeds' h k e = code-injective (concat seeds) (concat seeds') h k e

abbrev pub spelled : Setting
spelled = record setting { chain = spelling }

abbrev pub entry_key : Pubkey
entry_key = address spelling 30 9

abbrev pub entry_info : AccountInfo
entry_info = account entry_key

abbrev pub entered_world : World
entered_world = record empty_world {
  accounts = update empty_world.accounts entry_key (adapter active_entry);
}

pub entered_world-held : entered_world.accounts entry_key ≡ some (adapter active_entry)
entered_world-held = rw (==-refl entry_key) refl

pub entered_world-IsSafe : IsSafe spelling entered_world.accounts
entered_world-IsSafe k = elim (Bool-cases (k == entry_key)) [
  | inr e ↦ rw e tt
  | inl e ↦ rw e (
      subst (λ i. IsSound spelling i (some (adapter active_entry))) (sym (==→eq k entry_key e))
        (ground arith, ground arith, ground arith, ground arith, ground arith, ground arith, refl))
]

address-injective_example :
    (init_args.program_id ≡ active_entry.program_id)
    × (init_args.authority ≡ active_entry.authority)
address-injective_example =
    address-injective spelling spelling-CollisionFree init_args.program_id init_args.authority
      active_entry.program_id active_entry.authority (ground arith) (ground arith) (ground arith)
      (ground arith) refl

authority_can_toggle_example :
    ToggleAdapter.process spelling (caller ∷ entry_info ∷ []) entered_world
    ≡ ok (tt, toggled caller entry_info active_entry entered_world)
authority_can_toggle_example =
    authority_can_toggle spelling spelling-FindsByBump entered_world entered_world-IsSafe entry_info
      active_entry entered_world-held caller [] refl refl refl refl (ground arith)

toggling_step : Step spelled entered_world (toggled caller entry_info active_entry entered_world)
toggling_step = toggle_adapter (caller ∷ entry_info ∷ []) (
    authority_can_toggle spelling spelling-FindsByBump entered_world entered_world-IsSafe entry_info
      active_entry entered_world-held caller [] refl refl refl refl (ground arith))

step-Move_example :
    Move
      (caller ∷ entry_info ∷ [])
      (view spelling entered_world.accounts)
      (view spelling (toggled caller entry_info active_entry entered_world).accounts)
unfolding toggling_step
step-Move_example =
    step-Move spelled entered_world (toggled caller entry_info active_entry entered_world)
      spelling-CollisionFree accepting-KeepsAccounts entered_world-IsSafe toggling_step

bootstrap_example :
    (u : World) × (w' : World) × Step spelled empty_world u
    × Step spelled u w'
    × (w'.accounts entry_key ≡ some (adapter active_entry))
bootstrap_example =
    bootstrap spelled spelling-FindsByBump spelling-CollisionFree empty_world init_args (pos 5)
      9000000 1000000 refl refl refl refl refl (ground arith) (ground arith) (ground arith)
      (ground arith) (ground arith)

abbrev toggled_world : World
toggled_world = toggled caller entry_info active_entry entered_world

abbrev paused_entry : Adapter
paused_entry = record active_entry { status = 1 }

toggling_run : Reach spelled entered_world toggled_world
toggling_run = next here toggling_step

Reach-Moves_example :
    Moves (view spelling entered_world.accounts) (view spelling toggled_world.accounts)
Reach-Moves_example =
    Reach-Moves spelled spelling-CollisionFree accepting-KeepsAccounts entered_world toggled_world
      entered_world-IsSafe toggling_run

toggled_world-shown : view spelling toggled_world.accounts 30 9 ≡ some paused_entry
toggled_world-shown = rw (==-refl entry_key) refl

Reach-view_example :
    (paused_entry.program_id ≡ init_args.program_id)
    × (paused_entry.authority ≡ init_args.authority)
Reach-view_example =
    Reach-view spelled spelling-CollisionFree accepting-KeepsAccounts entered_world toggled_world
      entered_world-IsSafe toggling_run init_args.program_id init_args.authority paused_entry
      (ground arith) (ground arith) toggled_world-shown
