-- ===== src/Integration/Privileges.antt =====
-- What the Solana runtime documents of the privileges of a cross-program invocation: an instruction
-- may name only accounts that the calling program was given, and ask of none a signature or a write
-- that the calling program does not have for it.
pub mod Adapters
pub mod Dispatcher
use solana_yield_adapter_sta.Prelude.{
  ℕ, ⊤, ◌≡◌, ◌∙◌, ap, refl, arith, Bool, true, false, ◌==◌, ==-refl, ◌&&◌, ◌||◌, not, List, [], ◌∷◌,
  map, if◌then◌else◌,
}
use solana_yield_adapter_sta.Types.{anchor, privilege_escalation, Event}
use solana_yield_adapter_sta.Solana.Accounts.{Pubkey, AccountMeta, AccountInfo}
use solana_yield_adapter_sta.Solana.Anchor.{to_meta}
use solana_yield_adapter_sta.Solana.Result.{err}
use solana_yield_adapter_sta.Solana.World.{World, Invoke}

-- Whether some of the accounts has the key and passes the test.
abbrev pub has : (AccountInfo → Bool) → Pubkey → List AccountInfo → Bool
has test k [] = false
has test k (x ∷ xs) = (x.key == k && test x) || has test k xs

abbrev pub permitted : List AccountInfo → AccountMeta → Bool
permitted given m =
    has (λ x. true) m.pubkey given
    && (not m.is_signer || has (λ x. x.is_signer) m.pubkey given)
    && (not m.is_writable || has (λ x. x.is_writable) m.pubkey given)

abbrev pub all_permitted : List AccountInfo → List AccountMeta → Bool
all_permitted given [] = true
all_permitted given (m ∷ ms) = permitted given m && all_permitted given ms

-- The runtime for a program that was given these accounts and calls only `program`.
abbrev pub supervised : List AccountInfo → Pubkey → Invoke → Invoke
supervised given program invoke ix infos w =
    if ix.program_id == program && all_permitted given ix.accounts
    then invoke ix infos w
    else err (anchor privilege_escalation)

permitted_self :
    (x : AccountInfo) (given : List AccountInfo) → permitted (x ∷ given) (to_meta x) ≡ true
permitted_self x given = ground (arith, ==-refl x.key)

all_permitted-cons :
    (x : AccountInfo) (given : List AccountInfo) (ms : List AccountMeta)
    → all_permitted given ms ≡ true
    → all_permitted (x ∷ given) ms ≡ true
all_permitted-cons x given [] h = refl
all_permitted-cons x given (m ∷ ms) h = ground (arith, all_permitted-cons x given ms)

pub all_permitted_self : (xs : List AccountInfo) → all_permitted xs (map to_meta xs) ≡ true
all_permitted_self [] = refl
all_permitted_self (x ∷ xs) =
    ground
      (arith, permitted_self x xs, all_permitted-cons x xs (map to_meta xs) (all_permitted_self xs))

-- The accounts behind the first are passed on under their own flags.
pub supervised-rest :
    (caller : AccountInfo) (remaining : List AccountInfo) (program : Pubkey) (invoke : Invoke)
    (bytes : List ℕ) (infos : List AccountInfo) (w : World)
    → supervised
        (caller ∷ remaining)
        program
        invoke
        (record { program_id = program; accounts = map to_meta remaining; bytes = bytes })
        infos
        w
      ≡ invoke
          (record { program_id = program; accounts = map to_meta remaining; bytes = bytes })
          infos
          w
supervised-rest caller remaining program invoke bytes infos w = rw (
  ==-refl program,
  all_permitted-cons caller remaining (map to_meta remaining) (all_permitted_self remaining),
)

-- A caller that has signed is passed on as a signer, and what stands between is not.
pub supervised-caller :
    (caller info : AccountInfo) (remaining : List AccountInfo) (program : Pubkey) (invoke : Invoke)
    (bytes : List ℕ) (infos : List AccountInfo) (w : World)
    → caller.is_signer ≡ true
    → supervised
        (caller ∷ info ∷ remaining)
        program
        invoke
        (record {
          program_id = program;
          accounts =
              record { pubkey = caller.key; is_signer = true; is_writable = false }
              ∷ map to_meta remaining;
          bytes = bytes;
        })
        infos
        w
      ≡ invoke
          (record {
            program_id = program;
            accounts =
                record { pubkey = caller.key; is_signer = true; is_writable = false }
                ∷ map to_meta remaining;
            bytes = bytes;
          })
          infos
          w
supervised-caller caller info remaining program invoke bytes infos w signed =
    let others : all_permitted (caller ∷ info ∷ remaining) (map to_meta remaining) ≡ true =
      all_permitted-cons caller (info ∷ remaining) (map to_meta remaining) (
        all_permitted-cons info remaining (map to_meta remaining) (all_permitted_self remaining)) in
    let own : permitted (caller ∷ info ∷ remaining)
          (record { pubkey = caller.key; is_signer = true; is_writable = false })
        ≡ true =
      ground (arith, ==-refl caller.key) in
    rw (==-refl program, own, others)
