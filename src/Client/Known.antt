-- ===== src/Client/Known.antt =====
-- What the three `identify` functions of the generated client answer.
use fbyt.Base.{ℕ, ◌≡◌, ◌↔◌, List, true, some}
use fbyt.Client.Kit.{Kit, IsStandardKit, is_prefix}
use fbyt.Client.Accounts.{ClientAccount, account_discriminator, identify_account}
use fbyt.Client.Events.{ClientEvent, event_discriminator, identify_event}
use fbyt.Client.Instructions.{ClientInstruction, instruction_discriminator, identify_instruction}
use fbyt.Client.KnownAccounts.{identify_account_iff}
use fbyt.Client.KnownEvents.{identify_event_iff}
use fbyt.Client.KnownInstructions.{identify_instruction_iff}

-- With a standard kit, the client takes some bytes for an account, for an event or for an instruction
-- exactly if they start with the discriminator that the module of this account, event or instruction declares.
pub identify_iff :
    (kit : Kit)
    → IsStandardKit kit
    → (b : List ℕ)
    → ((a : ClientAccount)
        → (identify_account kit b ≡ some a) ↔ (is_prefix (account_discriminator a) b ≡ true))
      × ((e : ClientEvent)
          → (identify_event kit b ≡ some e) ↔ (is_prefix (event_discriminator e) b ≡ true))
      × ((i : ClientInstruction)
          → (identify_instruction kit b ≡ some i)
            ↔ (is_prefix (instruction_discriminator i) b ≡ true))
identify_iff kit std b = (
  identify_account_iff kit std b,
  identify_event_iff kit std b,
  identify_instruction_iff kit std b,
)
