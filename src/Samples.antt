-- ===== src/Samples.antt =====
-- Test data: a few intents over the accounts 7, 8 and 9, and runs of the model on them.
mod Planning
mod Capture
mod Accounts
mod Leases
mod Router
mod Sending
mod Commitments
mod Recovery
mod Messages
use cpsr_lite.Prelude.{ℕ, true, false, none, List, [], ◌∷◌}
use cpsr_lite.Types.{read_only, writable, AccountAccess, AccountMeta, Instruction, UserIntent}

abbrev meta_write : ℕ → AccountMeta
meta_write k = record { pubkey = k; is_signer = false; is_writable = true }

abbrev meta_read : ℕ → AccountMeta
meta_read k = record { pubkey = k; is_signer = false; is_writable = false }

-- Writes 7 and reads 8.
abbrev pub writer : UserIntent
writer = record {
  actor = 1;
  ix = record { program_id = 2; accounts = meta_write 7 ∷ meta_read 8 ∷ []; bytes = 5 ∷ [] };
  accesses =
      record { pubkey = 7; access = writable } ∷ record { pubkey = 8; access = read_only } ∷ [];
  priority = 3;
  expires_at_slot = none;
}

-- Reads 7, with a higher priority.
abbrev pub reader : UserIntent
reader = record {
  actor = 1;
  ix = record { program_id = 2; accounts = meta_read 7 ∷ []; bytes = [] };
  accesses = record { pubkey = 7; access = read_only } ∷ [];
  priority = 9;
  expires_at_slot = none;
}

-- Writes 8.
abbrev pub other : UserIntent
other = record {
  actor = 4;
  ix = record { program_id = 2; accounts = meta_write 8 ∷ []; bytes = 6 ∷ 6 ∷ [] };
  accesses = record { pubkey = 8; access = writable } ∷ [];
  priority = 9;
  expires_at_slot = none;
}

abbrev pub intents : List UserIntent
intents = writer ∷ other ∷ reader ∷ []
