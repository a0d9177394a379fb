-- ===== src/Types.antt =====
-- crates/types: accounts, instructions and intents. The two records of solana-program
-- (`Instruction`, `AccountMeta`) are given by the fields that this code reads.
pub mod Access
pub mod Shortvec
pub mod IntentId
pub mod Merkle
pub mod Bundle
pub mod Version
use cpsr_lite.Prelude.{ℕ, Bool, Option, List}

-- A public key is a 32-byte array, ordered byte by byte from the front: the number that the bytes
-- spell, most significant byte first, has that order.
abbrev pub Pubkey : Type 0
Pubkey = ℕ

pub data AccessKind : Type 0 where
  read_only writable : AccessKind

pub record AccountAccess : Type 0 where
  pub pubkey : Pubkey
  pub access : AccessKind

pub record AccountMeta : Type 0 where
  pub pubkey : Pubkey
  pub is_signer : Bool
  pub is_writable : Bool

pub record Instruction : Type 0 where
  pub program_id : Pubkey
  pub accounts : List AccountMeta
  pub bytes : List ℕ

pub record UserIntent : Type 0 where
  pub actor : Pubkey
  pub ix : Instruction
  pub accesses : List AccountAccess
  pub priority : ℕ
  pub expires_at_slot : Option ℕ
