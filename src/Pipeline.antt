-- ===== src/Pipeline.antt =====
-- bundler/src/pipeline/rollup.rs: the execution of a layer, chunk by chunk. A chunk is prepared for the
-- ephemeral rollup or for the base chain, then captured, built and sent, with retries.
pub mod Merge
pub mod Prepare
pub mod Attempts
pub mod Layer
pub mod Provider
use cpsr_lite.Prelude.{ℕ, List}
use cpsr_lite.Types.{UserIntent}

pub record ChunkEstimates : Type 0 where
  pub est_cu : ℕ
  pub est_msg_bytes : ℕ
  pub alt_ro_count : ℕ
  pub alt_wr_count : ℕ

pub record ChunkPlan : Type 0 where
  pub index : ℕ
  pub intents : List UserIntent
  pub estimates : ChunkEstimates
  pub merged_indices : List ℕ

abbrev pub small_message_bytes : ℕ
small_message_bytes = 400
