-- ===== src/Wallet/Create.antt =====
-- Lines 3672 to 3786 of wallet.service.ts: `createSettlement` as a whole. What its backfill and its
-- synchronization write stays where the creation fails after them.
use gathergo_backend.Base.{ℕ}
use gathergo_backend.Base.Calls.{Call, ◌>>=◌, ◌>>◌, reads, transaction}
use gathergo_backend.Wallet.{SettlementRecord, Db, WalletError}
use gathergo_backend.Wallet.Standing.{Config, backfill_creator_transactions}
use gathergo_backend.Wallet.Release.{sync_creator_settlement_status}
use gathergo_backend.Wallet.Settle.{
  DashboardActor, assert_admin, CreateSettlement, find_active, assert_destination,
  prepare_settlement,
}

unfoldable pub create_settlement :
    Config
    → (creator id : ℕ) → CreateSettlement
    → DashboardActor
    → (now : ℕ) → Call WalletError Db SettlementRecord
create_settlement config creator id input actor now = do
  reads (λ _. assert_admin actor)
  backfill_creator_transactions config creator
  profile ← reads (λ db. find_active db creator)
  sync_creator_settlement_status config creator profile.status now
  reads (λ _. assert_destination profile input)
  transaction (prepare_settlement config creator id input)
