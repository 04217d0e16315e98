-- ===== src/Hub/Errors.antt =====
-- crates/hub-errors/src/lib.rs: the errors that several contracts return.
pub data HubError : Type 0 where
  unauthorized invalid_argument not_found already_initialized already_exists : HubError
  paused contract_error : HubError
  insufficient_liquidity slippage_exceeded invalid_pool zero_amount same_token : HubError
  invalid_path : HubError
  insufficient_collateral borrow_limit_exceeded position_health_too_low : HubError
  liquidation_failed backstop_depleted invalid_collateral_factor : HubError
  escrow_not_found escrow_already_completed milestone_not_approvable : HubError
  deadline_not_reached deadline_already_passed insufficient_escrow_balance : HubError
  milestone_already_submitted milestone_already_approved escrow_not_funded : HubError
  invalid_escrow_status : HubError
  oracle_stale oracle_deviation_too_high oracle_unavailable : HubError
  circuit_breaker_triggered : HubError
  fee_bps_exceeds_maximum fee_route_invalid treasury_withdrawal_failed : HubError
  primitive_is_paused cannot_pause_registry : HubError
