-- ===== src/Recovery.antt =====
-- octora-api/src/modules/positions/recovery.service.ts
use octora.Base.{Bool, not, ◌&&◌, Option, none, some, if◌then◌else◌}
use octora.Base.Effect.{Result, ok, err}
use octora.Domain.{
  ExecutionMode, fast_private, indexing_lag, RecoveryGuidance, is_mode, recovery_catalog,
}
use octora.Store.{Error, silent_downgrade}

pub record ResolveModeInput : Type 0 where
  pub selected_mode : ExecutionMode
  pub fallback_mode : Option ExecutionMode
  pub surfaced_fallback : Bool

pub record ResolvedMode : Type 0 where
  pub mode : ExecutionMode
  pub downgraded_from : Option ExecutionMode
  pub surfaced_fallback : Bool

abbrev pub or_else {ℓ} : {A : Type ℓ} → Option A → A → A
or_else none d = d
or_else (some a) d = a

unfoldable pub resolve_execution_mode : ResolveModeInput → Result Error ResolvedMode
resolve_execution_mode input =
    let fallback = or_else input.fallback_mode input.selected_mode in
    if is_mode input.selected_mode fast_private
      && not (is_mode fallback input.selected_mode)
      && not input.surfaced_fallback
    then err silent_downgrade
    else ok (record {
      mode = fallback;
      downgraded_from =
          if is_mode fallback input.selected_mode then none else some input.selected_mode;
      surfaced_fallback = input.surfaced_fallback;
    })

unfoldable pub get_indexing_recovery : RecoveryGuidance
get_indexing_recovery = recovery_catalog indexing_lag
