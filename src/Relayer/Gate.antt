-- ===== src/Relayer/Gate.antt =====
-- The privacy gate, `checkPrivacyDelay` of octora-api/src/modules/relayer/relayer.service.ts over
-- the table of root-seen.repository.ts.
use octora.Base.{ℕ, ◌+◌, ◌≤◌, ◌<◌, String, ◌≡◌, true, Option, none, some, List, arith, ◌↔◌, eq_iff}
use octora.Base.Table.{lookup, insert, lookup-insert}
use octora.Base.Effect.{Result, ok, err}
use octora.Relayer.{RelayerConfig}
use octora.Relayer.Checks.{privacy_delay_slots, check_privacy_delay}

module _ (config : RelayerConfig) (armed : config.has_root_seen_repo ≡ true)
    (delays : 0 < privacy_delay_slots config) where
  -- Where the gate is in use, the first sight of a root arms it, at the current slot, and refuses
  -- with the whole delay to wait.
  check_privacy_delay-first :
      (slot : ℕ) (root : String) (roots : List (String × ℕ))
      → lookup root roots ≡ none
      → check_privacy_delay config (ok (some slot)) root roots
        ≡ (ok (some (0, privacy_delay_slots config)), insert root slot roots)
  unfolding check_privacy_delay
  check_privacy_delay-first slot root roots h = ground (arith, armed, delays, h)

  -- A root that has been seen passes just where the delay has passed since; the table stays as it
  -- was.
  pub check_privacy_delay-seen :
      (slot first : ℕ) (root : String) (roots : List (String × ℕ))
      → lookup root roots ≡ some first
      → (((check_privacy_delay config (ok (some slot)) root roots).0 ≡ ok none)
          ↔ (first + privacy_delay_slots config ≤ slot))
        × ((check_privacy_delay config (ok (some slot)) root roots).1 ≡ roots)
  unfolding check_privacy_delay
  check_privacy_delay-seen slot first root roots h = ground (arith, armed, delays, h)

-- Whatever is asked of it, the table never forgets a root and never moves the slot at which it was
-- first seen.
pub check_privacy_delay-keeps :
    (config : RelayerConfig) (answer : Result String (Option ℕ)) (root other : String)
    (roots : List (String × ℕ)) (first : ℕ)
    → lookup other roots ≡ some first
    → lookup other (check_privacy_delay config answer root roots).1 ≡ some first
unfolding check_privacy_delay
check_privacy_delay-keeps config (err e) root other roots first h = ground (arith, h)
check_privacy_delay-keeps config (ok none) root other roots first h = ground (arith, h)
check_privacy_delay-keeps config (ok (some slot)) root other roots first h =
    ground (arith, h, lookup-insert root other slot roots, eq_iff root other)
